-- ===== src/Backend/Io.antt =====
-- nfs3/allunix.go: Read, Write and Commit.
use gonfs.Common.{
  ℕ, zero, suc, ◌-◌, Bool, true, false, not, Text, [], ◌∷◌, ◌++◌, Option, none, some, length,
  replicate, ltb, ◌==◌, if◌then◌else◌,
}
use gonfs.Common.Int.{int64}
use gonfs.Os.{
  OsError, ReadError, nil, eof, failed, open_read, open_file, close, read_at, write_at, sync,
  o_wronly, ok, err, Result,
}
use gonfs.Types.Status.{Nfsstat3, nfs3_ok, nfs3err_stale, nfs3err_rofs, nfs3err_inval}
use gonfs.Types.Attr.{
  Ftype3, nf3reg, PostOpAttr, PreOpAttr, WccData, zero_fattr, no_post, no_pre, no_wcc,
}
use gonfs.Types.Args.{StableHow, unstable, file_sync}
use gonfs.Types.Reply.{ReadRes, WriteRes, CommitRes}
use gonfs.Prog.{Prog, ret, ◌>>=◌, ◌>>◌, delete_handle, perform, with_path, attempt, errno_of}
use gonfs.Backend.Base.{Backend, put_uint64, stat_path, post_attr, followed, pre_op_attr}
use gonfs.Backend.Query.{tcp_max_data}
use gonfs.Backend.Errors.{get_read_err, get_write_err}

abbrev pub is_reg : Ftype3 → Bool
is_reg nf3reg = true
is_reg _ = false

abbrev pub read_fail : Nfsstat3 → Text → PostOpAttr → ReadRes
read_fail s buffer after = record {
  status = s;
  file_attributes = no_post;
  count = 0;
  eof = false;
  contents = buffer;
  fail_file_attributes = after;
}

abbrev pub read_ok : Text → ℕ → Bool → PostOpAttr → ReadRes
read_ok contents count at_end after = record {
  status = nfs3_ok;
  file_attributes = after;
  count = count;
  eof = at_end;
  contents = contents;
  fail_file_attributes = no_post;
}

-- The buffer of `count` bytes after ReadAt has written the bytes that it read.
unfoldable pub read_buffer : ℕ → Text → Text
read_buffer count bytes = bytes ++ replicate (count - length bytes) 0

-- if count > tcpMaxData { count = tcpMaxData }
unfoldable pub clamp_count : ℕ → ℕ
clamp_count count = if ltb tcp_max_data count then tcp_max_data else count

-- The reply's Data, Count and Eof; or the error that ends the request.
unfoldable pub read_outcome : ℕ → Text → ReadError → Result (Text × ℕ × Bool)
unfolding read_buffer
read_outcome count bytes nil = ok (read_buffer count bytes, length bytes, false)
read_outcome count bytes eof =
    ok (if length bytes == 0 then [] else read_buffer count bytes, length bytes, true)
read_outcome count bytes (failed e) =
    if length bytes == 0 then err e else ok (read_buffer count bytes, length bytes, false)

abbrev pub answer_read : ℕ → Text → ℕ → Result (Text × ℕ × Bool) → Prog ReadRes
answer_read h name count (ok (contents, n, at_end)) = do
  after ← post_attr h name
  ret (read_ok contents n at_end after)
answer_read h name count (err e) = do
  n ← errno_of e
  after ← post_attr h name
  ret (read_fail (get_read_err n) (replicate count 0) after)

unfoldable pub read_open : ℕ → Text → ℕ → ℕ → ℕ → Prog ReadRes
unfolding clamp_count read_outcome
read_open h name offset count fd = do
  (bytes, e) ← perform (read_at fd (clamp_count count) (int64 offset))
  r ← answer_read h name (clamp_count count) (read_outcome (clamp_count count) bytes e)
  perform (close fd)
  ret r

unfoldable pub read : ℕ → ℕ → ℕ → Prog ReadRes
unfolding read_open
read h offset count = with_path h (ret (read_fail nfs3err_stale [] no_post)) λ name.
    stat_path name zero_fattr (λ e a. do delete_handle h; ret (read_fail nfs3err_stale [] no_post))
      (λ fattr.
        if is_reg fattr.ftype
        then attempt (open_read name)
            (λ e. do
              n ← errno_of e
              after ← post_attr h name
              ret (read_fail (get_read_err n) [] after))
            (λ fd. read_open h name offset count fd)
        else do after ← post_attr h name; ret (read_fail nfs3err_inval [] after))

-- The eight zero bytes of a Writeverf3.
abbrev pub no_verf : Text
no_verf = replicate 8 0

abbrev pub write_fail : Nfsstat3 → PreOpAttr → PostOpAttr → WriteRes
write_fail s pre after = record {
  status = s;
  file_wcc = record { before = pre; after = no_post };
  count = 0;
  committed = unstable;
  verf = no_verf;
  fail_file_wcc = record { before = pre; after = after };
}

abbrev pub write_ok : PreOpAttr → PostOpAttr → ℕ → StableHow → Text → WriteRes
write_ok pre after n how verf = record {
  status = nfs3_ok;
  file_wcc = record { before = pre; after = after };
  count = n;
  committed = how;
  verf = verf;
  fail_file_wcc = record { before = pre; after = no_post };
}

-- A sync that fails leaves the write unstable.
unfoldable pub commit_level : StableHow → ℕ → Prog StableHow
commit_level unstable fd = ret unstable
commit_level _ fd = attempt (sync fd) (λ e. ret unstable) (λ u. ret file_sync)

-- The error, if err != nil && bytesWritten == 0.
abbrev pub write_error : ℕ → Option OsError → Option OsError
write_error zero e = e
write_error (suc n) e = none

module _ (be : Backend) where
  abbrev pub answer_write :
      ℕ → Text → PreOpAttr → StableHow → ℕ → ℕ → Option OsError → Prog WriteRes
  answer_write h name pre how fd n none = do
    committed ← commit_level how fd
    after ← post_attr h name
    ret (write_ok pre after n committed (put_uint64 be.server_start_time))
  answer_write h name pre how fd n (some e) = do
    x ← errno_of e
    after ← post_attr h name
    ret (write_fail (get_write_err x) pre after)

  unfoldable pub write_open : ℕ → Text → PreOpAttr → ℕ → StableHow → Text → ℕ → Prog WriteRes
  unfolding commit_level
  write_open h name pre offset how contents fd = do
    (n, e) ← perform (write_at fd contents (int64 offset))
    r ← answer_write h name pre how fd n (write_error n e)
    perform (close fd)
    ret r

  -- The source clamps `count` to tcpMaxData and does not read it again: it has no effect.
  unfoldable pub write : ℕ → ℕ → ℕ → StableHow → Text → Prog WriteRes
  unfolding write_open
  write h offset count how contents =
      with_path h (ret (write_fail nfs3err_stale no_pre no_post)) λ name.
        stat_path name zero_fattr
          (λ e a. do delete_handle h; ret (write_fail nfs3err_stale no_pre no_post))
          (λ fattr.
            let pre = pre_op_attr fattr in
            if not be.writeaccess
            then ret (write_fail nfs3err_rofs pre (followed fattr))
            else if is_reg fattr.ftype
            then attempt (open_file name (o_wronly ∷ []) 0o666)
                (λ e. do
                  n ← errno_of e
                  after ← post_attr h name
                  ret (write_fail (get_write_err n) pre after))
                (λ fd. write_open h name pre offset how contents fd)
            else do after ← post_attr h name; ret (write_fail nfs3err_inval pre after))

  abbrev pub commit_reply : Nfsstat3 → WccData → Text → WccData → CommitRes
  commit_reply s wcc verf fail = record {
    status = s;
    file_wcc = wcc;
    verf = verf;
    fail_file_wcc = fail;
  }

  unfoldable pub commit : ℕ → Prog CommitRes
  commit h = with_path h (ret (commit_reply nfs3err_stale no_wcc no_verf no_wcc)) λ name.
      stat_path name zero_fattr
        (λ e a. do delete_handle h; ret (commit_reply nfs3err_stale no_wcc no_verf no_wcc))
        (λ fattr.
          let before : WccData = record { before = pre_op_attr fattr; after = no_post } in
          let both : WccData = record { before = pre_op_attr fattr; after = followed fattr } in
          if not be.writeaccess
          then ret (commit_reply nfs3err_rofs before no_verf both)
          else if is_reg fattr.ftype
          then ret (commit_reply nfs3_ok both (put_uint64 be.server_start_time) before)
          else ret (commit_reply nfs3err_inval before no_verf both))
