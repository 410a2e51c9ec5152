-- ===== src/Backend/ReadDir.antt =====
-- nfs3/allunix.go: ReadDir.
use Prim.Native.Nat.{bit_or}
use gonfs.Common.{
  ℕ, ◌+◌, ◌*◌, ◌/◌, ◌%◌, ◌^◌, Bool, true, false, ◌&&◌, Text, List, [], ◌∷◌, ◌++◌, map, Option, none,
  some, length, drop, ltb, text_eq, if◌then◌else◌,
}
use gonfs.Os.{FileInfo, StatT, lstat, open_read, readdir, close}
use gonfs.Types.Status.{Nfsstat3, nfs3_ok, nfs3err_stale}
use gonfs.Types.Attr.{Fattr3, PostOpAttr, zero_fattr, no_post}
use gonfs.Types.Reply.{Entry3, ReaddirRes}
use gonfs.Prog.{Prog, ret, crash, ◌>>=◌, ◌>>◌, delete_handle, perform, with_path, attempt, errno_of}
use gonfs.Backend.Base.{Backend, join, dot, dotdot, stat_path, post_attr, followed}
use gonfs.Backend.Errors.{get_read_dir_err}

-- A success is sent with the first fields, a failure with `fail`.
abbrev pub readdir_reply : Nfsstat3 → PostOpAttr → List Entry3 → Bool → PostOpAttr → ReaddirRes
readdir_reply s dir entries at_end fail = record {
  status = s;
  dir_attributes = dir;
  entries = entries;
  eof = at_end;
  fail_dir_attributes = fail;
}

-- READDIRRESOKSIZE
abbrev pub readdirresoksize : ℕ
readdirresoksize = 104

-- ENTRY3SIZE
abbrev pub entry3size : ℕ
entry3size = 24

-- uint32(ENTRY3SIZE + ((len(name)+3)/4)*4)
unfoldable pub entry_overhead : Text → ℕ
entry_overhead name = (entry3size + (length name + 3) / 4 * 4) % 2 ^ 32

-- Cookie3((dirEntryCount << 32) | (i + 1)), in uint64
unfoldable pub entry_cookie : ℕ → ℕ → ℕ
entry_cookie total i = bit_or (total * 2 ^ 32 % 2 ^ 64) ((i + 1) % 2 ^ 64)

-- The directory that is read: is it the export, and what Lstat gave for dot in it.
pub record Reading : Type 0 where
  pub at_root : Bool
  pub dot_info : Option FileInfo
  pub total : ℕ
  pub max : ℕ

-- d.Sys().(*syscall.Stat_t).Ino; none is a panic, which a nil FileInfo ends in too.
abbrev pub ino_of_stat : Option StatT → Option ℕ
ino_of_stat none = none
ino_of_stat (some st) = some st.ino

abbrev pub ino_of : Option FileInfo → Option ℕ
ino_of none = none
ino_of (some d) = ino_of_stat d.stat

abbrev pub replaced_by : Option ℕ → Option ℕ → Option ℕ
replaced_by none new = none
replaced_by (some old) new = new

-- At the export the inode of dot replaces the one of dotdot.
unfoldable pub entry_fileid : Reading → FileInfo → Option ℕ
entry_fileid r d =
    if r.at_root && text_eq d.name dotdot
    then replaced_by (ino_of (some d)) (ino_of r.dot_info)
    else ino_of (some d)

abbrev pub cons_entry : ℕ → Text → ℕ → Option (List Entry3 × Bool) → Option (List Entry3 × Bool)
cons_entry id name cookie none = none
cons_entry id name cookie (some (es, at_end)) =
    some (record { fileid = id; name = name; cookie = cookie } ∷ es, at_end)

abbrev pub with_fileid :
    Option ℕ → Text → ℕ → Option (List Entry3 × Bool) → Option (List Entry3 × Bool)
with_fileid none name cookie rest = none
with_fileid (some id) name cookie rest = cons_entry id name cookie rest

-- The loop, from entry `i` on, with `size` bytes of the reply used; none is a panic.
unfoldable pub read_entries : Reading → ℕ → ℕ → List (Option FileInfo) → Option (List Entry3 × Bool)
unfolding entry_overhead entry_cookie entry_fileid
read_entries r i size [] = some ([], true)
read_entries r i size (none ∷ ds) = none
read_entries r i size (some d ∷ ds) =
    let used = (size + entry_overhead d.name) % 2 ^ 32 in
    let rest = read_entries r (i + 1) used ds in
    if ltb r.max used
    then some ([], false)
    else with_fileid (entry_fileid r d) d.name (entry_cookie r.total i) rest

-- An Lstat whose error is dropped: `nil` is the FileInfo then.
unfoldable pub lstat_or_nil : Text → Prog (Option FileInfo)
lstat_or_nil name = attempt (lstat name) (λ e. ret none) (λ fi. ret (some fi))

-- getDotAndDotDot: the error returned is the second Lstat's, so a failure for dotdot alone shows
-- only as a nil FileInfo. The results are dot and dotdot; none is an error.
unfoldable pub get_dot_and_dotdot : Text → Prog (Option (FileInfo × Option FileInfo))
unfolding lstat_or_nil
get_dot_and_dotdot [] = ret none
get_dot_and_dotdot (c ∷ dir) = do
  up ← lstat_or_nil (join (c ∷ dir) dotdot)
  attempt (lstat (join (c ∷ dir) dot)) (λ e. ret none) (λ here. ret (some (here, up)))

abbrev pub with_dots : List FileInfo → Option (FileInfo × Option FileInfo) → List (Option FileInfo)
with_dots ds none = map some ds
with_dots ds (some (here, up)) = map some ds ++ (some here ∷ up ∷ [])

abbrev pub dot_of : Option (FileInfo × Option FileInfo) → Option FileInfo
dot_of none = none
dot_of (some (here, up)) = some here

module _ (be : Backend) where
  -- The page that starts at the low 32 bits of the cookie.
  unfoldable pub read_page :
      Text → ℕ → ℕ → Option FileInfo → List (Option FileInfo) → Option (List Entry3 × Bool)
  unfolding read_entries
  read_page dir cookie count here ds =
      read_entries
        (record {
          at_root = text_eq dir be.export_path;
          dot_info = here;
          total = length ds;
          max = count;
        })
        (cookie % 2 ^ 32) readdirresoksize (drop (cookie % 2 ^ 32) ds)

  abbrev pub answer_page : Fattr3 → Option (List Entry3 × Bool) → Prog ReaddirRes
  answer_page a none = crash
  answer_page a (some (es, at_end)) = ret (readdir_reply nfs3_ok (followed a) es at_end no_post)

  unfoldable pub read_open_dir : ℕ → Text → ℕ → ℕ → Fattr3 → ℕ → Prog ReaddirRes
  unfolding get_dot_and_dotdot read_page
  read_open_dir h dir cookie count a fd = do
    reply ←
        attempt (readdir fd)
          (λ e. do
            n ← errno_of e
            after ← post_attr h dir
            ret (readdir_reply (get_read_dir_err n) (followed a) [] false after))
          (λ ds. do
            dots ← get_dot_and_dotdot dir
            answer_page a (read_page dir cookie count (dot_of dots) (with_dots ds dots)))
    perform (close fd)
    ret reply

  unfoldable pub read_dir : ℕ → ℕ → ℕ → Prog ReaddirRes
  unfolding read_open_dir
  read_dir h cookie count =
      with_path h (ret (readdir_reply nfs3err_stale no_post [] false no_post)) λ dir.
        stat_path dir zero_fattr
          (λ e a. do
            delete_handle h
            ret (
                readdir_reply nfs3err_stale (record { attributes_follow = false; attributes = a })
                  [] false no_post))
          (λ a.
            attempt (open_read dir)
              (λ e. do
                n ← errno_of e
                after ← post_attr h dir
                ret (readdir_reply (get_read_dir_err n) (followed a) [] false after))
              (λ fd. read_open_dir h dir cookie count a fd))
