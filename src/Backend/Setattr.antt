-- ===== src/Backend/Setattr.antt =====
-- nfs3/allunix.go: Setattr.
use gonfs.Common.{ℕ, Bool, true, false, not, ◌||◌, Text, ◌==◌, if◌then◌else◌}
use gonfs.Common.Int.{int64}
use gonfs.Os.{OsError, truncate, chmod, chtimes}
use gonfs.Types.Status.{Nfsstat3, nfs3_ok, nfs3err_stale, nfs3err_rofs, nfs3err_not_sync}
use gonfs.Types.Attr.{Fattr3, Nfstime3, PostOpAttr, PreOpAttr, zero_fattr, no_post, no_pre}
use gonfs.Types.Args.{TimeHow, dont_change, Sattr3, Sattrguard3}
use gonfs.Types.Reply.{SetattrRes}
use gonfs.Prog.{Prog, ret, ◌>>=◌, ◌>>◌, delete_handle, with_path, attempt, errno_of}
use gonfs.Backend.Base.{Backend, stat_path, post_attr, followed, pre_op_attr}
use gonfs.Backend.Errors.{get_setattr_err}

-- The post attributes of the two arms of the reply.
abbrev setattr_reply : Nfsstat3 → PreOpAttr → PostOpAttr → PostOpAttr → SetattrRes
setattr_reply s pre after fail_after = record {
  status = s;
  obj_wcc = record { before = pre; after = after };
  fail_obj_wcc = record { before = pre; after = fail_after };
}

abbrev is_set : TimeHow → Bool
is_set dont_change = false
is_set _ = true

-- time.Unix of the client's time wherever Set_it is not DONT_CHANGE, else of the file's.
unfoldable pub new_time : TimeHow → Nfstime3 → Nfstime3 → Nfstime3
new_time how given old = if is_set how then given else old

-- `break` with the status of an error.
abbrev broken : OsError → Prog Nfsstat3
broken e = do n ← errno_of e; ret (get_setattr_err n)

-- The three steps of the loop that runs once; each `break` ends it with a status.
unfoldable pub set_times : Text → Fattr3 → Sattr3 → Prog Nfsstat3
unfolding new_time
set_times name fattr new =
    if is_set new.atime.set_it || is_set new.mtime.set_it
    then attempt
        (chtimes name (new_time new.atime.set_it new.atime.atime fattr.atime)
          (new_time new.mtime.set_it new.mtime.mtime fattr.mtime))
        broken (λ u. ret nfs3_ok)
    else ret nfs3_ok

unfoldable pub set_mode : Text → Fattr3 → Sattr3 → Prog Nfsstat3
set_mode name fattr new =
    if new.mode.set_it
    then attempt (chmod name new.mode.mode) broken (λ u. set_times name fattr new)
    else set_times name fattr new

unfoldable pub set_attributes : Text → Fattr3 → Sattr3 → Prog Nfsstat3
set_attributes name fattr new =
    if new.size.set_it
    then attempt (truncate name (int64 new.size.size)) broken (λ u. set_mode name fattr new)
    else set_mode name fattr new

-- After the loop the post attributes go to Resok, whatever the status.
unfoldable pub setattr : Backend → ℕ → Sattr3 → Sattrguard3 → Prog SetattrRes
setattr be h new guard =
    with_path h (ret (setattr_reply nfs3err_stale no_pre no_post no_post)) λ name.
      stat_path name zero_fattr
        (λ e a. do delete_handle h; ret (setattr_reply nfs3err_stale no_pre no_post no_post))
        (λ fattr.
          let pre = pre_op_attr fattr in
          if not be.writeaccess
          then ret (setattr_reply nfs3err_rofs pre no_post (followed fattr))
          else if not guard.check || guard.obj_ctime.seconds == fattr.ctime.seconds
          then (do
            status ← set_attributes name fattr new
            after ← post_attr h name
            ret (setattr_reply status pre after no_post))
          else do after ← post_attr h name; ret (setattr_reply nfs3err_not_sync pre no_post after))
