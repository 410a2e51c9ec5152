-- ===== src/Backend/Remove.antt =====
-- nfs3/allunix.go: Remove and Rmdir.
use gonfs.Common.{ℕ, Bool, not, ◌&&◌, ◌||◌, Text, [], text_eq, contains_slash, if◌then◌else◌}
use gonfs.Os.{unlink, rmdir as rmdir_call}
use gonfs.Types.Status.{Nfsstat3, nfs3_ok, nfs3err_stale, nfs3err_rofs, nfs3err_inval}
use gonfs.Types.Attr.{PostOpAttr, PreOpAttr, zero_fattr, no_post, no_pre}
use gonfs.Types.Reply.{DirWccRes}
use gonfs.Prog.{Prog, ret, ◌>>=◌, ◌>>◌, delete_handle, with_path, attempt, errno_of}
use gonfs.Backend.Base.{
  Backend, join, dot, dotdot, is_entry_name, stat_path, post_attr, followed, pre_op_attr,
}
use gonfs.Backend.Errors.{get_remove_err, get_rmdir_err}

abbrev wcc_fail : Nfsstat3 → PreOpAttr → PostOpAttr → DirWccRes
wcc_fail s pre after = record {
  status = s;
  dir_wcc = record { before = pre; after = no_post };
  fail_dir_wcc = record { before = pre; after = after };
}

abbrev wcc_ok : PreOpAttr → PostOpAttr → DirWccRes
wcc_ok pre after = record {
  status = nfs3_ok;
  dir_wcc = record { before = pre; after = after };
  fail_dir_wcc = record { before = pre; after = no_post };
}

abbrev wcc_stale : DirWccRes
wcc_stale = wcc_fail nfs3err_stale no_pre no_post

-- The guard of Rmdir, whose first `||` the source of Remove has as `&&`.
unfoldable pub rmdir_allows : Text → Bool
rmdir_allows name =
    not (text_eq name [])
    || (not (contains_slash name) && not (text_eq name dot) && not (text_eq name dotdot))

module _ (be : Backend) where
  unfoldable pub remove : ℕ → Text → Prog DirWccRes
  remove h name = with_path h (ret wcc_stale) λ dir.
      stat_path dir zero_fattr (λ e a. do delete_handle h; ret wcc_stale)
        λ fattr.
          let pre = pre_op_attr fattr in
          if not be.writeaccess
          then ret (wcc_fail nfs3err_rofs pre (followed fattr))
          else if is_entry_name name
          then attempt (unlink (join dir name))
              (λ e. do
                n ← errno_of e
                after ← post_attr h dir
                ret (wcc_fail (get_remove_err n) pre after))
              (λ u. do after ← post_attr h dir; ret (wcc_ok pre after))
          else do after ← post_attr h dir; ret (wcc_fail nfs3err_inval pre after)

  unfoldable pub rmdir : ℕ → Text → Prog DirWccRes
  rmdir h name = with_path h (ret wcc_stale) λ dir.
      stat_path dir zero_fattr (λ e a. do delete_handle h; ret wcc_stale)
        λ fattr.
          let pre = pre_op_attr fattr in
          if not be.writeaccess
          then ret (wcc_fail nfs3err_rofs pre (followed fattr))
          else if rmdir_allows name
          then attempt (rmdir_call (join dir name))
              (λ e. do
                n ← errno_of e
                after ← post_attr h dir
                ret (wcc_fail (get_rmdir_err n) pre after))
              (λ u. do after ← post_attr h dir; ret (wcc_ok pre after))
          else do after ← post_attr h dir; ret (wcc_fail nfs3err_inval pre after)
