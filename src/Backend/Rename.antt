-- ===== src/Backend/Rename.antt =====
-- nfs3/allunix.go: Rename.
use gonfs.Common.{ℕ, Bool, not, ◌&&◌, Text, [], ◌∷◌, text_eq, has_prefix, if◌then◌else◌}
use gonfs.Os.{rename as rename_call}
use gonfs.Types.Status.{Nfsstat3, nfs3_ok, nfs3err_stale, nfs3err_rofs, nfs3err_inval}
use gonfs.Types.Attr.{Fattr3, PostOpAttr, PreOpAttr, WccData, zero_fattr, no_post, no_pre, no_wcc}
use gonfs.Types.Reply.{RenameRes}
use gonfs.Prog.{
  Prog, ret, exit, ◌>>=◌, ◌>>◌, set_value_for_handle, delete_handle, with_path, attempt, errno_of,
}
use gonfs.Backend.Base.{
  Backend, make_fhandle, join, is_entry_name, stat_path, post_attr, followed, pre_op_attr,
}
use gonfs.Backend.Errors.{get_rename_err}

abbrev wcc : PreOpAttr → PostOpAttr → WccData
wcc before after = record { before = before; after = after }

abbrev rename_ok : PreOpAttr → PreOpAttr → PostOpAttr → PostOpAttr → RenameRes
rename_ok from_pre to_pre from_after to_after = record {
  status = nfs3_ok;
  fromdir_wcc = wcc from_pre from_after;
  todir_wcc = wcc to_pre to_after;
  fail_fromdir_wcc = wcc from_pre no_post;
  fail_todir_wcc = wcc to_pre no_post;
}

abbrev rename_fail : Nfsstat3 → PreOpAttr → PreOpAttr → PostOpAttr → PostOpAttr → RenameRes
rename_fail s from_pre to_pre from_after to_after = record {
  status = s;
  fromdir_wcc = wcc from_pre no_post;
  todir_wcc = wcc to_pre no_post;
  fail_fromdir_wcc = wcc from_pre from_after;
  fail_todir_wcc = wcc to_pre to_after;
}

-- The source directory could not be used: only the target's attributes are sent.
abbrev rename_stale : WccData → RenameRes
rename_stale to_dir = record {
  status = nfs3err_stale;
  fromdir_wcc = no_wcc;
  todir_wcc = no_wcc;
  fail_fromdir_wcc = no_wcc;
  fail_todir_wcc = to_dir;
}

unfoldable pub to_dir_only : ℕ → Fattr3 → Prog RenameRes
to_dir_only to_h fattr = with_path to_h (ret (rename_stale no_wcc)) λ to_dir.
    stat_path to_dir fattr (λ e a. do delete_handle to_h; ret (rename_stale no_wcc))
      (λ a. ret (rename_stale (wcc (pre_op_attr a) (followed a))))

-- Both names are entry names.
unfoldable pub rename_allows : Text → Text → Bool
rename_allows from_name to_name = is_entry_name from_name && is_entry_name to_name

abbrev pub silly_prefix : Text
silly_prefix = b'.' ∷ b'n' ∷ b'f' ∷ b's' ∷ []

-- After a rename to a ".nfs" name the handle of the old name stands for the new one.
unfoldable pub reset_silly : Backend → Text → Text → Text → Fattr3 → Prog (Unit {0})
reset_silly be to_name from to fattr =
    if has_prefix to_name silly_prefix
    then stat_path to fattr (λ e a. ret tt)
        (λ a. with_path (make_fhandle be from a.fileid a.fsid) (ret tt) λ foundname.
          if text_eq foundname from
          then set_value_for_handle (make_fhandle be from a.fileid a.fsid) to
          else exit)
    else ret tt

-- The arguments of Rename, with the directories that the handles stand for.
pub record Renaming : Type 0 where
  pub from_h : ℕ
  pub from_dir : Text
  pub from_name : Text
  pub to_h : ℕ
  pub to_dir : Text
  pub to_name : Text

-- Both post attributes, and a failure.
unfoldable pub rename_failed : Renaming → PreOpAttr → PreOpAttr → Nfsstat3 → Prog RenameRes
rename_failed r from_pre to_pre s = do
  from_after ← post_attr r.from_h r.from_dir
  to_after ← post_attr r.to_h r.to_dir
  ret (rename_fail s from_pre to_pre from_after to_after)

unfoldable pub rename_done : Backend → Renaming → PreOpAttr → PreOpAttr → Fattr3 → Prog RenameRes
unfolding reset_silly
rename_done be r from_pre to_pre fattr = do
  reset_silly be r.to_name (join r.from_dir r.from_name) (join r.to_dir r.to_name) fattr
  from_after ← post_attr r.from_h r.from_dir
  to_after ← post_attr r.to_h r.to_dir
  ret (rename_ok from_pre to_pre from_after to_after)

-- Both directories are stated. As in the source, the target's pre-op attributes are taken from
-- `fattr`, which describes the source directory.
unfoldable pub rename_within : Backend → Renaming → Fattr3 → Fattr3 → Prog RenameRes
unfolding rename_failed rename_done rename_allows
rename_within be r fattr to_fattr =
    let from_pre = pre_op_attr fattr in
    let to_pre = pre_op_attr fattr in
    if not be.writeaccess
    then ret (rename_fail nfs3err_rofs from_pre to_pre (followed fattr) (followed to_fattr))
    else if rename_allows r.from_name r.to_name
    then attempt (rename_call (join r.from_dir r.from_name) (join r.to_dir r.to_name))
        (λ e. do n ← errno_of e; rename_failed r from_pre to_pre (get_rename_err n))
        (λ u. rename_done be r from_pre to_pre fattr)
    else rename_failed r from_pre to_pre nfs3err_inval

-- The target directory cannot be used: post attributes of the source alone.
unfoldable pub from_dir_only : ℕ → Text → Fattr3 → Prog RenameRes
from_dir_only from_h from_dir fattr = do
  from_after ← post_attr from_h from_dir
  ret (rename_fail nfs3err_stale (pre_op_attr fattr) no_pre from_after no_post)

unfoldable pub rename : Backend → ℕ → Text → ℕ → Text → Prog RenameRes
unfolding rename_within from_dir_only to_dir_only
rename be from_h from_name to_h to_name = with_path from_h (to_dir_only to_h zero_fattr) λ from_dir.
    stat_path from_dir zero_fattr (λ e a. do delete_handle from_h; to_dir_only to_h a)
      λ fattr. with_path to_h (from_dir_only from_h from_dir fattr) λ to_dir.
        stat_path to_dir zero_fattr
          (λ e a. do delete_handle to_h; from_dir_only from_h from_dir fattr)
          (λ to_fattr.
            rename_within be
              (record {
                from_h = from_h;
                from_dir = from_dir;
                from_name = from_name;
                to_h = to_h;
                to_dir = to_dir;
                to_name = to_name;
              })
              fattr to_fattr)
