-- ===== src/Backend/Link.antt =====
-- nfs3/allunix.go: Link.
use gonfs.Common.{ℕ, not, Text, false, if◌then◌else◌}
use gonfs.Os.{link as link_call}
use gonfs.Types.Status.{Nfsstat3, nfs3_ok, nfs3err_stale, nfs3err_rofs, nfs3err_inval}
use gonfs.Types.Attr.{Fattr3, PostOpAttr, PreOpAttr, zero_fattr, no_post, no_pre}
use gonfs.Types.Reply.{LinkRes}
use gonfs.Prog.{Prog, ret, ◌>>=◌, ◌>>◌, delete_handle, with_path, attempt, errno_of}
use gonfs.Backend.Base.{Backend, join, is_entry_name, stat_path, post_attr, followed, pre_op_attr}
use gonfs.Backend.Errors.{get_link_err}

abbrev link_ok : PreOpAttr → PostOpAttr → PostOpAttr → LinkRes
link_ok pre dir file = record {
  status = nfs3_ok;
  file_attributes = file;
  linkdir_wcc = record { before = pre; after = dir };
  fail_file_attributes = no_post;
  fail_linkdir_wcc = record { before = pre; after = no_post };
}

abbrev link_fail : Nfsstat3 → PreOpAttr → PostOpAttr → PostOpAttr → LinkRes
link_fail s pre dir file = record {
  status = s;
  file_attributes = no_post;
  linkdir_wcc = record { before = pre; after = no_post };
  fail_file_attributes = file;
  fail_linkdir_wcc = record { before = pre; after = dir };
}

-- The directory could not be used: only the file's attributes are sent.
unfoldable pub old_only : ℕ → Prog LinkRes
old_only old_h = with_path old_h (ret (link_fail nfs3err_stale no_pre no_post no_post)) λ old_name.
    (do file ← post_attr old_h old_name; ret (link_fail nfs3err_stale no_pre no_post file))

-- The arguments of Link, with what the handles stand for.
pub record Linking : Type 0 where
  pub old_h : ℕ
  pub old_name : Text
  pub dir_h : ℕ
  pub link_dir : Text
  pub new_name : Text

-- Post attributes of the directory, and of the file only if the directory has them.
unfoldable pub link_post : Linking → Prog (PostOpAttr × PostOpAttr)
link_post l =
    stat_path l.link_dir zero_fattr
      (λ e a. do
        delete_handle l.dir_h
        ret (record { attributes_follow = false; attributes = a }, no_post))
      (λ a. do file ← post_attr l.old_h l.old_name; ret (followed a, file))

unfoldable pub link_failed : Linking → PreOpAttr → Nfsstat3 → Prog LinkRes
unfolding link_post
link_failed l pre s = do (dir, file) ← link_post l; ret (link_fail s pre dir file)

-- Both the directory and the file are stated.
unfoldable pub link_within : Backend → Linking → Fattr3 → Fattr3 → Prog LinkRes
unfolding link_failed link_post
link_within be l fattr old_fattr =
    let pre = pre_op_attr fattr in
    if not be.writeaccess
    then ret (link_fail nfs3err_rofs pre (followed fattr) (followed old_fattr))
    else if is_entry_name l.new_name
    then attempt (link_call l.old_name (join l.link_dir l.new_name))
        (λ e. do n ← errno_of e; link_failed l pre (get_link_err n))
        (λ u. do (dir, file) ← link_post l; ret (link_ok pre dir file))
    else link_failed l pre nfs3err_inval

-- The file cannot be used: post attributes of the directory alone.
unfoldable pub link_dir_only : ℕ → Text → Fattr3 → Prog LinkRes
link_dir_only dir_h link_dir fattr = do
  dir ← post_attr dir_h link_dir
  ret (link_fail nfs3err_stale (pre_op_attr fattr) dir no_post)

unfoldable pub link : Backend → ℕ → ℕ → Text → Prog LinkRes
unfolding link_within link_dir_only old_only
link be old_h dir_h new_name = with_path dir_h (old_only old_h) λ link_dir.
    stat_path link_dir zero_fattr (λ e a. do delete_handle dir_h; old_only old_h)
      λ fattr. with_path old_h (link_dir_only dir_h link_dir fattr) λ old_name.
        stat_path old_name zero_fattr
          (λ e a. do delete_handle old_h; link_dir_only dir_h link_dir fattr)
          (λ old_fattr.
            link_within be
              (record {
                old_h = old_h;
                old_name = old_name;
                dir_h = dir_h;
                link_dir = link_dir;
                new_name = new_name;
              })
              fattr old_fattr)
