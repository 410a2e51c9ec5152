-- ===== src/Backend/NewObject.antt =====
-- nfs3/allunix.go: Mkdir, Create and SymLink.
use gonfs.Common.{ℕ, Bool, false, ◌||◌, not, Text, List, [], ◌∷◌, text_eq, if◌then◌else◌}
use gonfs.Os.{mkdir as mkdir_call, open_file, symlink as symlink_call, close}
use gonfs.Os.{OpenFlag, o_create, o_rdwr, o_trunc, o_nonblock, o_excl}
use gonfs.Types.Status.{
  Nfsstat3, nfs3_ok, nfs3err_stale, nfs3err_rofs, nfs3err_exist, nfs3err_acces, nfs3err_inval,
}
use gonfs.Types.Attr.{Fattr3, PostOpAttr, PreOpAttr, zero_fattr, no_post, no_pre, no_post_fh}
use gonfs.Types.Args.{Sattr3, Createhow3, Createmode3, unchecked, exclusive}
use gonfs.Types.Reply.{NewObjectRes}
use gonfs.Prog.{Prog, ret, ◌>>=◌, ◌>>◌, delete_handle, perform, with_path, attempt, errno_of}
use gonfs.Backend.Base.{
  Backend, join, dot, dotdot, is_component, is_entry_name, stat_path, post_attr, followed,
  pre_op_attr, enter_handle, object_fh,
}
use gonfs.Backend.Errors.{get_mkdir_err, get_create_err, get_symlink_err}

-- The reply of a failed request: the pre-op attributes are set in both arms.
abbrev pub new_fail : Nfsstat3 → Fattr3 → PreOpAttr → PostOpAttr → NewObjectRes
new_fail s obj pre after = record {
  status = s;
  obj = no_post_fh;
  obj_attributes = record { attributes_follow = false; attributes = obj };
  dir_wcc = record { before = pre; after = no_post };
  fail_dir_wcc = record { before = pre; after = after };
}

abbrev new_ok : ℕ → Fattr3 → PreOpAttr → PostOpAttr → NewObjectRes
new_ok h obj pre after = record {
  status = nfs3_ok;
  obj = object_fh h;
  obj_attributes = followed obj;
  dir_wcc = record { before = pre; after = after };
  fail_dir_wcc = record { before = pre; after = no_post };
}

-- The directory's handle is not known, or its name is gone.
abbrev new_stale : NewObjectRes
new_stale = new_fail nfs3err_stale zero_fattr no_pre no_post

-- Stat the directory for post attributes and fail with `s`.
unfoldable pub fail_in : ℕ → Text → Nfsstat3 → Fattr3 → PreOpAttr → Prog NewObjectRes
fail_in h dir s obj pre = do after ← post_attr h dir; ret (new_fail s obj pre after)

abbrev default_or : ℕ → Bool → ℕ → ℕ
default_or d set_it mode = if set_it then mode else d

-- UNCHECKED truncates an existing file; the other modes refuse it.
abbrev open_flags : Createmode3 → List OpenFlag
open_flags unchecked = o_create ∷ o_rdwr ∷ o_trunc ∷ o_nonblock ∷ []
open_flags _ = o_create ∷ o_rdwr ∷ o_trunc ∷ o_nonblock ∷ o_excl ∷ []

abbrev create_permissions : Createhow3 → Createmode3 → ℕ
create_permissions how exclusive = 0o666
create_permissions how _ =
    default_or 0o666 how.obj_attributes.mode.set_it how.obj_attributes.mode.mode

module _ (be : Backend) where
  -- The object `name` was made in `dir`: its handle and the directory's post attributes.
  unfoldable pub made : ℕ → Text → Text → PreOpAttr → Fattr3 → Prog NewObjectRes
  made h dir name pre a = do
    new ← enter_handle be name a
    after ← post_attr h dir
    ret (new_ok new a pre after)

  unfoldable pub mkdir : ℕ → Text → Sattr3 → Prog NewObjectRes
  unfolding made
  mkdir h dirname attribute = with_path h (ret new_stale) λ parent.
      stat_path parent zero_fattr (λ e a. do delete_handle h; ret new_stale)
        λ fattr.
          let pre = pre_op_attr fattr in
          if not be.writeaccess
          then ret (new_fail nfs3err_rofs zero_fattr pre (followed fattr))
          else if not (is_component dirname)
          then fail_in h parent nfs3err_acces zero_fattr pre
          else if text_eq dirname dot || text_eq dirname dotdot
          then fail_in h parent nfs3err_exist zero_fattr pre
          else attempt
              (mkdir_call (join parent dirname)
                (default_or 0o777 attribute.mode.set_it attribute.mode.mode))
              (λ e. do n ← errno_of e; fail_in h parent (get_mkdir_err n) zero_fattr pre)
              (λ u.
                stat_path (join parent dirname) zero_fattr
                  (λ e a. fail_in h parent (get_mkdir_err e) a pre)
                  (λ a. made h parent (join parent dirname) pre a))

  -- The file stays open until the method returns.
  unfoldable pub created : ℕ → Text → Text → PreOpAttr → ℕ → Prog NewObjectRes
  unfolding made
  created h dir name pre fd = do
    r ←
        stat_path name zero_fattr (λ e a. fail_in h dir (get_create_err e) a pre)
          (λ a. made h dir name pre a)
    perform (close fd)
    ret r

  unfoldable pub create : ℕ → Text → Createhow3 → Prog NewObjectRes
  unfolding created
  create h name how = with_path h (ret new_stale) λ dir.
      stat_path dir zero_fattr (λ e a. do delete_handle h; ret new_stale)
        λ fattr.
          let pre = pre_op_attr fattr in
          if not be.writeaccess
          then ret (new_fail nfs3err_rofs zero_fattr pre (followed fattr))
          else if is_entry_name name
          then attempt
              (open_file (join dir name) (open_flags how.mode) (create_permissions how how.mode))
              (λ e. do n ← errno_of e; fail_in h dir (get_create_err n) zero_fattr pre)
              (λ fd. created h dir (join dir name) pre fd)
          else fail_in h dir nfs3err_inval zero_fattr pre

  -- The status stays NFS3ERR_STALE where the new link cannot be stated.
  unfoldable pub symlink : ℕ → Text → Text → Prog NewObjectRes
  unfolding made
  symlink h name target = with_path h (ret new_stale) λ dir.
      stat_path dir zero_fattr (λ e a. do delete_handle h; ret new_stale)
        λ fattr.
          let pre = pre_op_attr fattr in
          if not be.writeaccess
          then ret (new_fail nfs3err_rofs zero_fattr pre (followed fattr))
          else if is_entry_name name
          then attempt (symlink_call target (join dir name))
              (λ e. do n ← errno_of e; fail_in h dir (get_symlink_err n) zero_fattr pre)
              (λ u.
                stat_path (join dir name) zero_fattr (λ e a. fail_in h dir nfs3err_stale a pre)
                  (λ a. made h dir (join dir name) pre a))
          else fail_in h dir nfs3err_inval zero_fattr pre
