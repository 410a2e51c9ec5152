-- ===== src/Replies/Errors.antt =====
-- nfs3/allunix.go: the statuses that errors of the operating system are mapped to.
use gonfs.Common.{◌≡◌, refl, false}
use gonfs.Os.{Errno}
use gonfs.Types.Status.{is_ok}
use gonfs.Backend.Errors.{
  get_lookup_err, get_read_dir_err, get_mkdir_err, get_rename_err, get_create_err, get_setattr_err,
  get_read_err, get_write_err, get_remove_err, get_rmdir_err, get_link_err, get_symlink_err,
  get_readlink_err,
}

pub get_lookup_err-fails : (e : Errno) → is_ok (get_lookup_err e) ≡ false
unfolding get_lookup_err
get_lookup_err-fails Errno.eperm = refl
get_lookup_err-fails _ = refl

pub get_read_dir_err-fails : (e : Errno) → is_ok (get_read_dir_err e) ≡ false
unfolding get_read_dir_err
get_read_dir_err-fails Errno.eperm = refl
get_read_dir_err-fails _ = refl

pub get_mkdir_err-fails : (e : Errno) → is_ok (get_mkdir_err e) ≡ false
unfolding get_mkdir_err
get_mkdir_err-fails Errno.eperm = refl
get_mkdir_err-fails _ = refl

pub get_rename_err-fails : (e : Errno) → is_ok (get_rename_err e) ≡ false
unfolding get_rename_err
get_rename_err-fails Errno.eperm = refl
get_rename_err-fails _ = refl

pub get_create_err-fails : (e : Errno) → is_ok (get_create_err e) ≡ false
unfolding get_create_err
get_create_err-fails Errno.eperm = refl
get_create_err-fails _ = refl

pub get_setattr_err-fails : (e : Errno) → is_ok (get_setattr_err e) ≡ false
unfolding get_setattr_err
get_setattr_err-fails Errno.eperm = refl
get_setattr_err-fails _ = refl

pub get_read_err-fails : (e : Errno) → is_ok (get_read_err e) ≡ false
unfolding get_read_err
get_read_err-fails Errno.eperm = refl
get_read_err-fails _ = refl

pub get_write_err-fails : (e : Errno) → is_ok (get_write_err e) ≡ false
unfolding get_write_err
get_write_err-fails Errno.eperm = refl
get_write_err-fails _ = refl

pub get_remove_err-fails : (e : Errno) → is_ok (get_remove_err e) ≡ false
unfolding get_remove_err
get_remove_err-fails Errno.eperm = refl
get_remove_err-fails _ = refl

pub get_rmdir_err-fails : (e : Errno) → is_ok (get_rmdir_err e) ≡ false
unfolding get_rmdir_err
get_rmdir_err-fails Errno.eperm = refl
get_rmdir_err-fails _ = refl

pub get_link_err-fails : (e : Errno) → is_ok (get_link_err e) ≡ false
unfolding get_link_err
get_link_err-fails Errno.eperm = refl
get_link_err-fails _ = refl

pub get_symlink_err-fails : (e : Errno) → is_ok (get_symlink_err e) ≡ false
unfolding get_symlink_err
get_symlink_err-fails Errno.eperm = refl
get_symlink_err-fails _ = refl

pub get_readlink_err-fails : (e : Errno) → is_ok (get_readlink_err e) ≡ false
unfolding get_readlink_err
get_readlink_err-fails Errno.eperm = refl
get_readlink_err-fails _ = refl
