-- ===== src/Backend/Errors.antt =====
-- nfs3/allunix.go: the status that each method sends for a syscall.Errno.
use gonfs.Os.{
  Errno, eperm, enoent, enxio, eacces, eexist, exdev, enodev, enotdir, eisdir, einval, efbig,
  enospc, erofs, emlink, enametoolong, enosys, enotempty, eloop,
}
use gonfs.Types.Status.{
  Nfsstat3, nfs3err_perm, nfs3err_noent, nfs3err_io, nfs3err_nxio, nfs3err_acces, nfs3err_exist,
  nfs3err_xdev, nfs3err_notdir, nfs3err_isdir, nfs3err_inval, nfs3err_fbig, nfs3err_nospc,
  nfs3err_rofs, nfs3err_mlink, nfs3err_nametoolong, nfs3err_notempty, nfs3err_stale,
  nfs3err_notsupp,
}

unfoldable pub get_lookup_err : Errno → Nfsstat3
get_lookup_err enoent = nfs3err_noent
get_lookup_err eacces = nfs3err_acces
get_lookup_err einval = nfs3err_inval
get_lookup_err enametoolong = nfs3err_nametoolong
get_lookup_err enotdir = nfs3err_stale
get_lookup_err eloop = nfs3err_stale
get_lookup_err _ = nfs3err_io

unfoldable pub get_read_dir_err : Errno → Nfsstat3
get_read_dir_err eperm = nfs3err_perm
get_read_dir_err eacces = nfs3err_acces
get_read_dir_err enotdir = nfs3err_notdir
get_read_dir_err enametoolong = nfs3err_stale
get_read_dir_err eloop = nfs3err_stale
get_read_dir_err enoent = nfs3err_stale
get_read_dir_err einval = nfs3err_inval
get_read_dir_err _ = nfs3err_io

unfoldable pub get_mkdir_err : Errno → Nfsstat3
get_mkdir_err eacces = nfs3err_acces
get_mkdir_err eperm = nfs3err_acces
get_mkdir_err enotdir = nfs3err_notdir
get_mkdir_err eexist = nfs3err_exist
get_mkdir_err enospc = nfs3err_nospc
get_mkdir_err erofs = nfs3err_rofs
get_mkdir_err einval = nfs3err_inval
get_mkdir_err enametoolong = nfs3err_stale
get_mkdir_err eloop = nfs3err_stale
get_mkdir_err enoent = nfs3err_stale
get_mkdir_err _ = nfs3err_io

unfoldable pub get_rename_err : Errno → Nfsstat3
get_rename_err eisdir = nfs3err_isdir
get_rename_err exdev = nfs3err_xdev
get_rename_err eexist = nfs3err_exist
get_rename_err enotempty = nfs3err_notempty
get_rename_err einval = nfs3err_inval
get_rename_err enotdir = nfs3err_notdir
get_rename_err eacces = nfs3err_acces
get_rename_err eperm = nfs3err_acces
get_rename_err enoent = nfs3err_noent
get_rename_err enametoolong = nfs3err_stale
get_rename_err eloop = nfs3err_stale
get_rename_err enospc = nfs3err_nospc
get_rename_err erofs = nfs3err_rofs
get_rename_err emlink = nfs3err_mlink
get_rename_err _ = nfs3err_io

unfoldable pub get_create_err : Errno → Nfsstat3
get_create_err eexist = nfs3err_exist
get_create_err eacces = nfs3err_acces
get_create_err enametoolong = nfs3err_stale
get_create_err eloop = nfs3err_stale
get_create_err enotdir = nfs3err_stale
get_create_err enospc = nfs3err_nospc
get_create_err erofs = nfs3err_rofs
get_create_err _ = nfs3err_io

unfoldable pub get_setattr_err : Errno → Nfsstat3
get_setattr_err eacces = nfs3err_acces
get_setattr_err eperm = nfs3err_perm
get_setattr_err enametoolong = nfs3err_stale
get_setattr_err eloop = nfs3err_stale
get_setattr_err enotdir = nfs3err_stale
get_setattr_err enoent = nfs3err_stale
get_setattr_err erofs = nfs3err_rofs
get_setattr_err einval = nfs3err_inval
get_setattr_err _ = nfs3err_io

unfoldable pub get_read_err : Errno → Nfsstat3
get_read_err eacces = nfs3err_acces
get_read_err enametoolong = nfs3err_stale
get_read_err eloop = nfs3err_stale
get_read_err enotdir = nfs3err_stale
get_read_err enoent = nfs3err_stale
get_read_err enxio = nfs3err_nxio
get_read_err enodev = nfs3err_nxio
get_read_err einval = nfs3err_inval
get_read_err _ = nfs3err_io

unfoldable pub get_write_err : Errno → Nfsstat3
get_write_err eacces = nfs3err_acces
get_write_err enametoolong = nfs3err_stale
get_write_err eloop = nfs3err_stale
get_write_err enotdir = nfs3err_stale
get_write_err enoent = nfs3err_stale
get_write_err erofs = nfs3err_rofs
get_write_err enospc = nfs3err_nospc
get_write_err efbig = nfs3err_fbig
get_write_err einval = nfs3err_inval
get_write_err _ = nfs3err_io

unfoldable pub get_remove_err : Errno → Nfsstat3
get_remove_err eacces = nfs3err_acces
get_remove_err eperm = nfs3err_acces
get_remove_err enoent = nfs3err_noent
get_remove_err enametoolong = nfs3err_stale
get_remove_err eloop = nfs3err_stale
get_remove_err enotdir = nfs3err_stale
get_remove_err erofs = nfs3err_rofs
get_remove_err einval = nfs3err_inval
get_remove_err _ = nfs3err_io

unfoldable pub get_rmdir_err : Errno → Nfsstat3
get_rmdir_err enotempty = nfs3err_notempty
get_rmdir_err eacces = nfs3err_acces
get_rmdir_err eperm = nfs3err_acces
get_rmdir_err enoent = nfs3err_noent
get_rmdir_err enametoolong = nfs3err_stale
get_rmdir_err eloop = nfs3err_stale
get_rmdir_err enotdir = nfs3err_stale
get_rmdir_err erofs = nfs3err_rofs
get_rmdir_err einval = nfs3err_inval
get_rmdir_err _ = nfs3err_io

unfoldable pub get_link_err : Errno → Nfsstat3
get_link_err exdev = nfs3err_xdev
get_link_err emlink = nfs3err_mlink
get_link_err eacces = nfs3err_acces
get_link_err eperm = nfs3err_acces
get_link_err enametoolong = nfs3err_stale
get_link_err eloop = nfs3err_stale
get_link_err enotdir = nfs3err_stale
get_link_err enoent = nfs3err_stale
get_link_err erofs = nfs3err_rofs
get_link_err eexist = nfs3err_exist
get_link_err enospc = nfs3err_nospc
get_link_err enosys = nfs3err_notsupp
get_link_err einval = nfs3err_inval
get_link_err _ = nfs3err_io

unfoldable pub get_symlink_err : Errno → Nfsstat3
get_symlink_err eacces = nfs3err_acces
get_symlink_err eperm = nfs3err_acces
get_symlink_err enametoolong = nfs3err_stale
get_symlink_err eloop = nfs3err_stale
get_symlink_err enotdir = nfs3err_stale
get_symlink_err enoent = nfs3err_stale
get_symlink_err erofs = nfs3err_rofs
get_symlink_err eexist = nfs3err_exist
get_symlink_err enospc = nfs3err_nospc
get_symlink_err enosys = nfs3err_notsupp
get_symlink_err einval = nfs3err_inval
get_symlink_err _ = nfs3err_io

unfoldable pub get_readlink_err : Errno → Nfsstat3
get_readlink_err einval = nfs3err_inval
get_readlink_err eacces = nfs3err_acces
get_readlink_err enosys = nfs3err_notsupp
get_readlink_err enametoolong = nfs3err_stale
get_readlink_err eloop = nfs3err_stale
get_readlink_err enotdir = nfs3err_stale
get_readlink_err enoent = nfs3err_stale
get_readlink_err _ = nfs3err_io
