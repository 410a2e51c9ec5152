-- ===== src/Backend/Mount.antt =====
-- nfs3/allunix.go: BackendConfigSetup, ExportedMountPoint, Mount and UnMount.
use gonfs.Common.{ℕ, Bool, Text, [], ◌∷◌, text_eq, if◌then◌else◌}
use gonfs.Types.Status.{mnt3_ok, mnt3err_acces}
use gonfs.Types.Attr.{Ftype3, nf3dir, zero_fattr}
use gonfs.Types.Reply.{Mountres3, Exports}
use gonfs.Prog.{Prog, ret, ◌>>◌, set_value_for_handle, delete_handle, with_path}
use gonfs.Backend.Base.{Backend, ConfigOptions, put_uint64, make_fhandle, stat_path}

pub data SetupError : Type 0 where
  not_a_directory stat_failed : SetupError

pub data Setup : Type 0 where
  configured : ConfigOptions → Setup
  refused : SetupError → Setup

abbrev config_of : Ftype3 → ConfigOptions → Setup
config_of nf3dir c = configured c
config_of _ c = refused not_a_directory

unfoldable pub backend_config_setup : Text → Text → Bool → Prog Setup
backend_config_setup export_path allow_addr write_access =
    stat_path export_path zero_fattr (λ e a. ret (refused stat_failed))
      λ fattr. ret (
        config_of fattr.ftype (record {
          export_path = export_path;
          export_path_fid = fattr.fileid;
          export_path_fsid = fattr.fsid;
          allow_addr = allow_addr;
          writeaccess = write_access;
        }))

-- AUTH_UNIX
abbrev auth_unix : ℕ
auth_unix = 1

module _ (be : Backend) where
  -- ExportedMountPoint
  unfoldable pub exported_mount_point : Exports
  exported_mount_point = record { ex_dir = be.export_path; ex_groups = be.allow_addr ∷ [] }

  -- The handle of the exported directory.
  unfoldable pub mount_dir_fhandle : Text → ℕ
  mount_dir_fhandle mnt_point = make_fhandle be mnt_point be.export_path_fid be.export_path_fsid

  unfoldable pub mount : Text → Prog Mountres3
  unfolding mount_dir_fhandle
  mount mnt_point =
      if text_eq mnt_point be.export_path
      then (do
        with_path h (set_value_for_handle h mnt_point) (λ foundname. ret tt)
        ret (record {
          fhs_status = mnt3_ok;
          fhandle = put_uint64 h;
          auth_flavors = auth_unix ∷ [];
        }))
      else ret (record { fhs_status = mnt3err_acces; fhandle = []; auth_flavors = [] })
    where
      h : ℕ
      h = mount_dir_fhandle mnt_point

  unfoldable pub unmount : Text → Prog (Unit {0})
  unfolding mount_dir_fhandle
  unmount mnt_point =
      if text_eq mnt_point be.export_path
      then with_path h (ret tt) (λ foundname. delete_handle h)
      else ret tt
    where
      h : ℕ
      h = mount_dir_fhandle mnt_point
