-- ===== src/Svc.antt =====
-- nfs3/nfsprocdef.go: the procedures that net/rpc calls, each a method of the backend on the
-- handles in its arguments. The empty procedures are `null`, `dump` and `umntall`.
pub mod Stubs
use gonfs.Common.{ℕ, Text, Option, none, some}
use gonfs.Types.Status.{Nfsstat3, nfs3err_notsupp}
use gonfs.Types.Args.{Sattr3, Sattrguard3, StableHow, Createhow3}
use gonfs.Types.Reply.{
  Exports, Mountres3, GetattrRes, FsinfoRes, FsstatRes, PathconfRes, LookupRes, AccessRes,
  ReaddirRes, ReaddirplusRes, NewObjectRes, DirWccRes, SetattrRes, ReadRes, WriteRes, CommitRes,
  RenameRes, LinkRes, ReadlinkRes,
}
use gonfs.Prog.{Prog, ret, crash, ◌>>=◌, ◌>>◌}
use gonfs.Backend.Base.{Backend, uint64}
use gonfs.Backend.Mount
use gonfs.Backend.Query
use gonfs.Backend.Lookup
use gonfs.Backend.NewObject
use gonfs.Backend.Remove
use gonfs.Backend.Setattr
use gonfs.Backend.Io
use gonfs.Backend.Rename
use gonfs.Backend.Link
use gonfs.Backend.ReadDir

-- A request: the procedure, and the fields of its arguments that it reads. A handle is the bytes
-- that the client sent.
pub data Request : Type 0 where
  null export_list dump umntall : Request
  mnt umnt : Text → Request
  getattr readlink fsstat fsinfo pathconf commit readdirplus access : Text → Request
  lookup remove rmdir : Text → Text → Request
  setattr : Text → Sattr3 → Sattrguard3 → Request
  read : Text → ℕ → ℕ → Request
  write : Text → ℕ → ℕ → StableHow → Text → Request
  create : Text → Text → Createhow3 → Request
  mkdir : Text → Text → Sattr3 → Request
  symlink : Text → Text → Text → Request
  mknod : Request
  rename : Text → Text → Text → Text → Request
  link : Text → Text → Text → Request
  readdir : Text → ℕ → ℕ → Request

pub data Reply : Type 0 where
  exported : Exports → Reply
  mounted : Mountres3 → Reply
  void : Reply
  attributes : GetattrRes → Reply
  info : FsinfoRes → Reply
  stats : FsstatRes → Reply
  conf : PathconfRes → Reply
  looked_up : LookupRes → Reply
  granted : AccessRes → Reply
  listed : ReaddirRes → Reply
  listed_plus : ReaddirplusRes → Reply
  made : NewObjectRes → Reply
  removed : DirWccRes → Reply
  changed : SetattrRes → Reply
  contents : ReadRes → Reply
  written : WriteRes → Reply
  committed : CommitRes → Reply
  renamed : RenameRes → Reply
  linked : LinkRes → Reply
  target : ReadlinkRes → Reply
  unsupported : Nfsstat3 → Reply

-- binary.LittleEndian.Uint64(data), where a slice of fewer than 8 bytes is a panic.
unfoldable pub fhandle : Option ℕ → (ℕ → Prog Reply) → Prog Reply
fhandle none k = crash
fhandle (some h) k = k h

module _ (be : Backend) where
  unfoldable pub serve : Request → Prog Reply
  serve null = ret void
  serve export_list = ret (exported (Mount.exported_mount_point be))
  serve dump = ret void
  serve umntall = ret void
  serve (mnt path) = do r ← Mount.mount be path; ret (mounted r)
  serve (umnt path) = do Mount.unmount be path; ret void
  serve (getattr fh) = fhandle (uint64 fh) λ h. do r ← Query.get_file_attr h; ret (attributes r)
  serve (readlink fh) = fhandle (uint64 fh) λ h. do r ← Query.read_link h; ret (target r)
  serve (fsstat fh) = fhandle (uint64 fh) λ h. do r ← Query.get_file_system_attr h; ret (stats r)
  serve (fsinfo fh) = fhandle (uint64 fh) λ h. do r ← Query.get_file_sys_info h; ret (info r)
  serve (pathconf fh) = fhandle (uint64 fh) λ h. do r ← Query.get_path_conf h; ret (conf r)
  serve (commit fh) = fhandle (uint64 fh) λ h. do r ← Io.commit be h; ret (committed r)
  serve (readdirplus fh) =
      fhandle (uint64 fh) λ h. do r ← Query.read_dir_plus h; ret (listed_plus r)
  serve (access fh) = fhandle (uint64 fh) λ h. do r ← Query.access h; ret (granted r)
  serve (lookup fh name) =
      fhandle (uint64 fh) λ h. do r ← Lookup.lookup be h name; ret (looked_up r)
  serve (remove fh name) = fhandle (uint64 fh) λ h. do r ← Remove.remove be h name; ret (removed r)
  serve (rmdir fh name) = fhandle (uint64 fh) λ h. do r ← Remove.rmdir be h name; ret (removed r)
  serve (setattr fh new guard) =
      fhandle (uint64 fh) λ h. do r ← Setattr.setattr be h new guard; ret (changed r)
  serve (read fh offset count) =
      fhandle (uint64 fh) λ h. do r ← Io.read h offset count; ret (contents r)
  serve (write fh offset count how bytes) =
      fhandle (uint64 fh) λ h. do r ← Io.write be h offset count how bytes; ret (written r)
  serve (create fh name how) =
      fhandle (uint64 fh) λ h. do r ← NewObject.create be h name how; ret (made r)
  serve (mkdir fh name attr) =
      fhandle (uint64 fh) λ h. do r ← NewObject.mkdir be h name attr; ret (made r)
  serve (symlink fh name path) =
      fhandle (uint64 fh) λ h. do r ← NewObject.symlink be h name path; ret (made r)
  serve mknod = ret (unsupported nfs3err_notsupp)
  serve (rename from from_name to to_name) = fhandle (uint64 from) λ from_h.
      fhandle (uint64 to)
        λ to_h. do r ← Rename.rename be from_h from_name to_h to_name; ret (renamed r)
  serve (link old dir name) =
      fhandle (uint64 old)
        λ old_h. fhandle (uint64 dir) λ dir_h. do r ← Link.link be old_h dir_h name; ret (linked r)
  serve (readdir fh cookie count) =
      fhandle (uint64 fh) λ h. do r ← ReadDir.read_dir be h cookie count; ret (listed r)
