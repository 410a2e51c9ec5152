-- ===== src/Svc/Stubs.antt =====
-- nfs3/nfsprocdef.go: what each method reads of the arguments that the client sent.
use gonfs.Common.{Text}
use gonfs.Types.Operands.{
  GetattrArgs, SetattrArgs, LookupArgs, AccessArgs, ReadlinkArgs, ReadArgs, WriteArgs, CreateArgs,
  MkdirArgs, SymlinkArgs, MknodArgs, RemoveArgs, RmdirArgs, RenameArgs, LinkArgs, ReaddirArgs,
  ReaddirplusArgs, FsstatArgs, FsinfoArgs, PathconfArgs, CommitArgs,
}
use gonfs.Svc.{Request}

-- The arguments of a call, by the method that is called. Those of the empty procedures and of
-- Mountproc_export_3_svc are Void, and those of the other MOUNT procedures a path.
pub data Arguments : Type 0 where
  void_null void_export void_dump void_umntall : Arguments
  mnt umnt : Text → Arguments
  getattr : GetattrArgs → Arguments
  setattr : SetattrArgs → Arguments
  lookup : LookupArgs → Arguments
  access : AccessArgs → Arguments
  readlink : ReadlinkArgs → Arguments
  read : ReadArgs → Arguments
  write : WriteArgs → Arguments
  create : CreateArgs → Arguments
  mkdir : MkdirArgs → Arguments
  symlink : SymlinkArgs → Arguments
  mknod : MknodArgs → Arguments
  remove : RemoveArgs → Arguments
  rmdir : RmdirArgs → Arguments
  rename : RenameArgs → Arguments
  link : LinkArgs → Arguments
  readdir : ReaddirArgs → Arguments
  readdirplus : ReaddirplusArgs → Arguments
  fsstat : FsstatArgs → Arguments
  fsinfo : FsinfoArgs → Arguments
  pathconf : PathconfArgs → Arguments
  commit : CommitArgs → Arguments

-- The handles, names and numbers that the method takes from its arguments for the backend. Access
-- passes on its bits, which Access of the backend does not look at, and SymLink its attributes.
abbrev pub request_of : Arguments → Request
request_of void_null = Request.null
request_of void_export = Request.export_list
request_of void_dump = Request.dump
request_of void_umntall = Request.umntall
request_of (mnt path) = Request.mnt path
request_of (umnt path) = Request.umnt path
request_of (getattr a) = Request.getattr a.object.bytes
request_of (setattr a) = Request.setattr a.object.bytes a.new_attributes a.guard
request_of (lookup a) = Request.lookup a.what.dir.bytes a.what.name
request_of (access a) = Request.access a.object.bytes
request_of (readlink a) = Request.readlink a.symlink.bytes
request_of (read a) = Request.read a.file.bytes a.offset a.count
request_of (write a) = Request.write a.file.bytes a.offset a.count a.stable a.bytes
request_of (create a) = Request.create a.place.dir.bytes a.place.name a.how
request_of (mkdir a) = Request.mkdir a.place.dir.bytes a.place.name a.attributes
request_of (symlink a) = Request.symlink a.place.dir.bytes a.place.name a.symlink.symlink_data
request_of (mknod a) = Request.mknod
request_of (remove a) = Request.remove a.object.dir.bytes a.object.name
request_of (rmdir a) = Request.rmdir a.object.dir.bytes a.object.name
request_of (rename a) = Request.rename a.from.dir.bytes a.from.name a.to.dir.bytes a.to.name
request_of (link a) = Request.link a.file.bytes a.link.dir.bytes a.link.name
request_of (readdir a) = Request.readdir a.dir.bytes a.cookie a.count
request_of (readdirplus a) = Request.readdirplus a.dir.bytes
request_of (fsstat a) = Request.fsstat a.fsroot.bytes
request_of (fsinfo a) = Request.fsinfo a.fsroot.bytes
request_of (pathconf a) = Request.pathconf a.object.bytes
request_of (commit a) = Request.commit a.file.bytes
