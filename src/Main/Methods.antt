-- ===== src/Main/Methods.antt =====
-- nfs3/nfsprocdef.go and main.go: the service method of each request, and the program and number
-- under which a client calls it. Of the two empty procedures 0, that of NFS stands for both.
use gonfs.Common.{
  ℕ, zero, suc, ◌<◌, ◌≡◌, ◌≢◌, refl, sym, ap, ◌∙◌, subst, Text, codes, Option, some, get_elem?,
  arith,
}
use gonfs.Svc.{
  Request, null, export_list, dump, umntall, mnt, umnt, getattr, readlink, fsstat, fsinfo, pathconf,
  commit, readdirplus, access, lookup, remove, rmdir, setattr, read, write, create, mkdir, symlink,
  mknod, rename, link, readdir,
}
use gonfs.Types.Programs.{
  mount_program, mount_v3, mount3_proc_list, nfs_program, nfs_v3, nfs3_proc_list, nfs3_null,
  mount3_export, mount3_dump, mount3_umntall, mount3_mnt, mount3_umnt, nfs3_getattr, nfs3_readlink,
  nfs3_fsstat, nfs3_fsinfo, nfs3_pathconf, nfs3_commit, nfs3_readdirplus, nfs3_access, nfs3_lookup,
  nfs3_remove, nfs3_rmdir, nfs3_setattr, nfs3_read, nfs3_write, nfs3_create, nfs3_mkdir,
  nfs3_symlink, nfsproc3_mknod, fs3_rename, nfs3_link, nfs3_readdir,
}
use gonfs.Oncrpc.Message.{ProcEntry, CallBody}
use gonfs.Oncrpc.Dispatch.{IsFirst}
use gonfs.Oncrpc.Verdicts.{IsServed, offered, select_method-Verdict}
use gonfs.Oncrpc.ServerCodec.{select_method}
use gonfs.Main.Startup.{proc_table_server}

-- The name by which net/rpc finds the method.
abbrev pub service : Request → Text
service null = codes "NfsProc.Nfsproc3_null_3_svc"
service export_list = codes "NfsProc.Mountproc_export_3_svc"
service dump = codes "NfsProc.Mountproc_dump_3_svc"
service umntall = codes "NfsProc.Mountproc_umntall_3_svc"
service (mnt _) = codes "NfsProc.Mountproc_mnt_3_svc"
service (umnt _) = codes "NfsProc.Mountproc_umnt_3_svc"
service (getattr _) = codes "NfsProc.Nfsproc3_getattr_3_svc"
service (readlink _) = codes "NfsProc.Nfsproc3_readlink_3_svc"
service (fsstat _) = codes "NfsProc.Nfsproc3_fsstat_3_svc"
service (fsinfo _) = codes "NfsProc.Nfsproc3_fsinfo_3_svc"
service (pathconf _) = codes "NfsProc.Nfsproc3_pathconf_3_svc"
service (commit _) = codes "NfsProc.Nfsproc3_commit_3_svc"
service (readdirplus _) = codes "NfsProc.Nfsproc3_readdirplus_3_svc"
service (access _) = codes "NfsProc.Nfsproc3_access_3_svc"
service (lookup _ _) = codes "NfsProc.Nfsproc3_lookup_3_svc"
service (remove _ _) = codes "NfsProc.Nfsproc3_remove_3_svc"
service (rmdir _ _) = codes "NfsProc.Nfsproc3_rmdir_3_svc"
service (setattr _ _ _) = codes "NfsProc.Nfsproc3_setattr_3_svc"
service (read _ _ _) = codes "NfsProc.Nfsproc3_read_3_svc"
service (write _ _ _ _ _) = codes "NfsProc.Nfsproc3_write_3_svc"
service (create _ _ _) = codes "NfsProc.Nfsproc3_create_3_svc"
service (mkdir _ _ _) = codes "NfsProc.Nfsproc3_mkdir_3_svc"
service (symlink _ _ _) = codes "NfsProc.Nfsproc3_symlink_3_svc"
service mknod = codes "NfsProc.Nfsproc3_mknod_3_svc"
service (rename _ _ _ _) = codes "NfsProc.Nfsproc3_rename_3_svc"
service (link _ _ _) = codes "NfsProc.Nfsproc3_link_3_svc"
service (readdir _ _ _) = codes "NfsProc.Nfsproc3_readdir_3_svc"

pub data Program : Type 0 where
  nfs mount : Program

-- The program of a request, and its procedure.
abbrev pub procedure_of : Request → Program × ℕ
procedure_of null = (nfs, nfs3_null)
procedure_of export_list = (mount, mount3_export)
procedure_of dump = (mount, mount3_dump)
procedure_of umntall = (mount, mount3_umntall)
procedure_of (mnt _) = (mount, mount3_mnt)
procedure_of (umnt _) = (mount, mount3_umnt)
procedure_of (getattr _) = (nfs, nfs3_getattr)
procedure_of (readlink _) = (nfs, nfs3_readlink)
procedure_of (fsstat _) = (nfs, nfs3_fsstat)
procedure_of (fsinfo _) = (nfs, nfs3_fsinfo)
procedure_of (pathconf _) = (nfs, nfs3_pathconf)
procedure_of (commit _) = (nfs, nfs3_commit)
procedure_of (readdirplus _) = (nfs, nfs3_readdirplus)
procedure_of (access _) = (nfs, nfs3_access)
procedure_of (lookup _ _) = (nfs, nfs3_lookup)
procedure_of (remove _ _) = (nfs, nfs3_remove)
procedure_of (rmdir _ _) = (nfs, nfs3_rmdir)
procedure_of (setattr _ _ _) = (nfs, nfs3_setattr)
procedure_of (read _ _ _) = (nfs, nfs3_read)
procedure_of (write _ _ _ _ _) = (nfs, nfs3_write)
procedure_of (create _ _ _) = (nfs, nfs3_create)
procedure_of (mkdir _ _ _) = (nfs, nfs3_mkdir)
procedure_of (symlink _ _ _) = (nfs, nfs3_symlink)
procedure_of mknod = (nfs, nfsproc3_mknod)
procedure_of (rename _ _ _ _) = (nfs, fs3_rename)
procedure_of (link _ _ _) = (nfs, nfs3_link)
procedure_of (readdir _ _ _) = (nfs, nfs3_readdir)

abbrev pub entry_of : Program → ProcEntry
entry_of nfs = record { program = nfs_program; version = nfs_v3; proc_list = nfs3_proc_list }
entry_of mount = record {
  program = mount_program;
  version = mount_v3;
  proc_list = mount3_proc_list;
}

entry_of-IsFirst :
    (p : Program) → (i : ℕ) × IsFirst (entry_of p).program proc_table_server i (entry_of p)
entry_of-IsFirst nfs = (0, (refl, refl, λ j f h. absurd (omega arith)))
entry_of-IsFirst mount = (1, (refl, refl, earlier))
  where
    earlier :
        (j : ℕ) (f : ProcEntry)
        → j < 1
        → get_elem? proc_table_server j ≡ some f
        → mount_program ≢ f.program
    earlier zero f h at e = absurd (omega (arith, e ∙ sym (ap (λ x. x.program) (inner at))))
      where
        inner : some (entry_of nfs) ≡ some f → entry_of nfs ≡ f
        inner h = cc
    earlier (suc j) f h at e = absurd (omega arith)

pub listed-service :
    (r : Request)
    → get_elem? (entry_of (procedure_of r).0).proc_list (procedure_of r).1 ≡ some (service r)
listed-service null = refl
listed-service export_list = refl
listed-service dump = refl
listed-service umntall = refl
listed-service (mnt a) = refl
listed-service (umnt a) = refl
listed-service (getattr a) = refl
listed-service (readlink a) = refl
listed-service (fsstat a) = refl
listed-service (fsinfo a) = refl
listed-service (pathconf a) = refl
listed-service (commit a) = refl
listed-service (readdirplus a) = refl
listed-service (access a) = refl
listed-service (lookup a b) = refl
listed-service (remove a b) = refl
listed-service (rmdir a b) = refl
listed-service (setattr a b c) = refl
listed-service (read a b c) = refl
listed-service (write a b c d e) = refl
listed-service (create a b c) = refl
listed-service (mkdir a b c) = refl
listed-service (symlink a b c) = refl
listed-service mknod = refl
listed-service (rename a b c d) = refl
listed-service (link a b c) = refl
listed-service (readdir a b c) = refl

-- The table of main leads a call with a request's program, version 3 and procedure to the method of
-- the request, where the header can be served.
pub select_method-service :
    (r : Request) (call : CallBody) (current : Option ℕ)
    → IsServed call
    → call.program ≡ (entry_of (procedure_of r).0).program
    → call.version ≡ (entry_of (procedure_of r).0).version
    → call.procedure ≡ (procedure_of r).1
    → (select_method proc_table_server call current).0 ≡ service r
select_method-service r call current served p v n =
    (select_method-Verdict proc_table_server call current (service r)).1 (
      offered {e = entry_of (procedure_of r).0} served
        (subst (λ q. IsFirst q proc_table_server first.0 (entry_of (procedure_of r).0)) (sym p)
          first.1)
        v (ap (λ k. get_elem? (entry_of (procedure_of r).0).proc_list k) n ∙ listed-service r))
  where
    first :
        (i : ℕ) × IsFirst
          (entry_of (procedure_of r).0).program
          proc_table_server
          i
          (entry_of (procedure_of r).0)
    first = entry_of-IsFirst (procedure_of r).0
