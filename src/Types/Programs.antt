-- ===== src/Types/Programs.antt =====
-- nfs3/nfstypdef.go: the programs, their procedures' numbers, and the service methods in the order
-- of these numbers.
use gonfs.Common.{ℕ, Text, codes, List, [], ◌∷◌}

abbrev pub mount_program : ℕ
mount_program = 100005

abbrev pub mount_v3 : ℕ
mount_v3 = 3

abbrev pub mount3_null : ℕ
mount3_null = 0

abbrev pub mount3_mnt : ℕ
mount3_mnt = 1

abbrev pub mount3_dump : ℕ
mount3_dump = 2

abbrev pub mount3_umnt : ℕ
mount3_umnt = 3

abbrev pub mount3_umntall : ℕ
mount3_umntall = 4

abbrev pub mount3_export : ℕ
mount3_export = 5

abbrev pub nfs_program : ℕ
nfs_program = 100003

abbrev pub nfs_v3 : ℕ
nfs_v3 = 3

abbrev pub nfs3_null : ℕ
nfs3_null = 0

abbrev pub nfs3_getattr : ℕ
nfs3_getattr = 1

abbrev pub nfs3_setattr : ℕ
nfs3_setattr = 2

abbrev pub nfs3_lookup : ℕ
nfs3_lookup = 3

abbrev pub nfs3_access : ℕ
nfs3_access = 4

abbrev pub nfs3_readlink : ℕ
nfs3_readlink = 5

abbrev pub nfs3_read : ℕ
nfs3_read = 6

abbrev pub nfs3_write : ℕ
nfs3_write = 7

abbrev pub nfs3_create : ℕ
nfs3_create = 8

abbrev pub nfs3_mkdir : ℕ
nfs3_mkdir = 9

abbrev pub nfs3_symlink : ℕ
nfs3_symlink = 10

abbrev pub nfsproc3_mknod : ℕ
nfsproc3_mknod = 11

abbrev pub nfs3_remove : ℕ
nfs3_remove = 12

abbrev pub nfs3_rmdir : ℕ
nfs3_rmdir = 13

abbrev pub fs3_rename : ℕ
fs3_rename = 14

abbrev pub nfs3_link : ℕ
nfs3_link = 15

abbrev pub nfs3_readdir : ℕ
nfs3_readdir = 16

abbrev pub nfs3_readdirplus : ℕ
nfs3_readdirplus = 17

abbrev pub nfs3_fsstat : ℕ
nfs3_fsstat = 18

abbrev pub nfs3_fsinfo : ℕ
nfs3_fsinfo = 19

abbrev pub nfs3_pathconf : ℕ
nfs3_pathconf = 20

abbrev pub nfs3_commit : ℕ
nfs3_commit = 21

abbrev pub mount3_proc_list : List Text
mount3_proc_list =
    codes "NfsProc.Mountproc_null_3_svc"
    ∷ codes "NfsProc.Mountproc_mnt_3_svc"
    ∷ codes "NfsProc.Mountproc_dump_3_svc"
    ∷ codes "NfsProc.Mountproc_umnt_3_svc"
    ∷ codes "NfsProc.Mountproc_umntall_3_svc"
    ∷ codes "NfsProc.Mountproc_export_3_svc"
    ∷ []

abbrev pub nfs3_proc_list : List Text
nfs3_proc_list =
    codes "NfsProc.Nfsproc3_null_3_svc"
    ∷ codes "NfsProc.Nfsproc3_getattr_3_svc"
    ∷ codes "NfsProc.Nfsproc3_setattr_3_svc"
    ∷ codes "NfsProc.Nfsproc3_lookup_3_svc"
    ∷ codes "NfsProc.Nfsproc3_access_3_svc"
    ∷ codes "NfsProc.Nfsproc3_readlink_3_svc"
    ∷ codes "NfsProc.Nfsproc3_read_3_svc"
    ∷ codes "NfsProc.Nfsproc3_write_3_svc"
    ∷ codes "NfsProc.Nfsproc3_create_3_svc"
    ∷ codes "NfsProc.Nfsproc3_mkdir_3_svc"
    ∷ codes "NfsProc.Nfsproc3_symlink_3_svc"
    ∷ codes "NfsProc.Nfsproc3_mknod_3_svc"
    ∷ codes "NfsProc.Nfsproc3_remove_3_svc"
    ∷ codes "NfsProc.Nfsproc3_rmdir_3_svc"
    ∷ codes "NfsProc.Nfsproc3_rename_3_svc"
    ∷ codes "NfsProc.Nfsproc3_link_3_svc"
    ∷ codes "NfsProc.Nfsproc3_readdir_3_svc"
    ∷ codes "NfsProc.Nfsproc3_readdirplus_3_svc"
    ∷ codes "NfsProc.Nfsproc3_fsstat_3_svc"
    ∷ codes "NfsProc.Nfsproc3_fsinfo_3_svc"
    ∷ codes "NfsProc.Nfsproc3_pathconf_3_svc"
    ∷ codes "NfsProc.Nfsproc3_commit_3_svc"
    ∷ []
