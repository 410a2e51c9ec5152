-- ===== src/Types/Status.antt =====
-- The status codes of nfs3/nfstypdef.go. A Go constant is a constructor; `nfsstat3_code` is its
-- number on the wire.
use gonfs.Common.{ℕ, Bool, true, false}

pub data Mountstat3 : Type 0 where
  mnt3_ok mnt3err_acces : Mountstat3

pub data Nfsstat3 : Type 0 where
  nfs3_ok nfs3err_perm nfs3err_noent nfs3err_io nfs3err_nxio nfs3err_acces nfs3err_exist : Nfsstat3
  nfs3err_xdev nfs3err_nodev nfs3err_notdir nfs3err_isdir nfs3err_inval nfs3err_fbig : Nfsstat3
  nfs3err_nospc nfs3err_rofs nfs3err_mlink nfs3err_nametoolong nfs3err_notempty : Nfsstat3
  nfs3err_dquot nfs3err_stale nfs3err_remote nfs3err_badhandle nfs3err_not_sync : Nfsstat3
  nfs3err_bad_cookie nfs3err_notsupp nfs3err_toosmall nfs3err_serverfault : Nfsstat3
  nfs3err_badtype nfs3err_jukebox : Nfsstat3

pub nfsstat3_code : Nfsstat3 → ℕ
nfsstat3_code nfs3_ok = 0
nfsstat3_code nfs3err_perm = 1
nfsstat3_code nfs3err_noent = 2
nfsstat3_code nfs3err_io = 5
nfsstat3_code nfs3err_nxio = 6
nfsstat3_code nfs3err_acces = 13
nfsstat3_code nfs3err_exist = 17
nfsstat3_code nfs3err_xdev = 18
nfsstat3_code nfs3err_nodev = 19
nfsstat3_code nfs3err_notdir = 20
nfsstat3_code nfs3err_isdir = 21
nfsstat3_code nfs3err_inval = 22
nfsstat3_code nfs3err_fbig = 27
nfsstat3_code nfs3err_nospc = 28
nfsstat3_code nfs3err_rofs = 30
nfsstat3_code nfs3err_mlink = 31
nfsstat3_code nfs3err_nametoolong = 63
nfsstat3_code nfs3err_notempty = 66
nfsstat3_code nfs3err_dquot = 69
nfsstat3_code nfs3err_stale = 70
nfsstat3_code nfs3err_remote = 71
nfsstat3_code nfs3err_badhandle = 10001
nfsstat3_code nfs3err_not_sync = 10002
nfsstat3_code nfs3err_bad_cookie = 10003
nfsstat3_code nfs3err_notsupp = 10004
nfsstat3_code nfs3err_toosmall = 10005
nfsstat3_code nfs3err_serverfault = 10006
nfsstat3_code nfs3err_badtype = 10007
nfsstat3_code nfs3err_jukebox = 10008

-- status == NFS3_OK
abbrev pub is_ok : Nfsstat3 → Bool
is_ok nfs3_ok = true
is_ok _ = false
