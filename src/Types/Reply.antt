-- ===== src/Types/Reply.antt =====
-- The reply types of nfs3/nfstypdef.go. Structs of one shape are one record: `NewObjectRes` is
-- CREATE3res, MKDIR3res and SYMLINK3res, `DirWccRes` is REMOVE3res and RMDIR3res.
use gonfs.Common.{ℕ, Bool, Text, List}
use gonfs.Types.Status.{Mountstat3, Nfsstat3}
use gonfs.Types.Attr.{Fattr3, PostOpAttr, WccData, NfsFh3, PostOpFh3, Nfstime3}
use gonfs.Types.Args.{StableHow}

pub record Mountres3 : Type 0 where
  pub fhs_status : Mountstat3
  pub fhandle : Text
  pub auth_flavors : List ℕ

-- Exports: the only node, with its only group.
pub record Exports : Type 0 where
  pub ex_dir : Text
  pub ex_groups : List Text

pub record GetattrRes : Type 0 where
  pub status : Nfsstat3
  pub obj_attributes : Fattr3

pub record FsinfoResok : Type 0 where
  pub obj_attributes : PostOpAttr
  pub rtmax : ℕ
  pub rtpref : ℕ
  pub rtmult : ℕ
  pub wtmax : ℕ
  pub wtpref : ℕ
  pub wtmult : ℕ
  pub dtpref : ℕ
  pub maxfilesize : ℕ
  pub time_delta : Nfstime3
  pub properties : ℕ

pub record FsinfoRes : Type 0 where
  pub status : Nfsstat3
  pub resok : FsinfoResok
  pub fail_obj_attributes : PostOpAttr

pub record FsstatResok : Type 0 where
  pub obj_attributes : PostOpAttr
  pub tbytes : ℕ
  pub fbytes : ℕ
  pub abytes : ℕ
  pub tfiles : ℕ
  pub ffiles : ℕ
  pub afiles : ℕ
  pub invarsec : ℕ

pub record FsstatRes : Type 0 where
  pub status : Nfsstat3
  pub resok : FsstatResok
  pub fail_obj_attributes : PostOpAttr

pub record PathconfResok : Type 0 where
  pub obj_attributes : PostOpAttr
  pub linkmax : ℕ
  pub name_max : ℕ
  pub no_trunc : Bool
  pub chown_restricted : Bool
  pub case_insensitive : Bool
  pub case_preserving : Bool

pub record PathconfRes : Type 0 where
  pub status : Nfsstat3
  pub resok : PathconfResok
  pub fail_obj_attributes : PostOpAttr

pub record LookupRes : Type 0 where
  pub status : Nfsstat3
  pub object : NfsFh3
  pub obj_attributes : PostOpAttr
  pub dir_attributes : PostOpAttr
  pub fail_dir_attributes : PostOpAttr

pub record AccessRes : Type 0 where
  pub status : Nfsstat3
  pub obj_attributes : PostOpAttr
  pub access : ℕ
  pub fail_obj_attributes : PostOpAttr

pub record Entry3 : Type 0 where
  pub fileid : ℕ
  pub name : Text
  pub cookie : ℕ

-- The Nextentry chain is a list.
pub record ReaddirRes : Type 0 where
  pub status : Nfsstat3
  pub dir_attributes : PostOpAttr
  pub entries : List Entry3
  pub eof : Bool
  pub fail_dir_attributes : PostOpAttr

pub record ReaddirplusRes : Type 0 where
  pub status : Nfsstat3
  pub fail_dir_attributes : PostOpAttr

pub record NewObjectRes : Type 0 where
  pub status : Nfsstat3
  pub obj : PostOpFh3
  pub obj_attributes : PostOpAttr
  pub dir_wcc : WccData
  pub fail_dir_wcc : WccData

pub record DirWccRes : Type 0 where
  pub status : Nfsstat3
  pub dir_wcc : WccData
  pub fail_dir_wcc : WccData

pub record SetattrRes : Type 0 where
  pub status : Nfsstat3
  pub obj_wcc : WccData
  pub fail_obj_wcc : WccData

pub record ReadRes : Type 0 where
  pub status : Nfsstat3
  pub file_attributes : PostOpAttr
  pub count : ℕ
  pub eof : Bool
  pub contents : Text
  pub fail_file_attributes : PostOpAttr

pub record WriteRes : Type 0 where
  pub status : Nfsstat3
  pub file_wcc : WccData
  pub count : ℕ
  pub committed : StableHow
  pub verf : Text
  pub fail_file_wcc : WccData

pub record CommitRes : Type 0 where
  pub status : Nfsstat3
  pub file_wcc : WccData
  pub verf : Text
  pub fail_file_wcc : WccData

pub record RenameRes : Type 0 where
  pub status : Nfsstat3
  pub fromdir_wcc : WccData
  pub todir_wcc : WccData
  pub fail_fromdir_wcc : WccData
  pub fail_todir_wcc : WccData

pub record LinkRes : Type 0 where
  pub status : Nfsstat3
  pub file_attributes : PostOpAttr
  pub linkdir_wcc : WccData
  pub fail_file_attributes : PostOpAttr
  pub fail_linkdir_wcc : WccData

pub record ReadlinkRes : Type 0 where
  pub status : Nfsstat3
  pub symlink_attributes : PostOpAttr
  pub target : Text
  pub fail_symlink_attributes : PostOpAttr
