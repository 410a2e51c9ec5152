-- ===== src/Types/Operands.antt =====
-- The arguments of the procedures in nfs3/nfstypdef.go, as the client sends them.
use gonfs.Common.{ℕ, Text}
use gonfs.Types.Attr.{Ftype3, NfsFh3, Specdata3}
use gonfs.Types.Args.{Sattr3, Sattrguard3, StableHow, Createhow3}

pub record Diropargs3 : Type 0 where
  pub dir : NfsFh3
  pub name : Text

pub record GetattrArgs : Type 0 where
  pub object : NfsFh3

pub record SetattrArgs : Type 0 where
  pub object : NfsFh3
  pub new_attributes : Sattr3
  pub guard : Sattrguard3

pub record LookupArgs : Type 0 where
  pub what : Diropargs3

pub record AccessArgs : Type 0 where
  pub object : NfsFh3
  pub access : ℕ

pub record ReadlinkArgs : Type 0 where
  pub symlink : NfsFh3

pub record ReadArgs : Type 0 where
  pub file : NfsFh3
  pub offset : ℕ
  pub count : ℕ

pub record WriteArgs : Type 0 where
  pub file : NfsFh3
  pub offset : ℕ
  pub count : ℕ
  pub stable : StableHow
  pub bytes : Text

pub record CreateArgs : Type 0 where
  pub place : Diropargs3
  pub how : Createhow3

pub record MkdirArgs : Type 0 where
  pub place : Diropargs3
  pub attributes : Sattr3

pub record Symlinkdata3 : Type 0 where
  pub symlink_attributes : Sattr3
  pub symlink_data : Text

pub record SymlinkArgs : Type 0 where
  pub place : Diropargs3
  pub symlink : Symlinkdata3

pub record Devicedata3 : Type 0 where
  pub dev_attributes : Sattr3
  pub spec : Specdata3

pub record Mknoddata3 : Type 0 where
  pub ftype : Ftype3
  pub device1 : Devicedata3
  pub device2 : Devicedata3
  pub pipe_attributes1 : Sattr3
  pub pipe_attributes2 : Sattr3

pub record MknodArgs : Type 0 where
  pub place : Diropargs3
  pub what : Mknoddata3

pub record RemoveArgs : Type 0 where
  pub object : Diropargs3

pub record RmdirArgs : Type 0 where
  pub object : Diropargs3

pub record RenameArgs : Type 0 where
  pub from : Diropargs3
  pub to : Diropargs3

pub record LinkArgs : Type 0 where
  pub file : NfsFh3
  pub link : Diropargs3

pub record ReaddirArgs : Type 0 where
  pub dir : NfsFh3
  pub cookie : ℕ
  pub cookieverf : Text
  pub count : ℕ

pub record ReaddirplusArgs : Type 0 where
  pub dir : NfsFh3
  pub cookie : ℕ
  pub cookieverf : Text
  pub dircount : ℕ
  pub maxcount : ℕ

pub record FsstatArgs : Type 0 where
  pub fsroot : NfsFh3

pub record FsinfoArgs : Type 0 where
  pub fsroot : NfsFh3

pub record PathconfArgs : Type 0 where
  pub object : NfsFh3

pub record CommitArgs : Type 0 where
  pub file : NfsFh3
  pub offset : ℕ
  pub count : ℕ
