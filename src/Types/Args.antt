-- ===== src/Types/Args.antt =====
-- The argument types of nfs3/nfstypdef.go.
use gonfs.Common.{ℕ, Bool, Text}
use gonfs.Types.Attr.{Nfstime3}

pub data StableHow : Type 0 where
  unstable data_sync file_sync : StableHow

pub data TimeHow : Type 0 where
  dont_change set_to_server_time set_to_client_time : TimeHow

pub record SetMode3 : Type 0 where
  pub set_it : Bool
  pub mode : ℕ

pub record SetUid3 : Type 0 where
  pub set_it : Bool
  pub uid : ℕ

pub record SetGid3 : Type 0 where
  pub set_it : Bool
  pub gid : ℕ

pub record SetSize3 : Type 0 where
  pub set_it : Bool
  pub size : ℕ

pub record SetAtime : Type 0 where
  pub set_it : TimeHow
  pub atime : Nfstime3

pub record SetMtime : Type 0 where
  pub set_it : TimeHow
  pub mtime : Nfstime3

pub record Sattr3 : Type 0 where
  pub mode : SetMode3
  pub uid : SetUid3
  pub gid : SetGid3
  pub size : SetSize3
  pub atime : SetAtime
  pub mtime : SetMtime

pub record Sattrguard3 : Type 0 where
  pub check : Bool
  pub obj_ctime : Nfstime3

pub data Createmode3 : Type 0 where
  unchecked guarded exclusive : Createmode3

pub record Createhow3 : Type 0 where
  pub mode : Createmode3
  pub verf : Text
  pub obj_attributes : Sattr3
