-- ===== src/Types/Attr.antt =====
-- The attribute types of nfs3/nfstypdef.go, with Go's zero value of each: net/rpc hands every
-- procedure a zeroed reply.
use gonfs.Common.{ℕ, Bool, false, Text, []}

-- `nf3none` is the zero value, which no constant of the source names.
pub data Ftype3 : Type 0 where
  nf3none nf3reg nf3dir nf3blk nf3chr nf3lnk nf3sock nf3fifo : Ftype3

pub record Specdata3 : Type 0 where
  pub specdata1 : ℕ
  pub specdata2 : ℕ

pub record Nfstime3 : Type 0 where
  pub seconds : ℕ
  pub nseconds : ℕ

pub record Fattr3 : Type 0 where
  pub ftype : Ftype3
  pub mode : ℕ
  pub nlink : ℕ
  pub uid : ℕ
  pub gid : ℕ
  pub size : ℕ
  pub used : ℕ
  pub rdev : Specdata3
  pub fsid : ℕ
  pub fileid : ℕ
  pub atime : Nfstime3
  pub mtime : Nfstime3
  pub ctime : Nfstime3

pub record PostOpAttr : Type 0 where
  pub attributes_follow : Bool
  pub attributes : Fattr3

pub record WccAttr : Type 0 where
  pub size : ℕ
  pub mtime : Nfstime3
  pub ctime : Nfstime3

pub record PreOpAttr : Type 0 where
  pub attributes_follow : Bool
  pub attributes : WccAttr

pub record WccData : Type 0 where
  pub before : PreOpAttr
  pub after : PostOpAttr

pub record NfsFh3 : Type 0 where
  pub bytes : Text

pub record PostOpFh3 : Type 0 where
  pub handle_follows : Bool
  pub handle : NfsFh3

abbrev pub zero_time : Nfstime3
zero_time = record { seconds = 0; nseconds = 0 }

abbrev pub zero_fattr : Fattr3
zero_fattr = record {
  ftype = nf3none;
  mode = 0;
  nlink = 0;
  uid = 0;
  gid = 0;
  size = 0;
  used = 0;
  rdev = record { specdata1 = 0; specdata2 = 0 };
  fsid = 0;
  fileid = 0;
  atime = zero_time;
  mtime = zero_time;
  ctime = zero_time;
}

abbrev pub no_post : PostOpAttr
no_post = record { attributes_follow = false; attributes = zero_fattr }

abbrev pub no_pre : PreOpAttr
no_pre = record {
  attributes_follow = false;
  attributes = record { size = 0; mtime = zero_time; ctime = zero_time };
}

abbrev pub no_wcc : WccData
no_wcc = record { before = no_pre; after = no_post }

abbrev pub no_fh : NfsFh3
no_fh = record { bytes = [] }

abbrev pub no_post_fh : PostOpFh3
no_post_fh = record { handle_follows = false; handle = no_fh }
