-- ===== src/Os.antt =====
-- The operating system and the Go packages os and syscall, which the backend calls and the
-- repository does not hold. A call is a value of `Call`, and its result has the type `Answer`.
-- A 64-bit signed field is given as its bit pattern.
use gonfs.Common.{ℕ, Bool, Text, List, Option}
use gonfs.Common.Int.{ℤ}
use gonfs.Types.Attr.{Nfstime3}

-- The syscall.Errno values that the source names, and any other.
pub data Errno : Type 0 where
  eperm enoent eio enxio eacces eexist exdev enodev enotdir eisdir einval efbig enospc : Errno
  erofs emlink enametoolong enosys enotempty eloop : Errno
  errno : ℕ → Errno

-- What an error of package os wraps: `plain` is an error that is no syscall.Errno, on which the
-- source's type assertion `.(syscall.Errno)` panics.
pub data OsError : Type 0 where
  sys : Errno → OsError
  plain : OsError

pub data Result (A : Type 0) : Type 0 where
  ok : A → Result A
  err : OsError → Result A

-- os.FileMode: the type bits and the permission bits.
pub record FileMode : Type 0 where
  pub dir : Bool
  pub device : Bool
  pub char_device : Bool
  pub symlink : Bool
  pub socket : Bool
  pub named_pipe : Bool
  pub irregular : Bool
  pub perm : ℕ

pub record StatT : Type 0 where
  pub nlink : ℕ
  pub uid : ℕ
  pub gid : ℕ
  pub blocks : ℕ
  pub rdev : ℕ
  pub dev : ℕ
  pub ino : ℕ
  pub atim : Nfstime3
  pub mtim : Nfstime3
  pub ctim : Nfstime3

-- `stat` is none where Sys() is no *syscall.Stat_t.
pub record FileInfo : Type 0 where
  pub name : Text
  pub size : ℕ
  pub mode : FileMode
  pub stat : Option StatT

pub record StatfsT : Type 0 where
  pub blocks : ℕ
  pub bfree : ℕ
  pub bavail : ℕ
  pub files : ℕ
  pub ffree : ℕ
  pub frsize : ℕ

pub data OpenFlag : Type 0 where
  o_create o_rdwr o_wronly o_trunc o_excl o_nonblock : OpenFlag

pub data ReadError : Type 0 where
  nil eof : ReadError
  failed : OsError → ReadError

pub data Call : Type 0 where
  lstat : Text → Call
  open_read : Text → Call
  open_file : Text → List OpenFlag → ℕ → Call
  close : ℕ → Call
  readdir : ℕ → Call
  read_at : ℕ → ℕ → ℤ → Call
  write_at : ℕ → Text → ℤ → Call
  sync : ℕ → Call
  mkdir : Text → ℕ → Call
  rename : Text → Text → Call
  link : Text → Text → Call
  symlink : Text → Text → Call
  unlink : Text → Call
  rmdir : Text → Call
  readlink : Text → Call
  truncate : Text → ℤ → Call
  chmod : Text → ℕ → Call
  chtimes : Text → Nfstime3 → Nfstime3 → Call
  statfs : Text → Call
  geteuid getegid : Call

-- What a call returns beside its error.
abbrev pub Payload : Call → Type 0
Payload (lstat _) = FileInfo
Payload (open_read _) = ℕ
Payload (open_file _ _ _) = ℕ
Payload (readdir _) = List FileInfo
Payload (read_at _ _ _) = Text × ReadError
Payload (write_at _ _ _) = ℕ × Option OsError
Payload (readlink _) = Text
Payload (statfs _) = StatfsT
Payload geteuid = ℕ
Payload getegid = ℕ
Payload _ = Unit {0}

-- ReadAt and WriteAt may return data and an error; Close's error is dropped, and the ids have none.
abbrev pub Answer : Call → Type 0
Answer (close n) = Payload (close n)
Answer (read_at n k o) = Payload (read_at n k o)
Answer (write_at n d o) = Payload (write_at n d o)
Answer geteuid = Payload geteuid
Answer getegid = Payload getegid
Answer c = Result (Payload c)

-- An answer as a result.
abbrev pub to_result : (c : Call) → Answer c → Result (Payload c)
to_result (close n) r = ok r
to_result (read_at n k o) r = ok r
to_result (write_at n d o) r = ok r
to_result geteuid r = ok r
to_result getegid r = ok r
to_result c r = r

-- The world outside the process. Every call may change it, and other processes too: two calls
-- with one path need not agree.
pub record Os : Type 1 where
  pub World : Type 0
  pub perform : (c : Call) → World → Answer c × World
