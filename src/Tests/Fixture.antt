-- ===== src/Tests/Fixture.antt =====
-- A server of the directory "/e", which holds a directory "d" and a file "f" of three bytes.
use gonfs.Common.{
  ℕ, ◌+◌, ◌<◌, arith, ◌*◌, ◌%◌, ◌^◌, Bool, true, false, Text, codes, [], ◌∷◌, none, some, text_eq,
  if◌then◌else◌,
}
use gonfs.Os.{Os, Call, Answer, Errno, sys, ok, err, Result, FileInfo, ReadError}
use gonfs.Types.Attr.{Nfstime3}
use gonfs.Backend.Base.{Backend}

-- In place of hash/fnv.
unfoldable pub hash : Text → ℕ
hash [] = 1
hash (c ∷ s) = (hash s * 257 + c) % 2 ^ 64

pub hash-range : (s : Text) → hash s < 2 ^ 64
unfolding hash
hash-range [] = omega arith
hash-range (c ∷ s) = omega arith

abbrev pub export : Text
export = codes "/e"

abbrev pub backend : Backend
backend = record {
  fnv64a = hash;
  server_start_time = 7;
  config = record {
    export_path = export;
    export_path_fid = 10;
    export_path_fsid = 1;
    allow_addr = codes "*";
    writeaccess = true;
  };
}

abbrev noon : Nfstime3
noon = record { seconds = 43200; nseconds = 0 }

abbrev pub info : Bool → Text → ℕ → FileInfo
info dir name ino = record {
  name = name;
  size = 3;
  mode = record {
    dir = dir;
    device = false;
    char_device = false;
    symlink = false;
    socket = false;
    named_pipe = false;
    irregular = false;
    perm = 0o755;
  };
  stat = some (record {
    nlink = 1;
    uid = 0;
    gid = 0;
    blocks = 8;
    rdev = 0;
    dev = 1;
    ino = ino;
    atim = noon;
    mtim = noon;
    ctim = noon;
  });
}

abbrev pub stat_of : Text → Result FileInfo
stat_of p =
    if text_eq p export
    then ok (info true (codes "e") 10)
    else if text_eq p (codes "/e/d")
    then ok (info true (codes "d") 11)
    else if text_eq p (codes "/e/f")
    then ok (info false (codes "f") 12)
    else err (sys Errno.enoent)

abbrev pub answer : (c : Call) → Answer c
answer (Call.lstat p) = stat_of p
answer (Call.open_read p) = ok 3
answer (Call.open_file p fs m) = ok 3
answer (Call.close fd) = tt
answer (Call.readdir fd) = ok (info true (codes "d") 11 ∷ info false (codes "f") 12 ∷ [])
answer (Call.read_at fd n o) = (codes "abc", ReadError.eof)
answer (Call.write_at fd d o) = (1, none)
answer (Call.sync fd) = ok tt
answer (Call.mkdir p m) = ok tt
answer (Call.rename p q) = ok tt
answer (Call.link p q) = ok tt
answer (Call.symlink p q) = ok tt
answer (Call.unlink p) = ok tt
answer (Call.rmdir p) = ok tt
answer (Call.readlink p) = err (sys Errno.einval)
answer (Call.truncate p n) = ok tt
answer (Call.chmod p m) = ok tt
answer (Call.chtimes p a m) = ok tt
answer (Call.statfs p) = err (sys Errno.enosys)
answer Call.geteuid = 0
answer Call.getegid = 0

-- The world counts the calls.
abbrev pub os : Os
os = record { World = ℕ; perform = λ c w. (answer c, w + 1) }
