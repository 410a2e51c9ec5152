-- ===== src/Backend/Base.antt =====
-- nfs3/allunix.go: the backend's state, file handles, and the steps that its methods share.
-- `os.Lstat` reaches every method through `get_file_attr_from_path`.
use gonfs.Common.{
  ℕ, ◌+◌, ◌*◌, ◌/◌, ◌%◌, ◌^◌, Bool, true, false, not, ◌&&◌, ◌||◌, Text, [], ◌∷◌, ◌++◌, Option, none,
  some, text_eq, contains_slash, if◌then◌else◌,
}
use gonfs.Os.{Errno, eio, FileMode, FileInfo, StatT, lstat}
use gonfs.Types.Attr.{
  Ftype3, nf3reg, nf3dir, nf3blk, nf3chr, nf3lnk, nf3sock, nf3fifo, Fattr3, PostOpAttr, PreOpAttr,
  PostOpFh3, zero_fattr,
}
use gonfs.Prog.{
  Prog, ret, exit, ◌>>=◌, ◌>>◌, set_value_for_handle, delete_handle, with_path, attempt, errno_of,
}

pub record ConfigOptions : Type 0 where
  pub export_path : Text
  pub export_path_fid : ℕ
  pub export_path_fsid : ℕ
  pub allow_addr : Text
  pub writeaccess : Bool

-- `fnv64a` is the package hash/fnv, which the repository does not hold: Sum64 after the bytes
-- written. The map `fhandleMap` is the state that a `Prog` reads and writes.
pub record Backend : Type 0 where
  pub fnv64a : Text → ℕ
  pub server_start_time : ℕ
  pub config : ConfigOptions
  pub open config use *

-- binary.LittleEndian.PutUint64
unfoldable pub put_uint64 : ℕ → Text
put_uint64 v =
    (v % 256)
    ∷ (v / 2 ^ 8 % 256)
    ∷ (v / 2 ^ 16 % 256)
    ∷ (v / 2 ^ 24 % 256)
    ∷ (v / 2 ^ 32 % 256)
    ∷ (v / 2 ^ 40 % 256)
    ∷ (v / 2 ^ 48 % 256)
    ∷ (v / 2 ^ 56 % 256)
    ∷ []

-- binary.LittleEndian.Uint64, which panics on fewer than 8 bytes
unfoldable pub uint64 : Text → Option ℕ
uint64 (a ∷ b ∷ c ∷ d ∷ e ∷ f ∷ g ∷ h ∷ _) =
    some
      (a + b * 2 ^ 8 + c * 2 ^ 16 + d * 2 ^ 24 + e * 2 ^ 32 + f * 2 ^ 40 + g * 2 ^ 48 + h * 2 ^ 56)
uint64 _ = none

unfoldable pub make_fhandle : Backend → Text → ℕ → ℕ → ℕ
make_fhandle be file_name fid fsid = be.fnv64a (file_name ++ (put_uint64 fid ++ put_uint64 fsid))

-- dirName + "/" + name
unfoldable pub join : Text → Text → Text
join dir name = dir ++ (b'/' ∷ name)

abbrev pub dot : Text
dot = b'.' ∷ []

abbrev pub dotdot : Text
dotdot = b'.' ∷ b'.' ∷ []

-- name != "" && strings.ContainsAny(name, "/") == false
unfoldable pub is_component : Text → Bool
is_component name = not (text_eq name []) && not (contains_slash name)

-- The same, with dot and dotdot refused.
unfoldable pub is_entry_name : Text → Bool
unfolding is_component
is_entry_name name = is_component name && not (text_eq name dot) && not (text_eq name dotdot)

-- mode&os.ModeType == 0, and the cases of the switch in their order
unfoldable pub is_regular : FileMode → Bool
is_regular m =
    not (m.dir || m.device || m.char_device || m.symlink || m.socket || m.named_pipe || m.irregular)

unfoldable pub file_type : FileMode → Ftype3 → Ftype3
unfolding is_regular
file_type m old =
    if is_regular m
    then nf3reg
    else if m.dir
    then nf3dir
    else if m.device
    then nf3blk
    else if m.char_device
    then nf3chr
    else if m.symlink
    then nf3lnk
    else if m.socket
    then nf3sock
    else if m.named_pipe
    then nf3fifo
    else old

-- The fields that come from syscall.Stat_t.
unfoldable pub set_stat : StatT → Fattr3 → Fattr3
set_stat st fattr = record fattr {
  nlink = st.nlink % 2 ^ 32;
  uid = st.uid;
  gid = st.gid;
  used = st.blocks * 512 % 2 ^ 64;
  rdev = record { specdata1 = st.rdev / 2 ^ 8 % 256; specdata2 = st.rdev % 256 };
  fsid = st.dev;
  fileid = st.ino;
  atime = record { seconds = st.atim.seconds % 2 ^ 32; nseconds = st.atim.nseconds % 2 ^ 32 };
  mtime = record { seconds = st.mtim.seconds % 2 ^ 32; nseconds = st.mtim.nseconds % 2 ^ 32 };
  ctime = record { seconds = st.ctim.seconds % 2 ^ 32; nseconds = st.ctim.nseconds % 2 ^ 32 };
}

abbrev pub fill_stat : Fattr3 → Option StatT → Option Errno × Fattr3
fill_stat fattr none = (some eio, fattr)
fill_stat fattr (some st) = (none, set_stat st fattr)

unfoldable pub fill_attr : FileInfo → Fattr3 → Option Errno × Fattr3
unfolding file_type set_stat
fill_attr fi fattr =
    fill_stat
      (record fattr { ftype = file_type fi.mode fattr.ftype; size = fi.size; mode = fi.mode.perm })
      fi.stat

-- The error, if any, and what `*fattr` holds then.
unfoldable pub get_file_attr_from_path : Text → Fattr3 → Prog (Option Errno × Fattr3)
get_file_attr_from_path file_name fattr =
    attempt (lstat file_name) (λ e. do n ← errno_of e; ret (some n, fattr))
      (λ fi. ret (fill_attr fi fattr))

module _ {A : Type 0} where
  -- if err := be.getFileAttrFromPath(name, &fattr); err == nil { done } else { failed }
  abbrev pub on_stat :
      (Errno → Fattr3 → Prog A) → (Fattr3 → Prog A) → Option Errno × Fattr3 → Prog A
  on_stat failed done (none, a) = done a
  on_stat failed done (some e, a) = failed e a

  unfoldable pub stat_path : Text → Fattr3 → (Errno → Fattr3 → Prog A) → (Fattr3 → Prog A) → Prog A
  stat_path name fattr failed done = get_file_attr_from_path name fattr >>= on_stat failed done

-- Stat a file for post attributes, into a zeroed reply; if that fails, drop its handle.
unfoldable pub post_attr : ℕ → Text → Prog PostOpAttr
post_attr h name =
    stat_path name zero_fattr
      (λ e a. do delete_handle h; ret (record { attributes_follow = false; attributes = a }))
      (λ a. ret (record { attributes_follow = true; attributes = a }))

abbrev pub followed : Fattr3 → PostOpAttr
followed a = record { attributes_follow = true; attributes = a }

-- Wcc_attr{Size: fattr.Size, Ctime: fattr.Ctime, Mtime: fattr.Mtime}
abbrev pub pre_op_attr : Fattr3 → PreOpAttr
pre_op_attr a = record {
  attributes_follow = true;
  attributes = record { size = a.size; mtime = a.mtime; ctime = a.ctime };
}

-- The handle of a name just stated: kept if the map has it for this name, set if the map lacks it
-- or has it for a name that is gone. Two living names of one handle end the process.
unfoldable pub enter_handle : Backend → Text → Fattr3 → Prog ℕ
enter_handle be name a =
    with_path h (do set_value_for_handle h name; ret h)
      λ foundname.
        if text_eq foundname name
        then ret h
        else attempt (lstat foundname) (λ e. do set_value_for_handle h name; ret h) (λ fi. exit)
  where
    h : ℕ
    h = make_fhandle be name a.fileid a.fsid

-- Obj.Handle with the 8 bytes of a handle.
abbrev pub object_fh : ℕ → PostOpFh3
object_fh h = record { handle_follows = true; handle = record { bytes = put_uint64 h } }
