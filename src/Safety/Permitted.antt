-- ===== src/Safety/Permitted.antt =====
-- The calls that the backend of nfs3/allunix.go may make: on paths reached from the export, and
-- those that change files only where the export is writable; and what the handle map may hold.
use gonfs.Common.{
  ℕ, Text, has_prefix, ◌≡◌, refl, true, false, not, ◌&&◌, arith, text_eq, text_eq_iff,
  contains_slash, subst, sym, Bool-cases, inl, inr,
}
use gonfs.Os.{
  Call, lstat, open_read, open_file, close, readdir, read_at, write_at, sync, mkdir, rename, link,
  symlink, unlink, rmdir, readlink, truncate, chmod, chtimes, statfs, geteuid, getegid,
}
use gonfs.Backend.Base.{Backend, make_fhandle, join, dot, dotdot, is_component, is_entry_name}
use gonfs.Backend.Lookup.{lookup_name}
use gonfs.Backend.Mount.{mount_dir_fhandle}
use gonfs.Backend.Rename.{rename_allows, silly_prefix}
use gonfs.Backend.Rules.{backend_rules}

-- The exported directory, and what is reached from it by names that are neither empty nor have a
-- slash. Such a name may be "..".
pub data Reached (root : Text) : Text → Type 0 where
  here : Reached root root
  below :
      (dir name : Text) → Reached root dir → is_component name ≡ true → Reached root (join dir name)

-- The handle was made for the path, or for the name that the file had before a Rename to a ".nfs"
-- name.
pub data Given (be : Backend) : ℕ → Text → Type 0 where
  made : (name : Text) (fid fsid : ℕ) → Given be (make_fhandle be name fid fsid) name
  silly :
      (from to_dir to_name : Text) (fid fsid : ℕ)
      → has_prefix to_name silly_prefix ≡ true
      → Given be (make_fhandle be from fid fsid) (join to_dir to_name)

-- What the handle map holds.
pub record Kept (be : Backend) (h : ℕ) (path : Text) : Type 0 where
  pub reached : Reached be.export_path path
  pub given : Given be h path

-- For rmdir the path is that of a reached directory with anything joined to it.
abbrev pub Permitted : Backend → Call → Type 0
Permitted be (lstat p) = Reached be.export_path p
Permitted be (open_read p) = Reached be.export_path p
Permitted be (readlink p) = Reached be.export_path p
Permitted be (statfs p) = Reached be.export_path p
Permitted be (close fd) = Unit
Permitted be (readdir fd) = Unit
Permitted be (read_at fd n o) = Unit
Permitted be geteuid = Unit
Permitted be getegid = Unit
Permitted be (open_file p fs m) = (be.writeaccess ≡ true) × Reached be.export_path p
Permitted be (write_at fd d o) = be.writeaccess ≡ true
Permitted be (sync fd) = be.writeaccess ≡ true
Permitted be (mkdir p m) = (be.writeaccess ≡ true) × Reached be.export_path p
Permitted be (rename p q) =
    (be.writeaccess ≡ true) × Reached be.export_path p × Reached be.export_path q
Permitted be (link p q) =
    (be.writeaccess ≡ true) × Reached be.export_path p × Reached be.export_path q
Permitted be (symlink d p) = (be.writeaccess ≡ true) × Reached be.export_path p
Permitted be (unlink p) = (be.writeaccess ≡ true) × Reached be.export_path p
Permitted be (rmdir p) =
    (be.writeaccess ≡ true)
    × (dir : Text) × (name : Text) × Reached be.export_path dir
    × (p ≡ join dir name)
Permitted be (truncate p n) = (be.writeaccess ≡ true) × Reached be.export_path p
Permitted be (chmod p m) = (be.writeaccess ≡ true) × Reached be.export_path p
Permitted be (chtimes p a m) = (be.writeaccess ≡ true) × Reached be.export_path p

pub entry_name→component : (name : Text) → is_entry_name name ≡ true → is_component name ≡ true
unfolding is_entry_name
entry_name→component name h = ground arith

pub refused→component : (name : Text) → not (is_component name) ≡ false → is_component name ≡ true
refused→component name h = ground arith

pub rename→from :
    (from_name to_name : Text)
    → rename_allows from_name to_name ≡ true
    → is_component from_name ≡ true
unfolding rename_allows
rename→from a b h = entry_name→component a (ground arith)

pub rename→to :
    (from_name to_name : Text)
    → rename_allows from_name to_name ≡ true
    → is_component to_name ≡ true
unfolding rename_allows
rename→to a b h = entry_name→component b (ground arith)

pub writable : (be : Backend) → not be.writeaccess ≡ false → be.writeaccess ≡ true
writable be h = ground arith

pub dot-component : is_component dot ≡ true
unfolding is_component contains_slash text_eq
dot-component = refl

pub dotdot-component : is_component dotdot ≡ true
unfolding is_component contains_slash text_eq
dotdot-component = refl

module _ (be : Backend) where
  pub lstat-Permitted : (p : Text) → Reached be.export_path p → Permitted be (lstat p)
  lstat-Permitted p r = r

  pub Kept-Permitted : (h : ℕ) (p : Text) → Kept be h p → Permitted be (lstat p)
  Kept-Permitted h p k = k.reached

  pub entered-Kept :
      (name : Text) (fid fsid : ℕ)
      → Reached be.export_path name
      → Kept be (make_fhandle be name fid fsid) name
  entered-Kept name fid fsid r = record { reached = r; given = made name fid fsid }

  pub mounted-Kept :
      (name : Text) → Reached be.export_path name → Kept be (mount_dir_fhandle be name) name
  unfolding mount_dir_fhandle
  mounted-Kept name r = entered-Kept name be.export_path_fid be.export_path_fsid r

  pub rmdir-Permitted :
      (dir name : Text)
      → be.writeaccess ≡ true
      → Reached be.export_path dir
      → Permitted be (rmdir (join dir name))
  rmdir-Permitted dir name w r = (w, dir, name, r, refl)

  pub lookup_name-Reached :
      (dir name : Text)
      → Reached be.export_path dir
      → is_component name ≡ true
      → Reached be.export_path (lookup_name be dir name)
  unfolding lookup_name
  lookup_name-Reached dir name r h =
      elim (Bool-cases (text_eq dir be.export_path && text_eq name dotdot)) [
        | inl e ↦ rw e (below dir dot r dot-component)
        | inr e ↦ rw e (below dir name r h)
      ]

  pub mount_point-Reached : (p : Text) → text_eq p be.export_path ≡ true → Reached be.export_path p
  mount_point-Reached p h =
      subst (Reached be.export_path) (sym ((text_eq_iff p be.export_path).0 h)) here

pub ruleset rules = (
  backend_rules, here, below, lstat-Permitted, Kept-Permitted, entered-Kept, mounted-Kept,
  rmdir-Permitted, lookup_name-Reached, mount_point-Reached, entry_name→component,
  refused→component, rename→from, rename→to, writable, dot-component, dotdot-component,
)
