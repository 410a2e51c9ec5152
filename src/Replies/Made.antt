-- ===== src/Replies/Made.antt =====
-- nfs3/allunix.go: the handle in a reply of Mkdir, Create or SymLink.
use gonfs.Common.{ℕ, ◌<◌, ◌^◌, Text, some, ◌≡◌, true, ◌⊎◌, inl, inr, subst, ◌==◌, Bool-cases, arith}
use gonfs.Os.{Os, Errno, close}
use gonfs.Types.Status.{Nfsstat3, is_ok}
use gonfs.Types.Attr.{Fattr3, PreOpAttr, PostOpAttr}
use gonfs.Types.Args.{Sattr3, Createhow3}
use gonfs.Types.Reply.{NewObjectRes}
use gonfs.Prog.{Prog, ret, perform, ◌>>◌}
use gonfs.Prog.Run.{Handles, remove, done, Server, run}
use gonfs.Prog.Ends.{
  Ends, Ended, Ends-run, Post, Ends-ret, Ends-bind, Ends-perform, Ends-weaken, ends_rules,
}
use gonfs.Backend.Base.{Backend, put_uint64, uint64, join, make_fhandle}
use gonfs.Backend.NewObject.{mkdir, create, symlink, created, made, fail_in, new_fail}
use gonfs.Backend.Ends.{Ends-stat_path, Ends-post_attr, Ends-enter_handle}
use gonfs.Backend.Errors.{get_mkdir_err, get_create_err, get_symlink_err}
use gonfs.Replies.Errors.{get_mkdir_err-fails, get_create_err-fails, get_symlink_err-fails}
use gonfs.Replies.Handles.{uint64-put_uint64}
use gonfs.Replies.Named.{Anything, When, failed, taken}

-- The bytes are a handle for the name, which the map holds unless it is the directory's own handle.
abbrev pub Kept : Handles → ℕ → Text → Text → Type 0
Kept n h name bytes = (k : ℕ) × (uint64 bytes ≡ some k) × ((h ≡ k) ⊎ (n k ≡ some name))

mkdir_failed : (e : Errno) (P : Type 0) → When (is_ok (get_mkdir_err e)) P
mkdir_failed e P = failed _ P (get_mkdir_err-fails e)

create_failed : (e : Errno) (P : Type 0) → When (is_ok (get_create_err e)) P
create_failed e P = failed _ P (get_create_err-fails e)

symlink_failed : (e : Errno) (P : Type 0) → When (is_ok (get_symlink_err e)) P
symlink_failed e P = failed _ P (get_symlink_err-fails e)

Ends-fail_in :
    {Q : Post NewObjectRes} {m : Handles} (h : ℕ) (dir : Text) (s : Nfsstat3) (obj : Fattr3)
    (pre : PreOpAttr)
    → ((after : PostOpAttr) (n : Handles) → Q (new_fail s obj pre after) n)
    → Ends Anything (Unit {0}) Q (fail_in h dir s obj pre) m
unfolding fail_in
Ends-fail_in h dir s obj pre q = search (ends_rules, Ends-post_attr) depth 12

module _ (be : Backend) (range : (t : Text) → be.fnv64a t < 2 ^ 64) where
  handle-Kept :
      (n : Handles) (h : ℕ) (name : Text) (fid fsid : ℕ)
      → n (make_fhandle be name fid fsid) ≡ some name
      → Kept n h name (put_uint64 (make_fhandle be name fid fsid))
  unfolding make_fhandle
  handle-Kept n h name fid fsid e = (_, uint64-put_uint64 _ (range _), inr e)

  remove-kept :
      (n : Handles) (h k : ℕ) (name : Text) → n k ≡ some name → (h ≡ k) ⊎ (remove n h k ≡ some name)
  remove-kept n h k name e = elim (Bool-cases (h == k)) [
    | inl t ↦ inl (ground arith)
    | inr f ↦ inr (rw f e)
  ]

  remove-Kept :
      (n : Handles) (h : ℕ) (name : Text) (fid fsid : ℕ)
      → n (make_fhandle be name fid fsid) ≡ some name
      → Kept (remove n h) h name (put_uint64 (make_fhandle be name fid fsid))
  unfolding make_fhandle
  remove-Kept n h name fid fsid e = (_, uint64-put_uint64 _ (range _), remove-kept n h _ name e)

  -- What making `name` in the directory of `h` promises.
  abbrev pub Made : Handles → ℕ → Text → NewObjectRes → Handles → Type 0
  Made m h name r n = When (is_ok r.status) (
      (dir : Text) × (m h ≡ some dir)
      × (r.obj.handle_follows ≡ true)
      × Kept n h (join dir name) r.obj.handle.bytes)

  Ends-made :
      (m : Handles) (h : ℕ) (dir name : Text) (pre : PreOpAttr) (a : Fattr3)
      → m h ≡ some dir
      → {n : Handles}
      → Ends Anything (Unit {0}) (Made m h name) (made be h dir (join dir name) pre a) n
  unfolding made
  Ends-made m h dir name pre a e =
      search (ends_rules, Ends-post_attr, Ends-enter_handle, handle-Kept, remove-Kept) depth 16

ruleset made_rules = (
  ends_rules, Ends-stat_path, Ends-post_attr, Ends-enter_handle, Ends-fail_in, Ends-made,
  mkdir_failed, create_failed, symlink_failed,
)

module _ (be : Backend) (range : (t : Text) → be.fnv64a t < 2 ^ 64) (m : Handles) (h : ℕ) where
  pub mkdir-Made :
      (name : Text) (attribute : Sattr3)
      → Ends Anything (Unit {0}) (Made be range m h name) (mkdir be h name attribute) m
  unfolding mkdir
  mkdir-Made name attribute = search made_rules depth 30

  closing :
      (name : Text) (fd : ℕ) (r : NewObjectRes) (n : Handles)
      → Made be range m h name r n
      → Ends Anything (Unit {0}) (Made be range m h name) (do perform (close fd); ret r) n
  closing name fd r n q = Ends-bind _ _ (Ends-perform (close fd) (λ x. Ends-ret r q))

  created-Made :
      (dir name : Text) (pre : PreOpAttr) (fd : ℕ)
      → m h ≡ some dir
      → Ends Anything
          (Unit {0})
          (Made be range m h name)
          (created be h dir (join dir name) pre fd)
          m
  unfolding created
  created-Made dir name pre fd e =
      Ends-bind _ _
        (Ends-weaken (Made be range m h name) (closing name fd) (search made_rules depth 16))

  pub create-Made :
      (name : Text) (how : Createhow3)
      → Ends Anything (Unit {0}) (Made be range m h name) (create be h name how) m
  unfolding create
  create-Made name how = search (made_rules, created-Made) depth 30

  pub symlink-Made :
      (name target : Text)
      → Ends Anything (Unit {0}) (Made be range m h name) (symlink be h name target) m
  unfolding symlink
  symlink-Made name target = search made_rules depth 30

module _ (os : Os) (be : Backend) (range : (t : Text) → be.fnv64a t < 2 ^ 64) (s t : Server os)
    (h : ℕ) where
  granted :
      (name : Text) (p : Prog NewObjectRes) (r : NewObjectRes)
      → run os p s ≡ (done r, t)
      → Ends Anything (Unit {0}) (Made be range s.handles h name) p s.handles
      → Made be range s.handles h name r t.handles
  granted name p r e q = subst (Ended (Unit {0}) (Made be range s.handles h name)) e (
      Ends-run os Anything (Unit {0}) (Made be range s.handles h name)
        (record { within = λ c w. tt }) p s q)

  -- With 64-bit hash values: a Mkdir that succeeds was in a known directory and sends a handle,
  -- which the map then holds for the new name, unless the handle is the directory's own.
  pub mkdir-keeps :
      (name : Text) (attribute : Sattr3) (r : NewObjectRes)
      → run os (mkdir be h name attribute) s ≡ (done r, t)
      → is_ok r.status ≡ true
      → (dir : Text) × (s.handles h ≡ some dir)
        × (r.obj.handle_follows ≡ true)
        × Kept t.handles h (join dir name) r.obj.handle.bytes
  mkdir-keeps name attribute r e o =
      taken _ _ o (granted name _ r e (mkdir-Made be range s.handles h name attribute))

  -- With 64-bit hash values: a Create that succeeds was in a known directory and sends a handle,
  -- which the map then holds for the new name, unless the handle is the directory's own.
  pub create-keeps :
      (name : Text) (how : Createhow3) (r : NewObjectRes)
      → run os (create be h name how) s ≡ (done r, t)
      → is_ok r.status ≡ true
      → (dir : Text) × (s.handles h ≡ some dir)
        × (r.obj.handle_follows ≡ true)
        × Kept t.handles h (join dir name) r.obj.handle.bytes
  create-keeps name how r e o =
      taken _ _ o (granted name _ r e (create-Made be range s.handles h name how))

  -- With 64-bit hash values: a SymLink that succeeds was in a known directory and sends a handle,
  -- which the map then holds for the new name, unless the handle is the directory's own.
  pub symlink-keeps :
      (name target : Text) (r : NewObjectRes)
      → run os (symlink be h name target) s ≡ (done r, t)
      → is_ok r.status ≡ true
      → (dir : Text) × (s.handles h ≡ some dir)
        × (r.obj.handle_follows ≡ true)
        × Kept t.handles h (join dir name) r.obj.handle.bytes
  symlink-keeps name target r e o =
      taken _ _ o (granted name _ r e (symlink-Made be range s.handles h name target))
