-- ===== src/Replies/Named.antt =====
-- nfs3/allunix.go: the handle in a reply of Lookup.
use gonfs.Common.{ℕ, ◌<◌, ◌^◌, Text, some, ◌≡◌, Bool, true, false, sym, subst}
use gonfs.Os.{Os, Errno}
use gonfs.Types.Status.{is_ok}
use gonfs.Types.Reply.{LookupRes}
use gonfs.Prog.Run.{Handles, done, Server, run}
use gonfs.Prog.Ends.{Ends, Answers, Ended, Ends-run, ends_rules}
use gonfs.Backend.Base.{Backend, put_uint64, uint64, make_fhandle}
use gonfs.Backend.Lookup.{lookup, lookup_name}
use gonfs.Backend.Ends.{Ends-stat_path, Ends-post_attr, Ends-enter_handle}
use gonfs.Backend.Errors.{get_lookup_err}
use gonfs.Replies.Errors.{get_lookup_err-fails}
use gonfs.Replies.Handles.{uint64-put_uint64}

abbrev pub Anything : Answers
Anything c r = Unit

-- P, where the test holds.
abbrev pub When : Bool → Type 0 → Type 0
When true P = P
When false P = Unit

pub failed : (b : Bool) (P : Type 0) → b ≡ false → When b P
failed b P e = subst (λ c. When c P) (sym e) tt

pub taken : (b : Bool) (P : Type 0) → b ≡ true → When b P → P
taken b P e = subst (λ c. When c P) e

-- The bytes are a handle that the map holds for the name.
abbrev pub Named : Handles → Text → Text → Type 0
Named n name bytes = (k : ℕ) × (uint64 bytes ≡ some k) × (n k ≡ some name)

-- fnv64a is Sum64, a uint64.
module _ (be : Backend) (range : (t : Text) → be.fnv64a t < 2 ^ 64) where
  pub handle-Named :
      (n : Handles) (name : Text) (fid fsid : ℕ)
      → n (make_fhandle be name fid fsid) ≡ some name
      → Named n name (put_uint64 (make_fhandle be name fid fsid))
  unfolding make_fhandle
  handle-Named n name fid fsid e = (_, uint64-put_uint64 _ (range _), e)

  -- What Lookup of `name` in the directory of `h` promises.
  abbrev Looked : Handles → ℕ → Text → LookupRes → Handles → Type 0
  Looked m h name r n =
      When (is_ok r.status)
        ((dir : Text) × (m h ≡ some dir) × Named n (lookup_name be dir name) r.object.bytes)

  lookup_failed :
      (m : Handles) (h : ℕ) (name : Text) (e : Errno) (P : Type 0)
      → When (is_ok (get_lookup_err e)) P
  lookup_failed m h name e P = failed _ P (get_lookup_err-fails e)

  lookup-Looked :
      (m : Handles) (h : ℕ) (name : Text)
      → Ends Anything (Unit {0}) (Looked m h name) (lookup be h name) m
  unfolding lookup
  lookup-Looked m h name =
      search
        (ends_rules, Ends-stat_path, Ends-post_attr, Ends-enter_handle, handle-Named, lookup_failed)
        depth 24

  -- With 64-bit hash values: a Lookup that succeeds was of a known directory, and the handle in its
  -- reply is in the map for the name looked up there (for `.` where that is `..` at the export).
  pub lookup-finds :
      (os : Os) (s t : Server os) (h : ℕ) (name : Text) (r : LookupRes)
      → run os (lookup be h name) s ≡ (done r, t)
      → is_ok r.status ≡ true
      → (dir : Text) × (s.handles h ≡ some dir)
        × Named t.handles (lookup_name be dir name) r.object.bytes
  lookup-finds os s t h name r e o = taken _ _ o (
      subst (Ended (Unit {0}) (Looked s.handles h name)) e (
        Ends-run os Anything (Unit {0}) (Looked s.handles h name) (record { within = λ c w. tt }) _
          s (lookup-Looked s.handles h name)))
