-- ===== src/Replies/Usable.antt =====
-- nfs3/allunix.go: Lookup, and Getattr of the handle that it gave, of files that nobody changes.
use gonfs.Common.{ℕ, ◌<◌, ◌^◌, Text, Option, none, some, ◌≡◌, refl, sym, ap, ◌∙◌, subst, true}
use gonfs.Os.{Os, Errno, OsError, FileInfo, Result, ok, err, lstat}
use gonfs.Types.Status.{is_ok, nfs3_ok}
use gonfs.Types.Attr.{Fattr3, zero_fattr}
use gonfs.Types.Reply.{LookupRes}
use gonfs.Prog
use gonfs.Prog.{Prog, ret, ◌>>=◌, attempt, errno_of}
use gonfs.Prog.Run.{Handles, done, Server, run}
use gonfs.Prog.Ends.{
  Ends, After, Ends-errno_of, Answers, Ended, Ends-run, Ends-bind, Ends-ret, Post, ends_rules,
}
use gonfs.Prog.Settled.{
  Settled, settle, settle-bind, settle-attempt, settle-with_path, Gives, run-settle,
}
use gonfs.Backend.Base
use gonfs.Backend.Base.{
  Backend, put_uint64, uint64, make_fhandle, get_file_attr_from_path, stat_path, fill_attr,
  is_component,
}
use gonfs.Backend.Lookup.{lookup, lookup_name}
use gonfs.Backend.Query.{get_file_attr}
use gonfs.Backend.Ends.{Ends-post_attr, Ends-enter_handle}
use gonfs.Replies.Named.{When, Named, taken, failed, handle-Named}
use gonfs.Replies.Errors.{get_lookup_err-fails}
use gonfs.Backend.Errors.{get_lookup_err}
use gonfs.Svc.{Request, Reply, serve, fhandle}

-- The attributes that the backend finds for a path.
pub record HasAttr (ans : Settled) (path : Text) (a : Fattr3) : Type 0 where
  pub info : FileInfo
  pub stated : ans (lstat path) ≡ ok info
  pub filled : fill_attr info zero_fattr ≡ (none, a)

abbrev pub Same : Settled → Answers
Same ans c r = r ≡ ans c

module _ (ans : Settled) (path : Text) (a : Fattr3) (h : HasAttr ans path a) where
  settle-get_file_attr_from_path :
      (m : Handles) → settle ans (get_file_attr_from_path path zero_fattr) m ≡ (done (none, a), m)
  unfolding settle get_file_attr_from_path
  settle-get_file_attr_from_path m =
      settle-attempt ans (lstat path) _ _ m h.info h.stated (ap (λ r. (done r, m)) h.filled)

  -- Getattr of a handle that the map holds.
  pub getattr-HasAttr :
      (be : Backend) (m : Handles) (bytes : Text)
      → Named m path bytes
      → settle ans (serve be (Request.getattr bytes)) m
        ≡ (done (Reply.attributes (record { status = nfs3_ok; obj_attributes = a })), m)
  unfolding serve fhandle settle get_file_attr stat_path
  getattr-HasAttr be m bytes (k, handle, at) = rw handle (
      settle-bind ans _ _ m m (record { status = nfs3_ok; obj_attributes = a })
        (settle-with_path ans k _ _ m path at
          (settle-bind ans _ _ m m (none, a) (settle-get_file_attr_from_path m) refl))
        refl)

module _ (ans : Settled) {A : Type 0} {Q : Post A} {m : Handles} where
  -- `Ends-stat_path`, where what is found is what the settled answer gives.
  Ends-settled_stat :
      (path : Text) (failed : Errno → Fattr3 → Prog A) (next : Fattr3 → Prog A)
      → ((e : Errno) (a : Fattr3) → Ends (Same ans) (Unit {0}) Q (failed e a) m)
      → ((a : Fattr3) → HasAttr ans path a → Ends (Same ans) (Unit {0}) Q (next a) m)
      → Ends (Same ans) (Unit {0}) Q (stat_path path zero_fattr failed next) m
  unfolding stat_path get_file_attr_from_path attempt After
  Ends-settled_stat path failed next hf hn = Ends-bind _ _ (record { after = answered })
    where
      Then : Option Errno × Fattr3 → Handles → Type 0
      Then r n = Ends (Same ans) (Unit {0}) Q (Base.on_stat failed next r) n

      filled :
          (fi : FileInfo) (r : Option Errno × Fattr3)
          → ans (lstat path) ≡ ok fi
          → fill_attr fi zero_fattr ≡ r
          → Then r m
      filled fi (none, a) e q = hn a (record { info = fi; stated = e; filled = q })
      filled fi (some x, a) e q = hf x a

      failing :
          (e : OsError)
          → Ends (Same ans) (Unit {0}) Then (do n ← errno_of e; ret (some n, zero_fattr)) m
      failing e = Ends-bind _ _ (Ends-errno_of e tt (λ n. Ends-ret _ (hf n zero_fattr)))

      answered :
          (r : Result FileInfo)
          → r ≡ ans (lstat path)
          → After
              (Same ans)
              (Unit {0})
              Then
              (Prog.on_result
                (λ e. do n ← errno_of e; ret (some n, zero_fattr))
                (λ fi. ret (fill_attr fi zero_fattr))
                r)
              m
      answered (ok fi) e = filled fi (fill_attr fi zero_fattr) (sym e) refl
      answered (err x) e = (failing x).after

module _ (ans : Settled) (be : Backend) (range : (t : Text) → be.fnv64a t < 2 ^ 64) where
  -- What Lookup promises of files that nobody changes.
  abbrev Usable : Handles → ℕ → Text → LookupRes → Handles → Type 0
  Usable m h name r n = When (is_ok r.status) (
      (dir : Text) × (m h ≡ some dir)
      × Named n (lookup_name be dir name) r.object.bytes
      × HasAttr ans (lookup_name be dir name) r.obj_attributes.attributes)

  be_Named :
      (n : Handles) (path : Text) (fid fsid : ℕ)
      → n (make_fhandle be path fid fsid) ≡ some path
      → Named n path (put_uint64 (make_fhandle be path fid fsid))
  be_Named = handle-Named be range

  lookup_refused : (e : Errno) (P : Type 0) → When (is_ok (get_lookup_err e)) P
  lookup_refused e P = failed _ P (get_lookup_err-fails e)

  lookup-Usable :
      (m : Handles) (h : ℕ) (name : Text)
      → Ends (Same ans) (Unit {0}) (Usable m h name) (lookup be h name) m
  unfolding lookup
  lookup-Usable m h name =
      search
        (ends_rules, Ends-settled_stat, Ends-post_attr, Ends-enter_handle, be_Named, lookup_refused)
        depth 24

  -- Of files that nobody changes, with 64-bit hash values: the handle in the reply of a Lookup that
  -- succeeds is answered by Getattr with the attributes that the Lookup gave, which are those of
  -- the name in the directory.
  pub lookup-getattr :
      (os : Os) (s t : Server os) (h : ℕ) (name : Text) (r : LookupRes)
      → Gives os ans
      → run os (lookup be h name) s ≡ (done r, t)
      → is_ok r.status ≡ true
      → (dir : Text) × (s.handles h ≡ some dir)
        × HasAttr ans (lookup_name be dir name) r.obj_attributes.attributes
        × ((run os (serve be (Request.getattr r.object.bytes)) t).0
            ≡ done (
                Reply.attributes
                  (record { status = nfs3_ok; obj_attributes = r.obj_attributes.attributes })))
  lookup-getattr os s t h name r g e o =
      let (dir, at, named, attr) = taken _ _ o (
        subst (Ended (Unit {0}) (Usable s.handles h name)) e (
          Ends-run os (Same ans) (Unit {0}) (Usable s.handles h name) (record { within = g.given })
            _ s (lookup-Usable s.handles h name))) in
      (
        dir,
        at,
        attr,
        (run-settle os ans g _ t).0
            ∙ ap (λ x. x.0) (getattr-HasAttr ans _ _ attr be t.handles r.object.bytes named),
      )
