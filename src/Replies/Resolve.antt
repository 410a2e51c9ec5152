-- ===== src/Replies/Resolve.antt =====
-- nfs3/nfsprocdef.go and nfs3/allunix.go: a client that follows a path by Lookups.
use gonfs.Common.{
  ℕ, ◌<◌, ◌^◌, Text, Option, none, some, ◌≡◌, refl, sym, ap, ◌∙◌, subst, List, [], ◌∷◌, Bool-cases,
  inl, inr, if◌then◌else◌, arith,
}
use gonfs.Os.{Os}
use gonfs.Types.Status.{is_ok, nfs3_ok}
use gonfs.Types.Attr.{Fattr3}
use gonfs.Types.Reply.{LookupRes}
use gonfs.Prog.{ret}
use gonfs.Prog.Run.{Outcome, done, exited, crashed, Server, run, run-bind, continue}
use gonfs.Prog.Settled.{Settled, Gives, run-settle}
use gonfs.Backend.Base.{Backend, uint64}
use gonfs.Backend.Lookup.{lookup, lookup_name}
use gonfs.Replies.Named.{Named, lookup-finds}
use gonfs.Replies.Usable.{HasAttr, getattr-HasAttr}
use gonfs.Svc.{Request, Reply, serve, fhandle}

-- The path of the name that Lookups lead to.
abbrev pub path_of : Backend → Text → List Text → Text
path_of be dir [] = dir
path_of be dir (name ∷ names) = path_of be (lookup_name be dir name) names

module _ (be : Backend) (os : Os) where
  abbrev go_on :
      (Text → Server os → Option (Text × Server os))
      → Outcome Reply × Server os
      → Option (Text × Server os)
  go_on next (done (Reply.looked_up r), s) = if is_ok r.status then next r.object.bytes s else none
  go_on next _ = none

  -- The handle that successive Lookups end with, and the server then.
  unfoldable pub resolve : List Text → Text → Server os → Option (Text × Server os)
  resolve [] fh s = some (fh, s)
  resolve (name ∷ names) fh s = go_on (resolve names) (run os (serve be (Request.lookup fh name)) s)

  serve-lookup :
      (fh name : Text) (k : ℕ) (s : Server os)
      → uint64 fh ≡ some k
      → run os (serve be (Request.lookup fh name)) s
        ≡ continue os (λ r. ret (Reply.looked_up r)) (run os (lookup be k name) s)
  unfolding serve fhandle
  serve-lookup fh name k s handle =
      rw handle (run-bind os (lookup be k name) (λ r. ret (Reply.looked_up r)) s)

  abbrev Holds : Text → Option (Text × Server os) → Type 0
  Holds path none = Unit
  Holds path (some (bytes, s)) = Named s.handles path bytes

  module _ (range : (t : Text) → be.fnv64a t < 2 ^ 64) where
    -- A Lookup after which the client goes on.
    looked :
        (dir name : Text) (s : Server os) (k : ℕ)
        (next : Text → Server os → Option (Text × Server os)) (o : Outcome LookupRes × Server os)
        (x : Text × Server os)
        → s.handles k ≡ some dir
        → run os (lookup be k name) s ≡ o
        → go_on next (continue os (λ r. ret (Reply.looked_up r)) o) ≡ some x
        → (bytes : Text) × (t : Server os) × Named t.handles (lookup_name be dir name) bytes
          × (next bytes t ≡ some x)
    unfolding continue run
    looked dir name s k next (done r, t) x at e q = elim (Bool-cases (is_ok r.status)) [
      | inl good ↦
          let (d, there, named) = lookup-finds be range os s t k name r e good in
          let same : d ≡ dir = cc in
          (
            r.object.bytes,
            t,
            subst (λ p. Named t.handles (lookup_name be p name) r.object.bytes) same named,
            rw good at q,
          )
      | inr bad ↦ absurd (ground arith)
    ]
    looked dir name s k next (exited, t) x at e q = absurd (cc)
    looked dir name s k next (crashed, t) x at e q = absurd (cc)

    resolve-Named :
        (names : List Text) (dir fh bytes : Text) (s t : Server os)
        → Named s.handles dir fh
        → resolve names fh s ≡ some (bytes, t)
        → Named t.handles (path_of be dir names) bytes
    unfolding resolve
    resolve-Named [] dir fh bytes s t n q = subst (Holds dir) q n
    resolve-Named (name ∷ names) dir fh bytes s t (k, handle, at) q =
        let (b, u, named, more) =
          looked dir name s k (resolve names) _ (bytes, t) at refl
            (ap (go_on (resolve names)) (sym (serve-lookup fh name k s handle)) ∙ q) in
        resolve-Named names (lookup_name be dir name) b bytes u t named more

    -- Of files that nobody changes, with 64-bit hash values: a client that follows a path by Lookups
    -- from a handle that the map holds gets a handle that the map holds for the path, and Getattr
    -- answers it with the attributes that the path has.
    pub resolve-getattr :
        (ans : Settled) (names : List Text) (dir fh bytes : Text) (s t : Server os) (a : Fattr3)
        → Gives os ans
        → Named s.handles dir fh
        → resolve names fh s ≡ some (bytes, t)
        → HasAttr ans (path_of be dir names) a
        → Named t.handles (path_of be dir names) bytes
          × ((run os (serve be (Request.getattr bytes)) t).0
              ≡ done (Reply.attributes (record { status = nfs3_ok; obj_attributes = a })))
    resolve-getattr ans names dir fh bytes s t a g n q attr =
        let named = resolve-Named names dir fh bytes s t n q in
        (
          named,
          (run-settle os ans g _ t).0
              ∙ ap (λ x. x.0) (getattr-HasAttr ans _ _ attr be t.handles bytes named),
        )
