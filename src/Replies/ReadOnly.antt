-- ===== src/Replies/ReadOnly.antt =====
-- nfs3/allunix.go: the requests that change files, on a read-only export.
use gonfs.Common.{
  ℕ, Text, ◌≡◌, refl, Bool, true, false, not, ◌⊎◌, inl, inr, subst, arith, if◌then◌else◌, Option,
  none, some, List, [], ◌∷◌,
}
use gonfs.Os.{Os}
use gonfs.Types.Status.{Nfsstat3, nfs3err_stale, nfs3err_rofs}
use gonfs.Prog.{Prog, ret, ◌>>=◌}
use gonfs.Prog.Run.{Handles, done, Server, run}
use gonfs.Prog.Ends.{
  Ends, Answers, Ends-bind, Ends-ret, Ended, Ends-run, Ends-weaken, Post, ends_rules,
}
use gonfs.Backend.Base.{Backend, uint64}
use gonfs.Backend.Ends.{Ends-post_attr}
use gonfs.Backend.NewObject
use gonfs.Backend.Remove
use gonfs.Backend.Setattr
use gonfs.Backend.Io
use gonfs.Backend.Rename
use gonfs.Backend.Link
use gonfs.Replies.Gone.{
  IsGone, missing, lost, HasGone, here, there, handles_of, Answered, Ends-stat_lost,
}
use gonfs.Svc.{Request, Reply, serve, fhandle}

-- The requests that may change files.
abbrev pub changes : Request → Bool
changes (Request.setattr fh new guard) = true
changes (Request.write fh offset count how bytes) = true
changes (Request.create fh name how) = true
changes (Request.mkdir fh name attr) = true
changes (Request.symlink fh name path) = true
changes (Request.remove fh name) = true
changes (Request.rmdir fh name) = true
changes (Request.rename from from_name to to_name) = true
changes (Request.link old dir name) = true
changes (Request.commit fh) = true
changes _ = false

-- The status that a reply of such a request carries.
abbrev pub change_status : Reply → Nfsstat3
change_status (Reply.made r) = r.status
change_status (Reply.removed r) = r.status
change_status (Reply.changed r) = r.status
change_status (Reply.written r) = r.status
change_status (Reply.committed r) = r.status
change_status (Reply.renamed r) = r.status
change_status (Reply.linked r) = r.status
change_status _ = Nfsstat3.nfs3_ok

-- NFS3ERR_ROFS; or NFS3ERR_STALE, where G holds.
abbrev pub Refused : Type 0 → Nfsstat3 → Type 0
Refused G s = (s ≡ nfs3err_rofs) ⊎ ((s ≡ nfs3err_stale) × G)

rofs-Refused : {G : Type 0} → Refused G nfs3err_rofs
rofs-Refused = inl refl

stale-Refused : {G : Type 0} → G → Refused G nfs3err_stale
stale-Refused g = inr (refl, g)

unwritable : (b : Bool) {P : Type 0} → b ≡ false → not b ≡ false → P
unwritable b e f = absurd (ground arith)

module _ {A : Type 0} {Q : Post A} {m : Handles} {E : Answers} (be : Backend)
    (ro : be.writeaccess ≡ false) where
  -- The guard of a read-only export takes its first branch.
  Ends-guarded :
      (p q : Prog A)
      → Ends E (Unit {0}) Q p m
      → Ends E (Unit {0}) Q (if not be.writeaccess then p else q) m
  Ends-guarded p q h = rw ro h

ruleset refused_rules =
    (ends_rules, Ends-stat_lost, Ends-post_attr, rofs-Refused, stale-Refused, missing, lost)

module _ (os : Os) (be : Backend) (ro : be.writeaccess ≡ false) (m : Handles) (G : Type 0) where
  abbrev Refuses : {A : Type 0} → (A → Reply) → Prog A → Type 0
  Refuses f p = Ends (Answered os) (Unit {0}) (λ r n. Refused G (change_status (f r))) p m

  mkdir-Refused :
      (h : ℕ) (name : Text) (attr : _)
      → (IsGone os m h → G)
      → Refuses Reply.made (NewObject.mkdir be h name attr)
  unfolding NewObject.mkdir
  mkdir-Refused h name attr gone = search (refused_rules, Ends-guarded) depth 24

  create-Refused :
      (h : ℕ) (name : Text) (how : _)
      → (IsGone os m h → G)
      → Refuses Reply.made (NewObject.create be h name how)
  unfolding NewObject.create
  create-Refused h name how gone = search (refused_rules, Ends-guarded) depth 24

  symlink-Refused :
      (h : ℕ) (name target : Text)
      → (IsGone os m h → G)
      → Refuses Reply.made (NewObject.symlink be h name target)
  unfolding NewObject.symlink
  symlink-Refused h name target gone = search (refused_rules, Ends-guarded) depth 24

  remove-Refused :
      (h : ℕ) (name : Text) → (IsGone os m h → G) → Refuses Reply.removed (Remove.remove be h name)
  unfolding Remove.remove
  remove-Refused h name gone = search (refused_rules, Ends-guarded) depth 24

  rmdir-Refused :
      (h : ℕ) (name : Text) → (IsGone os m h → G) → Refuses Reply.removed (Remove.rmdir be h name)
  unfolding Remove.rmdir
  rmdir-Refused h name gone = search (refused_rules, Ends-guarded) depth 24

  setattr-Refused :
      (h : ℕ) (new : _) (guard : _)
      → (IsGone os m h → G)
      → Refuses Reply.changed (Setattr.setattr be h new guard)
  unfolding Setattr.setattr
  setattr-Refused h new guard gone = search (refused_rules, Ends-guarded) depth 24

  write-Refused :
      (h offset count : ℕ) (how : _) (bytes : Text)
      → (IsGone os m h → G)
      → Refuses Reply.written (Io.write be h offset count how bytes)
  unfolding Io.write
  write-Refused h offset count how bytes gone = search (refused_rules, Ends-guarded) depth 24

  commit-Refused : (h : ℕ) → (IsGone os m h → G) → Refuses Reply.committed (Io.commit be h)
  unfolding Io.commit
  commit-Refused h gone = search (refused_rules, Ends-guarded) depth 24

  rename-Refused :
      (from_h : ℕ) (from_name : Text) (to_h : ℕ) (to_name : Text)
      → (IsGone os m from_h → G)
      → (IsGone os m to_h → G)
      → Refuses Reply.renamed (Rename.rename be from_h from_name to_h to_name)
  unfolding Rename.rename Rename.rename_within Rename.from_dir_only Rename.to_dir_only
  rename-Refused from_h from_name to_h to_name gone gone_too =
      search (refused_rules, Ends-guarded) depth 24

  link-Refused :
      (old_h dir_h : ℕ) (name : Text)
      → (IsGone os m old_h → G)
      → (IsGone os m dir_h → G)
      → Refuses Reply.linked (Link.link be old_h dir_h name)
  unfolding Link.link Link.link_within Link.link_dir_only Link.old_only
  link-Refused old_h dir_h name gone gone_too = search (refused_rules, Ends-guarded) depth 24

module _ {E : Answers} {Q : Post Reply} {m : Handles} where
  pub Ends-reply :
      {B : Type 0} (p : Prog B) (f : B → Reply)
      → Ends E (Unit {0}) (λ r n. Q (f r) n) p m
      → Ends E (Unit {0}) Q (do r ← p; ret (f r)) m
  Ends-reply p f h = Ends-bind _ _ (Ends-weaken (λ r n. Q (f r) n) (λ r n q. Ends-ret (f r) q) h)

  pub Ends-refuted : (p : Prog Reply) → false ≡ true → Ends E (Unit {0}) Q p m
  Ends-refuted p e = absurd (ground arith)

  pub Ends-fhandle :
      (o : Option ℕ) (k : ℕ → Prog Reply)
      → ((h : ℕ) → Ends E (Unit {0}) Q (k h) m)
      → Ends E (Unit {0}) Q (fhandle o k) m
  unfolding fhandle
  Ends-fhandle none k f = search ends_rules
  Ends-fhandle (some h) k f = f h

  Ends-fhandle_known :
      (o : Option ℕ) (k : ℕ → Prog Reply)
      → ((h : ℕ) → o ≡ some h → Ends E (Unit {0}) Q (k h) m)
      → Ends E (Unit {0}) Q (fhandle o k) m
  unfolding fhandle
  Ends-fhandle_known none k f = search ends_rules
  Ends-fhandle_known (some h) k f = f h refl

module _ (os : Os) (m : Handles) where
  gone_first :
      (fh : Text) (fhs : List Text) (h : ℕ)
      → uint64 fh ≡ some h
      → IsGone os m h
      → HasGone os m (fh ∷ fhs)
  gone_first fh fhs h e g = here fh fhs h e g

  gone_second :
      (fh to : Text) (fhs : List Text) (h : ℕ)
      → uint64 to ≡ some h
      → IsGone os m h
      → HasGone os m (fh ∷ to ∷ fhs)
  gone_second fh to fhs h e g = there fh (to ∷ fhs) (here to fhs h e g)

  abbrev AnswerOf : List Text → Prog Reply → Type 0
  AnswerOf fhs p =
      Ends (Answered os) (Unit {0}) (λ a n. Refused (HasGone os m fhs) (change_status a)) p m

  -- A procedure with one handle.
  serve_one :
      {B : Type 0} (fh : Text) (k : ℕ → Prog B) (f : B → Reply)
      → ((h : ℕ)
          → (IsGone os m h → HasGone os m (fh ∷ []))
          → Ends
              (Answered os)
              (Unit {0})
              (λ r n. Refused (HasGone os m (fh ∷ [])) (change_status (f r)))
              (k h)
              m)
      → AnswerOf (fh ∷ []) (fhandle (uint64 fh) λ h. do r ← k h; ret (f r))
  serve_one fh k f g =
      Ends-fhandle_known (uint64 fh) _ (λ h e. Ends-reply (k h) f (g h (gone_first fh [] h e)))

module _ (os : Os) (be : Backend) (ro : be.writeaccess ≡ false) (m : Handles) where
  serve-Refused : (r : Request) → changes r ≡ true → AnswerOf os m (handles_of r) (serve be r)
  unfolding serve
  serve-Refused (Request.setattr fh new guard) e =
      serve_one os m fh _ Reply.changed (λ h. setattr-Refused os be ro m _ h new guard)
  serve-Refused (Request.write fh offset count how bytes) e =
      serve_one os m fh _ Reply.written (λ h. write-Refused os be ro m _ h offset count how bytes)
  serve-Refused (Request.create fh name how) e =
      serve_one os m fh _ Reply.made (λ h. create-Refused os be ro m _ h name how)
  serve-Refused (Request.mkdir fh name attr) e =
      serve_one os m fh _ Reply.made (λ h. mkdir-Refused os be ro m _ h name attr)
  serve-Refused (Request.symlink fh name path) e =
      serve_one os m fh _ Reply.made (λ h. symlink-Refused os be ro m _ h name path)
  serve-Refused (Request.remove fh name) e =
      serve_one os m fh _ Reply.removed (λ h. remove-Refused os be ro m _ h name)
  serve-Refused (Request.rmdir fh name) e =
      serve_one os m fh _ Reply.removed (λ h. rmdir-Refused os be ro m _ h name)
  serve-Refused (Request.commit fh) e =
      serve_one os m fh _ Reply.committed (commit-Refused os be ro m _)
  serve-Refused (Request.rename from from_name to to_name) e =
      Ends-fhandle_known (uint64 from) _ (λ h q. Ends-fhandle_known (uint64 to) _ (λ k p.
        Ends-reply _ Reply.renamed (
          rename-Refused os be ro m _ h from_name k to_name (gone_first os m from (to ∷ []) h q)
            (gone_second os m from to [] k p))))
  serve-Refused (Request.link old dir name) e = Ends-fhandle_known (uint64 old) _ (λ h q.
      Ends-fhandle_known (uint64 dir) _ (λ k p. Ends-reply _ Reply.linked (
        link-Refused os be ro m _ h k name (gone_first os m old (dir ∷ []) h q)
          (gone_second os m old dir [] k p))))
  serve-Refused _ e = Ends-refuted _ e

-- On a read-only export a request that may change files is answered with NFS3ERR_ROFS; or with
-- NFS3ERR_STALE, but only where a handle of the request is not in the map, or is there for a path
-- that Lstat of the operating system may refuse or give no Stat_t for.
pub serve-read_only :
    (os : Os) (be : Backend) (s t : Server os) (r : Request) (a : Reply)
    → be.writeaccess ≡ false
    → changes r ≡ true
    → run os (serve be r) s ≡ (done a, t)
    → Refused (HasGone os s.handles (handles_of r)) (change_status a)
serve-read_only os be s t r a ro c e =
    subst
      (Ended (Unit {0}) (λ x n. Refused (HasGone os s.handles (handles_of r)) (change_status x))) e
      (Ends-run os (Answered os) (Unit {0}) _ (record { within = λ c w. (w, refl) }) (serve be r) s
        (serve-Refused os be ro s.handles r c))
