-- ===== src/Safety/Interleave.antt =====
-- main.go serves each connection in a goroutine of its own, and net/rpc each request in another:
-- the requests in progress take turns at the accesses to the handle map and the system calls.
use gonfs.Common.{
  ℕ, ◌≡◌, subst, Text, Option, List, ◌∷◌, All, ◌==◌, ==_iff, if◌then◌else◌, Bool-cases, inl, inr,
}
use gonfs.Os.{Os, Call, Answer}
use gonfs.Prog.{Prog, ret, get, set, delete, call}
use gonfs.Prog.Respects.{Respects, Any, Held, Steps}
use gonfs.Prog.Run.{Handles, put, remove}
use gonfs.Backend.Base.{Backend}
use gonfs.Svc.{Request, Reply, serve}
use gonfs.Safety.Permitted.{Kept, Permitted}
use gonfs.Safety.Serve.{serve-Permitted}

module _ (os : Os) (be : Backend) where
  open os use {World, perform}

  -- The map, the world, the rest of each request in progress, and every call made so far.
  pub record System : Type 0 where
    pub handles : Handles
    pub world : World
    pub threads : ℕ → Prog Reply
    pub calls : List Call

  abbrev pub resume : (ℕ → Prog Reply) → ℕ → Prog Reply → ℕ → Prog Reply
  resume ts i p j = if i == j then p else ts j

  -- A request arrives in a free slot, or one in progress takes its next step.
  pub data Step : System → System → Type 0 where
    arrive :
        {s : System} (i : ℕ) (a : Reply) (r : Request)
        → s.threads i ≡ ret a
        → Step s (record s { threads = resume s.threads i (serve be r) })
    look :
        {s : System} (i h : ℕ) (k : Option Text → Prog Reply)
        → s.threads i ≡ get h k
        → Step s (record s { threads = resume s.threads i (k (s.handles h)) })
    store :
        {s : System} (i h : ℕ) (p : Text) (k : Prog Reply)
        → s.threads i ≡ set h p k
        → Step s (record s { handles = put s.handles h p; threads = resume s.threads i k })
    forget :
        {s : System} (i h : ℕ) (k : Prog Reply)
        → s.threads i ≡ delete h k
        → Step s (record s { handles = remove s.handles h; threads = resume s.threads i k })
    enter :
        {s : System} (i : ℕ) (c : Call) (k : Answer c → Prog Reply)
        → s.threads i ≡ call c k
        → Step s (record s {
          world = (perform c s.world).1;
          threads = resume s.threads i (k (perform c s.world).0);
          calls = c ∷ s.calls;
        })

  pub data Reach (s : System) : System → Type 0 where
    start : Reach s s
    next : {t u : System} → Reach s t → Step t u → Reach s u

  abbrev V : ℕ → Text → Type 0
  V = Kept be

  pub record IsSafe (s : System) : Type 0 where
    pub held : (h : ℕ) → Held V h (s.handles h)
    pub called : All (Permitted be) s.calls
    pub rest : (i : ℕ) → Respects V (Permitted be) Any (s.threads i)

  resume-Respects :
      (ts : ℕ → Prog Reply) (i : ℕ) (p : Prog Reply)
      → ((j : ℕ) → Respects V (Permitted be) Any (ts j))
      → Respects V (Permitted be) Any p
      → (j : ℕ) → Respects V (Permitted be) Any (resume ts i p j)
  resume-Respects ts i p f g j = elim (Bool-cases (i == j)) [ inl e ↦ rw e g | inr e ↦ rw e (f j) ]

  put-Held :
      (m : Handles) (h : ℕ) (p : Text)
      → ((k : ℕ) → Held V k (m k))
      → V h p
      → (k : ℕ) → Held V k (put m h p k)
  put-Held m h p f v k = elim (Bool-cases (h == k)) [
    | inl e ↦ rw e (subst (λ j. V j p) ((==_iff h k).0 e) v)
    | inr e ↦ rw e (f k)
  ]

  remove-Held :
      (m : Handles) (h : ℕ) → ((k : ℕ) → Held V k (m k)) → (k : ℕ) → Held V k (remove m h k)
  remove-Held m h f k = elim (Bool-cases (h == k)) [ inl e ↦ rw e tt | inr e ↦ rw e (f k) ]

  -- The steps that a thread owes, once its next step is known.
  owed :
      (s : System) (i : ℕ) (p : Prog Reply)
      → IsSafe s
      → s.threads i ≡ p
      → Steps V (Permitted be) Any p
  owed s i p v e = (subst (Respects V (Permitted be) Any) e (v.rest i)).steps

  Step-IsSafe : {s t : System} → Step s t → IsSafe s → IsSafe t
  unfolding Steps
  Step-IsSafe {s} (arrive i a r e) v = record {
    held = v.held;
    called = v.called;
    rest = resume-Respects s.threads i _ v.rest (serve-Permitted be r);
  }
  Step-IsSafe {s} (look i h k e) v = record {
    held = v.held;
    called = v.called;
    rest =
        resume-Respects s.threads i _ v.rest
          (record { steps = owed s i (get h k) v e (s.handles h) (v.held h) });
  }
  Step-IsSafe {s} (store i h p k e) v = record {
    held = put-Held s.handles h p v.held (owed s i (set h p k) v e).0;
    called = v.called;
    rest = resume-Respects s.threads i k v.rest (record { steps = (owed s i (set h p k) v e).1 });
  }
  Step-IsSafe {s} (forget i h k e) v = record {
    held = remove-Held s.handles h v.held;
    called = v.called;
    rest = resume-Respects s.threads i k v.rest (record { steps = owed s i (delete h k) v e });
  }
  Step-IsSafe {s} (enter i c k e) v = record {
    held = v.held;
    called = ((owed s i (call c k) v e).0, v.called);
    rest = resume-Respects s.threads i _ v.rest (record { steps = (owed s i (call c k) v e).1 _ });
  }

  -- From a safe system every interleaving of requests, however they arrive, keeps to safe systems:
  -- every path in the handle map is reached from the export, its handle was made for it (or for the
  -- name that the file had before a Rename to a ".nfs" name), and every call made was permitted.
  pub Reach-IsSafe : {s t : System} → IsSafe s → Reach s t → IsSafe t
  Reach-IsSafe v start = v
  Reach-IsSafe v (next r st) = Step-IsSafe st (Reach-IsSafe v r)
