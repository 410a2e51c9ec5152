-- ===== src/Prog/Settled.antt =====
-- One procedure run alone where the operating system answers each call the same every time, as it
-- does of files that nobody changes: such a run is a computation on the handle map.
use gonfs.Common.{ℕ, Text, some, ◌≡◌, refl, ◌∙◌, ap, subst}
use gonfs.Os.{Os, OsError, Call, Answer, Payload, to_result, ok}
use gonfs.Prog
use gonfs.Prog.{attempt, with_path, Prog, ret, exit, crash, get, set, delete, call, ◌>>=◌}
use gonfs.Prog.Run.{Handles, put, remove, Outcome, done, exited, crashed, Server, run}

-- One answer for each call.
abbrev pub Settled : Type 0
Settled = (c : Call) → Answer c

unfoldable pub settle : {A : Type 0} → Settled → Prog A → Handles → Outcome A × Handles
settle ans (ret a) m = (done a, m)
settle ans exit m = (exited, m)
settle ans crash m = (crashed, m)
settle ans (get h k) m = settle ans (k (m h)) m
settle ans (set h p k) m = settle ans k (put m h p)
settle ans (delete h k) m = settle ans k (remove m h)
settle ans (call c k) m = settle ans (k (ans c)) m

abbrev settled_then :
    {A B : Type 0} → Settled → (A → Prog B) → Outcome A × Handles → Outcome B × Handles
settled_then ans f (done a, m) = settle ans (f a) m
settled_then ans f (exited, m) = (exited, m)
settled_then ans f (crashed, m) = (crashed, m)

module _ (ans : Settled) {A B : Type 0} where
  settle_bind :
      (p : Prog B) (f : B → Prog A) (m : Handles)
      → settle ans (p >>= f) m ≡ settled_then ans f (settle ans p m)
  unfolding settle ◌>>=◌
  settle_bind (ret b) f m = refl
  settle_bind exit f m = refl
  settle_bind crash f m = refl
  settle_bind (get h k) f m = settle_bind (k (m h)) f m
  settle_bind (set h p k) f m = settle_bind k f _
  settle_bind (delete h k) f m = settle_bind k f _
  settle_bind (call c k) f m = settle_bind (k (ans c)) f m

module _ (ans : Settled) {A B : Type 0} {o : Outcome A × Handles} where
  -- A block whose first step ends with `b`.
  pub settle-bind :
      (p : Prog B) (f : B → Prog A) (m n : Handles) (b : B)
      → settle ans p m ≡ (done b, n)
      → settle ans (f b) n ≡ o
      → settle ans (p >>= f) m ≡ o
  settle-bind p f m n b e q = settle_bind ans p f m ∙ ap (settled_then ans f) e ∙ q

module _ (ans : Settled) {A : Type 0} {o : Outcome A × Handles} where
  -- A call that succeeds.
  pub settle-attempt :
      (c : Call) (failed : OsError → Prog A) (next : Payload c → Prog A) (m : Handles)
      (b : Payload c)
      → to_result c (ans c) ≡ ok b
      → settle ans (next b) m ≡ o
      → settle ans (attempt c failed next) m ≡ o
  unfolding settle attempt
  settle-attempt c failed next m b e q = ap (λ x. settle ans (Prog.on_result failed next x) m) e ∙ q

  -- A handle that the map holds.
  pub settle-with_path :
      (h : ℕ) (missing : Prog A) (found : Text → Prog A) (m : Handles) (p : Text)
      → m h ≡ some p
      → settle ans (found p) m ≡ o
      → settle ans (with_path h missing found) m ≡ o
  unfolding settle with_path
  settle-with_path h missing found m p e q =
      ap (λ x. settle ans (Prog.on_found missing found x) m) e ∙ q

-- The operating system gives the answers, whatever its world.
pub record Gives (os : Os) (ans : Settled) : Type 0 where
  pub given : (c : Call) (w : os.World) → (os.perform c w).0 ≡ ans c

module _ (os : Os) (ans : Settled) (g : Gives os ans) {A : Type 0} where
  pub run-settle :
      (p : Prog A) (s : Server os)
      → ((run os p s).0 ≡ (settle ans p s.handles).0)
        × ((run os p s).1.handles ≡ (settle ans p s.handles).1)
  unfolding run settle
  run-settle (ret a) s = (refl, refl)
  run-settle exit s = (refl, refl)
  run-settle crash s = (refl, refl)
  run-settle (get h k) s = run-settle (k (s.handles h)) s
  run-settle (set h p k) s = run-settle k _
  run-settle (delete h k) s = run-settle k _
  run-settle (call c k) s =
      subst (Same (run os (call c k) s)) (g.given c s.world)
        (run-settle (k (os.perform c s.world).0) _)
    where
      Same : Outcome A × Server os → Answer c → Type 0
      Same o r =
          (o.0 ≡ (settle ans (k r) s.handles).0) × (o.1.handles ≡ (settle ans (k r) s.handles).1)
