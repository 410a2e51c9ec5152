-- ===== src/Prog/Run.antt =====
-- One procedure run alone, from a handle map and a world.
use gonfs.Common.{ℕ, Text, Option, none, some, ◌≡◌, refl, ◌==◌, if◌then◌else◌}
use gonfs.Os.{Os}
use gonfs.Prog.{Prog, ret, exit, crash, get, set, delete, call, ◌>>=◌}

-- fhandleMap: be.fhandleMap[h] is none where the key is missing.
abbrev pub Handles : Type 0
Handles = ℕ → Option Text

abbrev pub put : Handles → ℕ → Text → Handles
put m h p k = if h == k then some p else m k

abbrev pub remove : Handles → ℕ → Handles
remove m h k = if h == k then none else m k

pub data Outcome (A : Type 0) : Type 0 where
  done : A → Outcome A
  exited : Outcome A
  crashed : Outcome A

module _ (os : Os) where
  open os use {World}

  pub record Server : Type 0 where
    pub handles : Handles
    pub world : World

  unfoldable pub run : {A : Type 0} → Prog A → Server → Outcome A × Server
  run (ret a) s = (done a, s)
  run exit s = (exited, s)
  run crash s = (crashed, s)
  run (get h k) s = run (k (s.handles h)) s
  run (set h p k) s = run k (record s { handles = put s.handles h p })
  run (delete h k) s = run k (record s { handles = remove s.handles h })
  run (call c k) s = let (r, w) = os.perform c s.world in run (k r) (record s { world = w })

module _ (os : Os) {A B : Type 0} where
  -- What follows a program that ran: nothing, if the process has stopped.
  unfoldable pub continue : (A → Prog B) → Outcome A × Server os → Outcome B × Server os
  continue f (done a, s) = run os (f a) s
  continue f (exited, s) = (exited, s)
  continue f (crashed, s) = (crashed, s)

  pub run-bind :
      (m : Prog A) (f : A → Prog B) (s : Server os) → run os (m >>= f) s ≡ continue f (run os m s)
  unfolding run continue ◌>>=◌
  run-bind (ret a) f s = refl
  run-bind exit f s = refl
  run-bind crash f s = refl
  run-bind (get h k) f s = run-bind (k (s.handles h)) f s
  run-bind (set h p k) f s = run-bind k f _
  run-bind (delete h k) f s = run-bind k f _
  run-bind (call c k) f s = run-bind (k (os.perform c s.world).0) f _
