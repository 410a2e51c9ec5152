-- ===== src/Prog/Makes.antt =====
-- The calls that a procedure run alone makes, where the handle map is known.
use gonfs.Common.{
  ℕ, Text, Option, none, some, ◌≡◌, refl, Bool, true, false, if◌then◌else◌, List, [], ◌∷◌, All,
}
use gonfs.Os.{Os, Call, Answer, Payload, to_result, Result, ok, err, OsError, sys, plain}
use gonfs.Prog
use gonfs.Prog.{
  Prog, ret, exit, crash, get, set, delete, call, ◌>>=◌, set_value_for_handle, delete_handle,
  perform, with_path, attempt, errno_of,
}
use gonfs.Prog.Run.{Handles, put, remove, Server}

module _ (os : Os) where
  -- The calls of a run, the first one first.
  unfoldable pub calls_of : {A : Type 0} → Prog A → Server os → List Call
  calls_of (ret a) s = []
  calls_of exit s = []
  calls_of crash s = []
  calls_of (get h k) s = calls_of (k (s.handles h)) s
  calls_of (set h p k) s = calls_of k (record s { handles = put s.handles h p })
  calls_of (delete h k) s = calls_of k (record s { handles = remove s.handles h })
  calls_of (call c k) s =
      let (r, w) = os.perform c s.world in c ∷ calls_of (k r) (record s { world = w })

unfoldable pub Obliged : {A : Type 0} → (Call → Type 0) → Prog A → Handles → Type 0
Obliged K (ret a) m = Unit
Obliged K exit m = Unit
Obliged K crash m = Unit
Obliged K (get h k) m = Obliged K (k (m h)) m
Obliged K (set h p k) m = Obliged K k (put m h p)
Obliged K (delete h k) m = Obliged K k (remove m h)
Obliged K (call c k) m = K c × ((r : Answer c) → Obliged K (k r) m)

-- Whatever the operating system answers, from this map every call satisfies K.
pub record Makes {A : Type 0} (K : Call → Type 0) (p : Prog A) (m : Handles) : Type 0 where
  pub obliged : Obliged K p m

module _ (os : Os) {A : Type 0} (K : Call → Type 0) where
  Obliged-run : (p : Prog A) (s : Server os) → Obliged K p s.handles → All K (calls_of os p s)
  unfolding Obliged calls_of
  Obliged-run (ret a) s f = tt
  Obliged-run exit s f = tt
  Obliged-run crash s f = tt
  Obliged-run (get h k) s f = Obliged-run (k (s.handles h)) s f
  Obliged-run (set h p k) s f = Obliged-run k _ f
  Obliged-run (delete h k) s f = Obliged-run k _ f
  Obliged-run (call c k) s f =
      (f.0, Obliged-run (k (os.perform c s.world).0) _ (f.1 (os.perform c s.world).0))

  pub Makes-run : (p : Prog A) (s : Server os) → Makes K p s.handles → All K (calls_of os p s)
  Makes-run p s f = Obliged-run p s f.obliged

module _ {A : Type 0} {K : Call → Type 0} {m : Handles} where
  pub Makes-ret : (a : A) → Makes K (ret a) m
  unfolding Obliged
  Makes-ret a = record { obliged = tt }

  pub Makes-exit : Makes {A = A} K exit m
  unfolding Obliged
  Makes-exit = record { obliged = tt }

  pub Makes-crash : Makes {A = A} K crash m
  unfolding Obliged
  Makes-crash = record { obliged = tt }

  pub Makes-if :
      (b : Bool) (p q : Prog A)
      → (b ≡ true → Makes K p m)
      → (b ≡ false → Makes K q m)
      → Makes K (if b then p else q) m
  Makes-if true p q hp hq = hp refl
  Makes-if false p q hp hq = hq refl

  pub Makes-with_path :
      (h : ℕ) (missing : Prog A) (found : Text → Prog A)
      → Makes K missing m
      → ((p : Text) → m h ≡ some p → Makes K (found p) m)
      → Makes K (with_path h missing found) m
  unfolding Obliged with_path
  Makes-with_path h missing found hm hf = record { obliged = split (m h) refl }
    where
      split : (o : Option Text) → m h ≡ o → Obliged K (Prog.on_found missing found o) m
      split none v = hm.obliged
      split (some p) v = (hf p v).obliged

  pub Makes-attempt :
      (c : Call) (failed : OsError → Prog A) (next : Payload c → Prog A)
      → K c
      → ((e : OsError) → Makes K (failed e) m)
      → ((b : Payload c) → Makes K (next b) m)
      → Makes K (attempt c failed next) m
  unfolding attempt Obliged
  Makes-attempt c failed next k hf hd = record { obliged = (k, λ r. split (to_result c r)) }
    where
      split : (r : Result (Payload c)) → Obliged K (Prog.on_result failed next r) m
      split (ok b) = (hd b).obliged
      split (err e) = (hf e).obliged

module _ {A B : Type 0} (K : Call → Type 0) where
  Obliged-bind :
      (p : Prog B) (f : B → Prog A) (m : Handles)
      → Obliged K p m
      → ((b : B) (n : Handles) → Obliged K (f b) n)
      → Obliged K (p >>= f) m
  unfolding Obliged ◌>>=◌
  Obliged-bind (ret b) f m hp hf = hf b m
  Obliged-bind exit f m hp hf = tt
  Obliged-bind crash f m hp hf = tt
  Obliged-bind (get h k) f m hp hf = Obliged-bind (k (m h)) f m hp hf
  Obliged-bind (set h p k) f m hp hf = Obliged-bind k f _ hp hf
  Obliged-bind (delete h k) f m hp hf = Obliged-bind k f _ hp hf
  Obliged-bind (call c k) f m hp hf = (hp.0, λ r. Obliged-bind (k r) f m (hp.1 r) hf)

module _ {A B : Type 0} {K : Call → Type 0} {m : Handles} where
  pub Makes-bind :
      (p : Prog B) (f : B → Prog A)
      → Makes K p m
      → ((b : B) (n : Handles) → Makes K (f b) n)
      → Makes K (p >>= f) m
  Makes-bind p f hp hf = record {
    obliged = Obliged-bind K p f m hp.obliged (λ b n. (hf b n).obliged);
  }

module _ {K : Call → Type 0} {m : Handles} where
  pub Makes-set : (h : ℕ) (p : Text) → Makes K (set_value_for_handle h p) m
  unfolding Obliged set_value_for_handle
  Makes-set h p = record { obliged = tt }

  pub Makes-delete : (h : ℕ) → Makes K (delete_handle h) m
  unfolding Obliged delete_handle
  Makes-delete h = record { obliged = tt }

  pub Makes-perform : (c : Call) → K c → Makes K (perform c) m
  unfolding Obliged perform
  Makes-perform c k = record { obliged = (k, λ r. tt) }

  pub Makes-errno_of : (e : OsError) → Makes K (errno_of e) m
  unfolding Obliged errno_of
  Makes-errno_of (sys e) = record { obliged = tt }
  Makes-errno_of plain = record { obliged = tt }

-- The rules for `search`, one for each way to build a program.
pub ruleset makes_rules = (
  Makes-ret, Makes-exit, Makes-crash, Makes-if, Makes-with_path, Makes-bind, Makes-attempt,
  Makes-set, Makes-delete, Makes-perform, Makes-errno_of,
)
