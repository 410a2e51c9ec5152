-- ===== src/Prog/Machine.antt =====
-- How a procedure run alone ends where a part of the world is followed call by call: a machine says
-- of the calls that it covers how they change that part, and what they answer.
use gonfs.Common.{
  ℕ, Text, Option, none, some, ◌≡◌, refl, sym, subst, Bool, true, false, if◌then◌else◌,
}
use gonfs.Os.{Os, Call, Answer, Payload, to_result, Result, ok, err, OsError, sys, plain, Errno}
use gonfs.Prog
use gonfs.Prog.{
  Prog, ret, exit, crash, get, set, delete, call, ◌>>=◌, delete_handle, perform, with_path, attempt,
  errno_of,
}
use gonfs.Prog.Run.{Handles, put, remove, Outcome, done, exited, crashed, Server, run}

pub record Machine : Type 1 where
  pub State : Type 0
  pub covered : Call → State → Bool
  pub next : (c : Call) → Answer c → State → State
  pub may : (c : Call) → Answer c → State → Type 0

-- The part of the world that `view` shows behaves as the machine does.
pub record Models (os : Os) (mc : Machine) (view : os.World → mc.State) : Type 0 where
  pub steps :
      (c : Call) (w : os.World)
      → mc.covered c (view w) ≡ true
      → (view (os.perform c w).1 ≡ mc.next c (os.perform c w).0 (view w))
        × mc.may c (os.perform c w).0 (view w)

module _ (mc : Machine) where
  abbrev pub Final : Type 0 → Type 1
  Final A = A → Handles → mc.State → Type 0

  unfoldable pub Along : {A : Type 0} → Final A → Prog A → Handles → mc.State → Type 0
  Along Q (ret a) m v = Q a m v
  Along Q exit m v = Unit
  Along Q crash m v = Unit
  Along Q (get h k) m v = Along Q (k (m h)) m v
  Along Q (set h p k) m v = Along Q k (put m h p) v
  Along Q (delete h k) m v = Along Q k (remove m h) v
  Along Q (call c k) m v =
      (mc.covered c v ≡ true) × ((r : Answer c) → mc.may c r v → Along Q (k r) m (mc.next c r v))

  pub record Meets {A : Type 0} (Q : Final A) (p : Prog A) (m : Handles) (v : mc.State)
      : Type 0 where
    pub along : Along Q p m v

module _ (os : Os) (mc : Machine) (view : os.World → mc.State) {A : Type 0} (Q : Final mc A) where
  -- What a run that ended with a result satisfies.
  abbrev pub Reached : Outcome A × Server os → Type 0
  Reached (done a, s) = Q a s.handles (view s.world)
  Reached (exited, s) = Unit
  Reached (crashed, s) = Unit

  Along-run :
      Models os mc view
      → (p : Prog A) (s : Server os) → Along mc Q p s.handles (view s.world)
      → Reached (run os p s)
  unfolding Along run
  Along-run o (ret a) s f = f
  Along-run o exit s f = f
  Along-run o crash s f = f
  Along-run o (get h k) s f = Along-run o (k (s.handles h)) s f
  Along-run o (set h p k) s f = Along-run o k _ f
  Along-run o (delete h k) s f = Along-run o k _ f
  Along-run o (call c k) s f =
      let (moved, allowed) = o.steps c s.world f.0 in
      Along-run o (k (os.perform c s.world).0) _ (
        subst (Along mc Q (k (os.perform c s.world).0) s.handles) (sym moved)
          (f.1 (os.perform c s.world).0 allowed))

  pub Meets-run :
      Models os mc view
      → (p : Prog A) (s : Server os) → Meets mc Q p s.handles (view s.world)
      → Reached (run os p s)
  Meets-run o p s f = Along-run o p s f.along

module _ {mc : Machine} {A : Type 0} {Q : Final mc A} {m : Handles} {v : mc.State} where
  pub Meets-ret : (a : A) → Q a m v → Meets mc Q (ret a) m v
  unfolding Along
  Meets-ret a q = record { along = q }

  pub Meets-if :
      (b : Bool) (p q : Prog A)
      → (b ≡ true → Meets mc Q p m v)
      → (b ≡ false → Meets mc Q q m v)
      → Meets mc Q (if b then p else q) m v
  Meets-if true p q hp hq = hp refl
  Meets-if false p q hp hq = hq refl

  pub Meets-with_path :
      (h : ℕ) (missing : Prog A) (found : Text → Prog A)
      → (m h ≡ none → Meets mc Q missing m v)
      → ((p : Text) → m h ≡ some p → Meets mc Q (found p) m v)
      → Meets mc Q (with_path h missing found) m v
  unfolding Along with_path
  Meets-with_path h missing found hm hf = record { along = split (m h) refl }
    where
      split : (o : Option Text) → m h ≡ o → Along mc Q (Prog.on_found missing found o) m v
      split none e = (hm e).along
      split (some p) e = (hf p e).along

  -- A handle that the map holds.
  pub Meets-found :
      (h : ℕ) (missing : Prog A) (found : Text → Prog A) (p : Text)
      → m h ≡ some p
      → Meets mc Q (found p) m v
      → Meets mc Q (with_path h missing found) m v
  unfolding Along with_path
  Meets-found h missing found p e hf = record {
    along = subst (λ o. Along mc Q (Prog.on_found missing found o) m v) (sym e) hf.along;
  }

  pub Meets-attempt :
      (c : Call) (failed : OsError → Prog A) (next : Payload c → Prog A)
      → mc.covered c v ≡ true
      → ((r : Answer c) (e : OsError)
          → to_result c r ≡ err e
          → Meets mc Q (failed e) m (mc.next c r v))
      → ((r : Answer c) (b : Payload c)
          → to_result c r ≡ ok b
          → mc.may c r v
          → Meets mc Q (next b) m (mc.next c r v))
      → Meets mc Q (attempt c failed next) m v
  unfolding attempt Along
  Meets-attempt c failed next cover hf hd = record {
    along = (cover, λ r e. split r e (to_result c r) refl);
  }
    where
      split :
          (r : Answer c)
          → mc.may c r v
          → (o : Result (Payload c)) → to_result c r ≡ o
          → Along mc Q (Prog.on_result failed next o) m (mc.next c r v)
      split r e (ok b) q = (hd r b q e).along
      split r e (err x) q = (hf r x q).along

  pub Meets-perform_bind :
      (c : Call) (f : Answer c → Prog A)
      → mc.covered c v ≡ true
      → ((r : Answer c) → mc.may c r v → Meets mc Q (f r) m (mc.next c r v))
      → Meets mc Q (perform c >>= f) m v
  unfolding Along perform ◌>>=◌
  Meets-perform_bind c f cover h = record { along = (cover, λ r e. (h r e).along) }

module _ {mc : Machine} where
  pub Meets-delete :
      {Q : Final mc (Unit {0})} {m : Handles} {v : mc.State} (h : ℕ)
      → Q tt (remove m h) v
      → Meets mc Q (delete_handle h) m v
  unfolding Along delete_handle
  Meets-delete h q = record { along = q }

  pub Meets-errno_of :
      {Q : Final mc Errno} {m : Handles} {v : mc.State} (e : OsError)
      → ((n : Errno) → Q n m v)
      → Meets mc Q (errno_of e) m v
  unfolding Along errno_of
  Meets-errno_of (sys n) q = record { along = q n }
  Meets-errno_of plain q = record { along = tt }

module _ (mc : Machine) {A B : Type 0} (Q : Final mc A) (R : Final mc B) where
  Along-bind :
      (p : Prog B) (f : B → Prog A) (m : Handles) (v : mc.State)
      → ((b : B) (n : Handles) (u : mc.State) → R b n u → Along mc Q (f b) n u)
      → Along mc R p m v
      → Along mc Q (p >>= f) m v
  unfolding Along ◌>>=◌
  Along-bind (ret b) f m v h hp = h b m v hp
  Along-bind exit f m v h hp = tt
  Along-bind crash f m v h hp = tt
  Along-bind (get h k) f m v g hp = Along-bind (k (m h)) f m v g hp
  Along-bind (set h p k) f m v g hp = Along-bind k f _ v g hp
  Along-bind (delete h k) f m v g hp = Along-bind k f _ v g hp
  Along-bind (call c k) f m v g hp =
      (hp.0, λ r e. Along-bind (k r) f m (mc.next c r v) g (hp.1 r e))

module _ {mc : Machine} {A B : Type 0} {Q : Final mc A} {m : Handles} {v : mc.State} where
  -- The first step of a block must end so that the rest ends well.
  pub Meets-bind :
      (p : Prog B) (f : B → Prog A)
      → Meets mc (λ b n u. Meets mc Q (f b) n u) p m v
      → Meets mc Q (p >>= f) m v
  Meets-bind p f hp = record {
    along = Along-bind mc Q (λ b n u. Meets mc Q (f b) n u) p f m v (λ b n u e. e.along) hp.along;
  }

pub ruleset meets_rules =
    (Meets-ret, Meets-if, Meets-with_path, Meets-bind, Meets-delete, Meets-errno_of)
