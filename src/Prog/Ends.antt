-- ===== src/Prog/Ends.antt =====
-- How a procedure run alone ends: a postcondition on its result and the handle map, whatever the
-- operating system answers within `E`, and what is promised of a panic.
use gonfs.Common.{
  ℕ, Text, Option, none, some, ◌≡◌, refl, sym, subst, Bool, true, false, if◌then◌else◌,
}
use gonfs.Os.{Os, Call, Answer, Payload, to_result, Result, ok, err, OsError, Errno, sys, plain}
use gonfs.Prog
use gonfs.Prog.{
  Prog, ret, exit, crash, get, set, delete, call, ◌>>=◌, set_value_for_handle, delete_handle,
  perform, with_path, attempt, errno_of,
}
use gonfs.Prog.Run.{Handles, put, remove, Outcome, done, exited, crashed, Server, run}

abbrev pub Post : Type 0 → Type 1
Post A = A → Handles → Type 0

-- What may be assumed of an answer.
abbrev pub Answers : Type 1
Answers = (c : Call) → Answer c → Type 0

unfoldable pub After : {A : Type 0} → Answers → Type 0 → Post A → Prog A → Handles → Type 0
After E X Q (ret a) m = Q a m
After E X Q exit m = Unit
After E X Q crash m = X
After E X Q (get h k) m = After E X Q (k (m h)) m
After E X Q (set h p k) m = After E X Q k (put m h p)
After E X Q (delete h k) m = After E X Q k (remove m h)
After E X Q (call c k) m = (r : Answer c) → E c r → After E X Q (k r) m

pub record Ends {A : Type 0} (E : Answers) (X : Type 0) (Q : Post A) (p : Prog A) (m : Handles)
    : Type 0 where
  pub after : After E X Q p m

-- What a run that ended satisfies.
abbrev pub Ended : {A : Type 0} → {os : Os} → Type 0 → Post A → Outcome A × Server os → Type 0
Ended X Q (done a, s) = Q a s.handles
Ended X Q (exited, s) = Unit
Ended X Q (crashed, s) = X

module _ (os : Os) {A : Type 0} (E : Answers) (X : Type 0) (Q : Post A) where
  -- An operating system whose answers are within E.
  pub record Answering : Type 0 where
    pub within : (c : Call) (w : os.World) → E c (os.perform c w).0

  After-run :
      Answering → (p : Prog A) (s : Server os) → After E X Q p s.handles → Ended X Q (run os p s)
  unfolding After run
  After-run o (ret a) s f = f
  After-run o exit s f = f
  After-run o crash s f = f
  After-run o (get h k) s f = After-run o (k (s.handles h)) s f
  After-run o (set h p k) s f = After-run o k _ f
  After-run o (delete h k) s f = After-run o k _ f
  After-run o (call c k) s f =
      After-run o (k (os.perform c s.world).0) _ (f (os.perform c s.world).0 (o.within c s.world))

  pub Ends-run :
      Answering → (p : Prog A) (s : Server os) → Ends E X Q p s.handles → Ended X Q (run os p s)
  Ends-run o p s e = After-run o p s e.after

module _ {A : Type 0} {E : Answers} {X : Type 0} {Q : Post A} {m : Handles} where
  pub Ends-ret : (a : A) → Q a m → Ends E X Q (ret a) m
  unfolding After
  Ends-ret a q = record { after = q }

  pub Ends-exit : Ends E X Q exit m
  unfolding After
  Ends-exit = record { after = tt }

  pub Ends-crash : X → Ends E X Q crash m
  unfolding After
  Ends-crash x = record { after = x }

  pub Ends-if :
      (b : Bool) (p q : Prog A)
      → (b ≡ true → Ends E X Q p m)
      → (b ≡ false → Ends E X Q q m)
      → Ends E X Q (if b then p else q) m
  Ends-if true p q hp hq = hp refl
  Ends-if false p q hp hq = hq refl

  pub Ends-with_path :
      (h : ℕ) (missing : Prog A) (found : Text → Prog A)
      → (m h ≡ none → Ends E X Q missing m)
      → ((p : Text) → m h ≡ some p → Ends E X Q (found p) m)
      → Ends E X Q (with_path h missing found) m
  unfolding After with_path
  Ends-with_path h missing found hm hf = record { after = split (m h) refl }
    where
      split : (o : Option Text) → m h ≡ o → After E X Q (Prog.on_found missing found o) m
      split none v = (hm v).after
      split (some p) v = (hf p v).after

  -- A handle that the map holds.
  pub Ends-found :
      (h : ℕ) (missing : Prog A) (found : Text → Prog A) (p : Text)
      → m h ≡ some p
      → Ends E X Q (found p) m
      → Ends E X Q (with_path h missing found) m
  unfolding After with_path
  Ends-found h missing found p e hf = record {
    after = subst (λ o. After E X Q (Prog.on_found missing found o) m) (sym e) hf.after;
  }

module _ {A : Type 0} (E : Answers) (X : Type 0) (Q : Post A) where
  After-weaken :
      (R : Post A) (p : Prog A) (m : Handles)
      → ((a : A) (n : Handles) → R a n → Q a n)
      → After E X R p m
      → After E X Q p m
  unfolding After
  After-weaken R (ret a) m f h = f a m h
  After-weaken R exit m f h = tt
  After-weaken R crash m f h = h
  After-weaken R (get k c) m f h = After-weaken R (c (m k)) m f h
  After-weaken R (set k p c) m f h = After-weaken R c _ f h
  After-weaken R (delete k c) m f h = After-weaken R c _ f h
  After-weaken R (call c k) m f h = λ r e. After-weaken R (k r) m f (h r e)

module _ {A : Type 0} {E : Answers} {X : Type 0} {Q : Post A} where
  pub Ends-weaken :
      {p : Prog A} {m : Handles} (R : Post A)
      → ((a : A) (n : Handles) → R a n → Q a n)
      → Ends E X R p m
      → Ends E X Q p m
  Ends-weaken {p} {m} R f h = record { after = After-weaken E X Q R p m f h.after }

module _ {A B : Type 0} (E : Answers) (X : Type 0) (Q : Post A) (R : Post B) where
  After-bind :
      (p : Prog B) (f : B → Prog A) (m : Handles)
      → ((b : B) (n : Handles) → R b n → After E X Q (f b) n)
      → After E X R p m
      → After E X Q (p >>= f) m
  unfolding After ◌>>=◌
  After-bind (ret b) f m h hp = h b m hp
  After-bind exit f m h hp = tt
  After-bind crash f m h hp = hp
  After-bind (get k c) f m h hp = After-bind (c (m k)) f m h hp
  After-bind (set k p c) f m h hp = After-bind c f _ h hp
  After-bind (delete k c) f m h hp = After-bind c f _ h hp
  After-bind (call c k) f m h hp = λ r e. After-bind (k r) f m h (hp r e)

module _ {A B : Type 0} {E : Answers} {X : Type 0} {Q : Post A} {m : Handles} where
  -- The first step of a block must end so that the rest ends well.
  pub Ends-bind :
      (p : Prog B) (f : B → Prog A)
      → Ends E X (λ b n. Ends E X Q (f b) n) p m
      → Ends E X Q (p >>= f) m
  Ends-bind p f hp = record {
    after = After-bind E X Q (λ b n. Ends E X Q (f b) n) p f m (λ b n e. e.after) hp.after;
  }

module _ {A : Type 0} {E : Answers} {X : Type 0} {Q : Post A} {m : Handles} where
  -- `Ends-bind` where the first step is a call, of whose answer E may be used.
  pub Ends-perform_bind :
      (c : Call) (f : Answer c → Prog A)
      → ((r : Answer c) → E c r → Ends E X Q (f r) m)
      → Ends E X Q (perform c >>= f) m
  unfolding After perform ◌>>=◌
  Ends-perform_bind c f h = record { after = λ r e. (h r e).after }

-- The call `c` may fail with `e`.
abbrev pub Fails : Answers → Call → OsError → Type 0
Fails E c e = (r : Answer c) × E c r × (to_result c r ≡ err e)

module _ {A : Type 0} {E : Answers} {X : Type 0} {Q : Post A} {m : Handles} where
  pub Ends-attempt :
      (c : Call) (failed : OsError → Prog A) (next : Payload c → Prog A)
      → ((e : OsError) → Fails E c e → Ends E X Q (failed e) m)
      → ((b : Payload c) → Ends E X Q (next b) m)
      → Ends E X Q (attempt c failed next) m
  unfolding attempt After
  Ends-attempt c failed next hf hd = record { after = λ r e. split r e (to_result c r) refl }
    where
      split :
          (r : Answer c)
          → E c r
          → (o : Result (Payload c)) → to_result c r ≡ o
          → After E X Q (Prog.on_result failed next o) m
      split r e (ok b) q = (hd b).after
      split r e (err x) q = (hf x (r, e, q)).after

module _ {E : Answers} {X : Type 0} where
  pub Ends-set :
      {Q : Post (Unit {0})} {m : Handles} (h : ℕ) (p : Text)
      → Q tt (put m h p)
      → Ends E X Q (set_value_for_handle h p) m
  unfolding After set_value_for_handle
  Ends-set h p q = record { after = q }

  pub Ends-delete :
      {Q : Post (Unit {0})} {m : Handles} (h : ℕ)
      → Q tt (remove m h)
      → Ends E X Q (delete_handle h) m
  unfolding After delete_handle
  Ends-delete h q = record { after = q }

  pub Ends-perform :
      (c : Call) {Q : Post (Answer c)} {m : Handles}
      → ((r : Answer c) → Q r m)
      → Ends E X Q (perform c) m
  unfolding After perform
  Ends-perform c q = record { after = λ r e. q r }

  pub Ends-errno_of :
      {Q : Post Errno} {m : Handles} (e : OsError)
      → X
      → ((n : Errno) → Q n m)
      → Ends E X Q (errno_of e) m
  unfolding After errno_of
  Ends-errno_of (sys n) x q = record { after = q n }
  Ends-errno_of plain x q = record { after = x }

-- The rules for `search`, one for each way to build a program.
pub ruleset ends_rules = (
  Ends-ret, Ends-exit, Ends-crash, Ends-if, Ends-with_path, Ends-bind, Ends-attempt, Ends-set,
  Ends-delete, Ends-perform, Ends-errno_of,
)
