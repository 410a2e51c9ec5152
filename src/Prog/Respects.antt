-- ===== src/Prog/Respects.antt =====
-- Safety of a program tree, whatever the handle map and the operating system answer.
use gonfs.Common.{ℕ, Text, Option, none, some, ◌≡◌, refl, Bool, true, false, if◌then◌else◌}
use gonfs.Os.{Call, Answer, Payload, to_result, Result, ok, err, OsError, sys, plain}
use gonfs.Prog
use gonfs.Prog.{
  Prog, ret, exit, crash, get, set, delete, call, ◌>>=◌, set_value_for_handle, delete_handle,
  perform, with_path, attempt, errno_of,
}

-- What holds of an answer of the map for a handle: a path found satisfies V.
abbrev pub Held : (ℕ → Text → Type 0) → ℕ → Option Text → Type 0
Held V h none = Unit
Held V h (some p) = V h p

-- Every path stored for a handle satisfies V, every call satisfies K and every result satisfies Q,
-- provided that the paths found satisfy V.
unfoldable pub Steps :
    {A : Type 0} → (ℕ → Text → Type 0) → (Call → Type 0) → (A → Type 0) → Prog A → Type 0
Steps V K Q (ret a) = Q a
Steps V K Q exit = Unit
Steps V K Q crash = Unit
Steps V K Q (get h k) = (o : Option Text) → Held V h o → Steps V K Q (k o)
Steps V K Q (set h p k) = V h p × Steps V K Q k
Steps V K Q (delete h k) = Steps V K Q k
Steps V K Q (call c k) = K c × ((r : Answer c) → Steps V K Q (k r))

pub record Respects {A : Type 0} (V : ℕ → Text → Type 0) (K : Call → Type 0) (Q : A → Type 0)
    (p : Prog A) : Type 0 where
  pub steps : Steps V K Q p

abbrev pub Any : {A : Type 0} → A → Type 0
Any _ = Unit {0}

module _ {A : Type 0} {V : ℕ → Text → Type 0} {K : Call → Type 0} {Q : A → Type 0} where
  pub Respects-ret : (a : A) → Q a → Respects V K Q (ret a)
  unfolding Steps
  Respects-ret a q = record { steps = q }

  pub Respects-exit : Respects V K Q exit
  unfolding Steps
  Respects-exit = record { steps = tt }

  pub Respects-crash : Respects V K Q crash
  unfolding Steps
  Respects-crash = record { steps = tt }

  pub Respects-if :
      (b : Bool) (p q : Prog A)
      → (b ≡ true → Respects V K Q p)
      → (b ≡ false → Respects V K Q q)
      → Respects V K Q (if b then p else q)
  Respects-if true p q hp hq = hp refl
  Respects-if false p q hp hq = hq refl

  pub Respects-with_path :
      (h : ℕ) (missing : Prog A) (found : Text → Prog A)
      → Respects V K Q missing
      → ((p : Text) → V h p → Respects V K Q (found p))
      → Respects V K Q (with_path h missing found)
  unfolding Steps with_path
  Respects-with_path h missing found hm hf = record { steps = split }
    where
      split : (o : Option Text) → Held V h o → Steps V K Q (Prog.on_found missing found o)
      split none v = hm.steps
      split (some p) v = (hf p v).steps

module _ {A B : Type 0} (V : ℕ → Text → Type 0) (K : Call → Type 0) (Q : A → Type 0)
    (R : B → Type 0) where
  Steps-bind :
      (m : Prog B) (f : B → Prog A)
      → Steps V K R m
      → ((b : B) → R b → Steps V K Q (f b))
      → Steps V K Q (m >>= f)
  unfolding Steps ◌>>=◌
  Steps-bind (ret b) f hm hf = hf b hm
  Steps-bind exit f hm hf = tt
  Steps-bind crash f hm hf = tt
  Steps-bind (get h k) f hm hf = λ o v. Steps-bind (k o) f (hm o v) hf
  Steps-bind (set h p k) f hm hf = (hm.0, Steps-bind k f hm.1 hf)
  Steps-bind (delete h k) f hm hf = Steps-bind k f hm hf
  Steps-bind (call c k) f hm hf = (hm.0, λ r. Steps-bind (k r) f (hm.1 r) hf)

module _ {A B : Type 0} {V : ℕ → Text → Type 0} {K : Call → Type 0} {Q : A → Type 0} where
  -- The rest of a block, where nothing is used of the first step's result.
  pub Respects-bind :
      (m : Prog B) (f : B → Prog A)
      → Respects V K Any m
      → ((b : B) → Respects V K Q (f b))
      → Respects V K Q (m >>= f)
  Respects-bind m f hm hf = record {
    steps = Steps-bind V K Q Any m f hm.steps (λ b u. (hf b).steps);
  }

  -- The same where the first step's result satisfies R.
  pub Respects-bind_using :
      (R : B → Type 0) (m : Prog B) (f : B → Prog A)
      → Respects V K R m
      → ((b : B) → R b → Respects V K Q (f b))
      → Respects V K Q (m >>= f)
  Respects-bind_using R m f hm hf = record {
    steps = Steps-bind V K Q R m f hm.steps (λ b r. (hf b r).steps);
  }

module _ {A : Type 0} {V : ℕ → Text → Type 0} {K : Call → Type 0} {Q : A → Type 0} where
  pub Respects-attempt :
      (c : Call) (failed : OsError → Prog A) (done : Payload c → Prog A)
      → K c
      → ((e : OsError) → Respects V K Q (failed e))
      → ((b : Payload c) → Respects V K Q (done b))
      → Respects V K Q (attempt c failed done)
  unfolding attempt Steps
  Respects-attempt c failed done k hf hd = record { steps = (k, λ r. split (to_result c r)) }
    where
      split : (r : Result (Payload c)) → Steps V K Q (Prog.on_result failed done r)
      split (ok b) = (hd b).steps
      split (err e) = (hf e).steps

module _ {V : ℕ → Text → Type 0} {K : Call → Type 0} where
  pub Respects-set : (h : ℕ) (p : Text) → V h p → Respects V K Any (set_value_for_handle h p)
  unfolding Steps set_value_for_handle
  Respects-set h p v = record { steps = (v, tt) }

  pub Respects-delete : (h : ℕ) → Respects V K Any (delete_handle h)
  unfolding Steps delete_handle
  Respects-delete h = record { steps = tt }

  pub Respects-perform : (c : Call) → K c → Respects V K Any (perform c)
  unfolding Steps perform
  Respects-perform c k = record { steps = (k, λ r. tt) }

  pub Respects-errno_of : (e : OsError) → Respects V K Any (errno_of e)
  unfolding Steps errno_of
  Respects-errno_of (sys e) = record { steps = tt }
  Respects-errno_of plain = record { steps = tt }

-- The rules for `search`, one for each way to build a program.
pub ruleset respects_rules = (
  Respects-ret, Respects-exit, Respects-crash, Respects-if, Respects-with_path, Respects-bind,
  Respects-attempt, Respects-set, Respects-delete, Respects-perform, Respects-errno_of,
)
