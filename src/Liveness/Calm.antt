-- ===== src/Liveness/Calm.antt =====
-- Programs that do not panic, whatever the handle map holds and whatever the operating system
-- answers, as long as its errors are values of syscall.Errno.
use gonfs.Common.{ℕ, Text, Option, none, some, Bool, true, false, if◌then◌else◌}
use gonfs.Common.Int.{pos}
use gonfs.Os.{
  Os, Call, Answer, Payload, to_result, Result, ok, err, OsError, sys, plain, Errno, read_at,
  write_at, failed,
}
use gonfs.Types.Attr.{Fattr3}
use gonfs.Prog
use gonfs.Prog.{
  Prog, ret, exit, crash, get, set, delete, call, ◌>>=◌, set_value_for_handle, delete_handle,
  perform, with_path, attempt, errno_of,
}
use gonfs.Prog.Ends.{Answers}
use gonfs.Backend.Base
use gonfs.Backend.Base.{Backend, get_file_attr_from_path, stat_path, post_attr, enter_handle}

abbrev pub IsErrno : OsError → Type 0
IsErrno (sys n) = Unit
IsErrno plain = ⊥

abbrev pub ErrsErrno : {A : Type 0} → Result A → Type 0
ErrsErrno (ok a) = Unit
ErrsErrno (err e) = IsErrno e

-- ReadAt and WriteAt, whose errors stand beside the data, at an offset that is not negative.
abbrev AtErrno : (c : Call) → Answer c → Type 0
AtErrno (read_at n k (pos o)) (bytes, failed e) = IsErrno e
AtErrno (write_at n d (pos o)) (k, some e) = IsErrno e
AtErrno c r = Unit

-- What package os documents: its errors wrap a syscall.Errno, but for the end of a file and for
-- negative offsets of ReadAt and WriteAt.
abbrev pub Documented : Answers
Documented c r = ErrsErrno (to_result c r) × AtErrno c r

unfoldable pub Quiet : {A : Type 0} → Prog A → Type 0
Quiet (ret a) = Unit
Quiet exit = Unit
Quiet crash = ⊥
Quiet (get h k) = (o : Option Text) → Quiet (k o)
Quiet (set h p k) = Quiet k
Quiet (delete h k) = Quiet k
Quiet (call c k) = (r : Answer c) → Documented c r → Quiet (k r)

pub record Calm {A : Type 0} (p : Prog A) : Type 0 where
  pub quiet : Quiet p

module _ {A : Type 0} where
  pub Calm-ret : (a : A) → Calm (ret a)
  unfolding Quiet
  Calm-ret a = record { quiet = tt }

  pub Calm-exit : Calm {A = A} exit
  unfolding Quiet
  Calm-exit = record { quiet = tt }

  pub Calm-if : (b : Bool) (p q : Prog A) → Calm p → Calm q → Calm (if b then p else q)
  Calm-if true p q hp hq = hp
  Calm-if false p q hp hq = hq

  pub Calm-with_path :
      (h : ℕ) (missing : Prog A) (found : Text → Prog A)
      → Calm missing
      → ((p : Text) → Calm (found p))
      → Calm (with_path h missing found)
  unfolding Quiet with_path
  Calm-with_path h missing found hm hf = record { quiet = split }
    where
      split : (o : Option Text) → Quiet (Prog.on_found missing found o)
      split none = hm.quiet
      split (some p) = (hf p).quiet

module _ {A B : Type 0} where
  Quiet-bind : (m : Prog B) (f : B → Prog A) → Quiet m → ((b : B) → Quiet (f b)) → Quiet (m >>= f)
  unfolding Quiet ◌>>=◌
  Quiet-bind (ret b) f hm hf = hf b
  Quiet-bind exit f hm hf = tt
  Quiet-bind crash f hm hf = absurd hm
  Quiet-bind (get h k) f hm hf = λ o. Quiet-bind (k o) f (hm o) hf
  Quiet-bind (set h p k) f hm hf = Quiet-bind k f hm hf
  Quiet-bind (delete h k) f hm hf = Quiet-bind k f hm hf
  Quiet-bind (call c k) f hm hf = λ r e. Quiet-bind (k r) f (hm r e) hf

  pub Calm-bind : (m : Prog B) (f : B → Prog A) → Calm m → ((b : B) → Calm (f b)) → Calm (m >>= f)
  Calm-bind m f hm hf = record { quiet = Quiet-bind m f hm.quiet (λ b. (hf b).quiet) }

module _ {A : Type 0} where
  -- The rest of a block after a call, which may use what is documented of the answer.
  pub Calm-perform_bind :
      (c : Call) (f : Answer c → Prog A)
      → ((r : Answer c) → Documented c r → Calm (f r))
      → Calm (perform c >>= f)
  unfolding Quiet perform ◌>>=◌
  Calm-perform_bind c f h = record { quiet = λ r e. (h r e).quiet }

  pub Calm-attempt :
      (c : Call) (failing : OsError → Prog A) (next : Payload c → Prog A)
      → ((e : OsError) → IsErrno e → Calm (failing e))
      → ((b : Payload c) → Calm (next b))
      → Calm (attempt c failing next)
  unfolding attempt Quiet
  Calm-attempt c failing next hf hd = record { quiet = λ r d. split (to_result c r) d.0 }
    where
      split : (o : Result (Payload c)) → ErrsErrno o → Quiet (Prog.on_result failing next o)
      split (ok b) d = (hd b).quiet
      split (err e) d = (hf e d).quiet

pub Calm-set : (h : ℕ) (p : Text) → Calm (set_value_for_handle h p)
unfolding Quiet set_value_for_handle
Calm-set h p = record { quiet = tt }

pub Calm-delete : (h : ℕ) → Calm (delete_handle h)
unfolding Quiet delete_handle
Calm-delete h = record { quiet = tt }

pub Calm-perform : (c : Call) → Calm (perform c)
unfolding Quiet perform
Calm-perform c = record { quiet = λ r d. tt }

pub Calm-errno_of : (e : OsError) → IsErrno e → Calm (errno_of e)
unfolding Quiet errno_of
Calm-errno_of (sys n) d = record { quiet = tt }
Calm-errno_of plain d = absurd d

pub ruleset step_rules = (
  Calm-ret, Calm-exit, Calm-if, Calm-with_path, Calm-bind, Calm-attempt, Calm-set, Calm-delete,
  Calm-perform, Calm-errno_of,
)

Calm-get_file_attr : (p : Text) (a : Fattr3) → Calm (get_file_attr_from_path p a)
unfolding get_file_attr_from_path
Calm-get_file_attr p a = search step_rules depth 8

pub Calm-stat_path :
    {A : Type 0} (p : Text) (a : Fattr3) (failing : Errno → Fattr3 → Prog A)
    (next : Fattr3 → Prog A)
    → ((e : Errno) (b : Fattr3) → Calm (failing e b))
    → ((b : Fattr3) → Calm (next b))
    → Calm (stat_path p a failing next)
unfolding stat_path
Calm-stat_path p a failing next hf hd = Calm-bind _ _ (Calm-get_file_attr p a) split
  where
    split : (r : Option Errno × Fattr3) → Calm (Base.on_stat failing next r)
    split (none, b) = hd b
    split (some e, b) = hf e b

pub Calm-post_attr : (h : ℕ) (p : Text) → Calm (post_attr h p)
unfolding post_attr
Calm-post_attr h p = search (step_rules, Calm-stat_path) depth 8

pub Calm-enter_handle : (be : Backend) (name : Text) (a : Fattr3) → Calm (enter_handle be name a)
unfolding enter_handle
Calm-enter_handle be name a = search step_rules depth 12

-- The rules for `search`.
pub ruleset calm_rules = (step_rules, Calm-stat_path, Calm-post_attr, Calm-enter_handle)

module _ (os : Os) where
  -- An operating system that answers as documented.
  pub record IsDocumented : Type 0 where
    pub answers : (c : Call) (w : os.World) → Documented c (os.perform c w).0
