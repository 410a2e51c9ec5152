-- ===== src/Prog.antt =====
-- What a procedure of the backend does, step by step: a tree whose nodes are the accesses to the
-- shared handle map (each under its lock in nfs3/allunix.go) and the calls of the operating system.
-- `Prog.Run` runs one procedure alone, `Safety.Interleave` runs several at once.
pub mod Run
pub mod Respects
pub mod Ends
pub mod Settled
pub mod Machine
pub mod Makes
use gonfs.Common.{ℕ, Text, Option, none, some}
use gonfs.Os.{Call, Answer, Payload, to_result, Result, ok, err, OsError, sys, plain, Errno}

-- `exit` is log.Fatalf, `crash` is a Go panic.
pub data Prog (A : Type 0) : Type 0 where
  ret : A → Prog A
  exit : Prog A
  crash : Prog A
  get : ℕ → (Option Text → Prog A) → Prog A
  set : ℕ → Text → Prog A → Prog A
  delete : ℕ → Prog A → Prog A
  call : (c : Call) → (Answer c → Prog A) → Prog A

module _ {A B : Type 0} where
  infixl 5 ◌>>=◌ ◌>>◌
  unfoldable pub ◌>>=◌ : Prog A → (A → Prog B) → Prog B
  ret a >>= f = f a
  exit >>= f = exit
  crash >>= f = crash
  get h k >>= f = get h (λ o. k o >>= f)
  set h p k >>= f = set h p (k >>= f)
  delete h k >>= f = delete h (k >>= f)
  call c k >>= f = call c (λ r. k r >>= f)

  abbrev pub ◌>>◌ : Prog A → Prog B → Prog B
  m >> k = m >>= λ _. k

-- be.setValueforHandle, be.deleteHandle
unfoldable pub set_value_for_handle : ℕ → Text → Prog (Unit {0})
set_value_for_handle h p = set h p (ret tt)

unfoldable pub delete_handle : ℕ → Prog (Unit {0})
delete_handle h = delete h (ret tt)

-- A call of package os or syscall.
unfoldable pub perform : (c : Call) → Prog (Answer c)
perform c = call c ret

module _ {A : Type 0} where
  -- if name, found := be.getValuefromHandle(h); found { found name } else { missing }
  abbrev pub on_found : Prog A → (Text → Prog A) → Option Text → Prog A
  on_found missing found none = missing
  on_found missing found (some name) = found name

  unfoldable pub with_path : ℕ → Prog A → (Text → Prog A) → Prog A
  with_path h missing found = get h (on_found missing found)

module _ {A B : Type 0} where
  abbrev pub on_result : (OsError → Prog A) → (B → Prog A) → Result B → Prog A
  on_result failed done (ok b) = done b
  on_result failed done (err e) = failed e

-- if v, err := c; err == nil { done v } else { failed err }
module _ {A : Type 0} where
  unfoldable pub attempt : (c : Call) → (OsError → Prog A) → (Payload c → Prog A) → Prog A
  attempt c failed done = call c (λ r. on_result failed done (to_result c r))

-- err.(syscall.Errno): a panic on any other error.
unfoldable pub errno_of : OsError → Prog Errno
errno_of (sys e) = ret e
errno_of plain = crash
