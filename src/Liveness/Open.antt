-- ===== src/Liveness/Open.antt =====
-- nfs3/allunix.go: panics in Read, Write and Commit.
use gonfs.Common.{
  ℕ, zero, suc, ◌^◌, ◌<◌, ◌≡◌, subst, Bool, true, false, Text, Option, none, some, length, ◌==◌,
  if◌then◌else◌, arith,
}
use gonfs.Common.Int.{ℤ, pos, int64}
use gonfs.Os.{Result, ok, err, OsError, ReadError, nil, eof, failed, read_at, write_at}
use gonfs.Backend.Base.{Backend}
use gonfs.Backend.Io
use gonfs.Types.Args.{StableHow}
use gonfs.Types.Attr.{PreOpAttr}
use gonfs.Liveness.Calm.{Calm, calm_rules, Documented, IsErrno, Calm-bind, Calm-perform_bind}

int64-pos : (v : ℕ) → v < 2 ^ 63 → int64 v ≡ pos v
int64-pos v h = ground arith

-- The error of a Read or a Write, if any, is a syscall.Errno.
abbrev ReadErrno : Result (Text × ℕ × Bool) → Type 0
ReadErrno (ok x) = Unit
ReadErrno (err e) = IsErrno e

abbrev WriteErrno : Option OsError → Type 0
WriteErrno none = Unit
WriteErrno (some e) = IsErrno e

if-ReadErrno :
    (b : Bool) (e : OsError) (x : Text × ℕ × Bool)
    → IsErrno e
    → ReadErrno (if b then err e else ok x)
if-ReadErrno true e x d = d
if-ReadErrno false e x d = tt

read_outcome-ReadErrno :
    (fd n o : ℕ) (z : ℤ) (bytes : Text) (e : ReadError)
    → z ≡ pos o
    → Documented (read_at fd n z) (bytes, e)
    → ReadErrno (Io.read_outcome n bytes e)
unfolding Io.read_outcome
read_outcome-ReadErrno fd n o z bytes nil at d = tt
read_outcome-ReadErrno fd n o z bytes eof at d = tt
read_outcome-ReadErrno fd n o z bytes (failed e) at d =
    if-ReadErrno (length bytes == 0) e _
      (subst (λ y. Documented (read_at fd n y) (bytes, failed e)) at d).1

write_error-WriteErrno :
    (fd o n : ℕ) (z : ℤ) (bytes : Text) (e : Option OsError)
    → z ≡ pos o
    → Documented (write_at fd bytes z) (n, e)
    → WriteErrno (Io.write_error n e)
write_error-WriteErrno fd o zero z bytes none at d = tt
write_error-WriteErrno fd o zero z bytes (some e) at d =
    (subst (λ y. Documented (write_at fd bytes y) (0, some e)) at d).1
write_error-WriteErrno fd o (suc n) z bytes e at d = tt

module _ (be : Backend) (h : ℕ) where
  answer_read-Calm :
      (name : Text) (n : ℕ) (r : Result (Text × ℕ × Bool))
      → ReadErrno r
      → Calm (Io.answer_read h name n r)
  answer_read-Calm name n (ok (c, k, e)) d = search calm_rules depth 12
  answer_read-Calm name n (err e) d = search calm_rules depth 12

  read_open-Calm :
      (name : Text) (offset count fd : ℕ)
      → offset < 2 ^ 63
      → Calm (Io.read_open h name offset count fd)
  unfolding Io.read_open
  read_open-Calm name offset count fd small =
      Calm-perform_bind (read_at fd (Io.clamp_count count) (int64 offset)) _ (λ (bytes, e) d.
        Calm-bind _ _
          (answer_read-Calm name (Io.clamp_count count) _ (
            read_outcome-ReadErrno fd (Io.clamp_count count) offset (int64 offset) bytes e
              (int64-pos offset small) d))
          (λ r. search calm_rules depth 8))

  pub read-Calm : (offset count : ℕ) → offset < 2 ^ 63 → Calm (Io.read h offset count)
  unfolding Io.read
  read-Calm offset count small = search (calm_rules, read_open-Calm) depth 24

  commit_level-Calm : (how : StableHow) (fd : ℕ) → Calm (Io.commit_level how fd)
  unfolding Io.commit_level
  commit_level-Calm StableHow.unstable fd = search calm_rules depth 12
  commit_level-Calm _ fd = search calm_rules depth 12

  answer_write-Calm :
      (name : Text) (pre : PreOpAttr) (how : StableHow) (fd n : ℕ) (e : Option OsError)
      → WriteErrno e
      → Calm (Io.answer_write be h name pre how fd n e)
  answer_write-Calm name pre how fd n none d = search (calm_rules, commit_level-Calm) depth 12
  answer_write-Calm name pre how fd n (some e) d = search calm_rules depth 12

  write_open-Calm :
      (name : Text) (pre : PreOpAttr) (offset : ℕ) (how : StableHow) (bytes : Text) (fd : ℕ)
      → offset < 2 ^ 63
      → Calm (Io.write_open be h name pre offset how bytes fd)
  unfolding Io.write_open
  write_open-Calm name pre offset how bytes fd small =
      Calm-perform_bind (write_at fd bytes (int64 offset)) _ (λ (n, e) d.
        Calm-bind _ _
          (answer_write-Calm name pre how fd n _
            (write_error-WriteErrno fd offset n (int64 offset) bytes e (int64-pos offset small) d))
          (λ r. search calm_rules depth 8))

  pub write-Calm :
      (offset count : ℕ) (how : StableHow) (bytes : Text)
      → offset < 2 ^ 63
      → Calm (Io.write be h offset count how bytes)
  unfolding Io.write
  write-Calm offset count how bytes small = search (calm_rules, write_open-Calm) depth 24

  pub commit-Calm : Calm (Io.commit be h)
  unfolding Io.commit
  commit-Calm = search calm_rules depth 24
