-- ===== src/Replies/Contents.antt =====
-- nfs3/allunix.go: what Read sends of a file.
use gonfs.Common.{
  ℕ, ◌-◌, ◌^◌, ◌<◌, ◌≤◌, ◌≡◌, refl, sym, ap, ◌∙◌, subst, Bool, true, false, Text, [], ◌∷◌, length,
  take, drop, replicate, ltb, ◌==◌, if◌then◌else◌, length-append, length-replicate, length-take,
  take_prefix, arith,
}
use gonfs.Common.Int.{ℤ, pos, int64}
use gonfs.Os.{Os, Errno, Result, ok, err, ReadError, nil, eof, read_at, close}
use gonfs.Types.Status.{is_ok}
use gonfs.Types.Reply.{ReadRes}
use gonfs.Prog.{ret, ◌>>◌, perform}
use gonfs.Prog.Run.{Handles, done, Server, run}
use gonfs.Prog.Ends.{
  Ends, Answers, Answering, Ended, Ends-run, Ends-bind, Ends-perform_bind, ends_rules,
}
use gonfs.Backend.Io
use gonfs.Backend.Ends.{Ends-stat_path, Ends-post_attr}
use gonfs.Backend.Errors.{get_read_err}
use gonfs.Replies.Errors.{get_read_err-fails}
use gonfs.Replies.Named.{When, failed, taken}

-- The n bytes of a file from an offset, as far as it goes.
abbrev pub part : Text → ℕ → ℕ → Text
part file offset n = take n (drop offset file)

-- What os.File.ReadAt documents, where every file that is read holds `file`: the bytes there are,
-- and io.EOF if they are fewer than wanted.
abbrev pub Reads : Text → Answers
Reads file (read_at fd n (pos o)) (bytes, e) =
    (bytes ≡ part file o n) × (e ≡ (if ltb (length (part file o n)) n then eof else nil))
Reads file c r = Unit

-- The reply's Data, Count and Eof for n bytes wanted, of which p are there.
abbrev pub IsPart : Text → ℕ → Text → ℕ → Bool → Type 0
IsPart p n contents count at_end =
    (take count contents ≡ p)
    × (count ≡ length p)
    × (at_end ≡ ltb (length p) n)
    × (length contents ≤ n)

abbrev pub IsSent : Text → ℕ → Result (Text × ℕ × Bool) → Type 0
IsSent p n (ok (contents, count, at_end)) = IsPart p n contents count at_end
IsSent p n (err e) = Unit

length-read_buffer : (n : ℕ) (p : Text) → length p ≤ n → length (Io.read_buffer n p) ≤ n
unfolding Io.read_buffer
length-read_buffer n p h =
    omega (
      arith,
      length-append p (replicate (n - length p) 0),
      length-replicate {A = ℕ} (n - length p) 0,
    )

take-read_buffer : (n : ℕ) (p : Text) → take (length p) (Io.read_buffer n p) ≡ p
unfolding Io.read_buffer
take-read_buffer n p = take_prefix p (replicate (n - length p) 0)

no_bytes : (p : Text) → length p ≡ 0 → p ≡ []
no_bytes [] h = refl
no_bytes (x ∷ p) h = absurd (omega arith)

-- The buffer is dropped where no byte was read.
dropped-IsPart :
    (n : ℕ) (p : Text)
    → length p ≤ n
    → (length p == 0) ≡ true
    → IsPart p n [] (length p) (ltb (length p) n)
dropped-IsPart n p h e =
    (ap (λ k. take k []) none_read ∙ sym (no_bytes p none_read), refl, refl, omega arith)
  where
    none_read : length p ≡ 0
    none_read = ground arith

kept-IsPart :
    (n : ℕ) (p : Text)
    → length p ≤ n
    → IsPart p n (Io.read_buffer n p) (length p) (ltb (length p) n)
kept-IsPart n p h = (take-read_buffer n p, refl, refl, length-read_buffer n p h)

if-IsPart :
    (b : Bool) (n : ℕ) (p : Text)
    → length p ≤ n
    → (length p == 0) ≡ b
    → IsPart p n (if b then [] else Io.read_buffer n p) (length p) (ltb (length p) n)
if-IsPart true n p h e = dropped-IsPart n p h e
if-IsPart false n p h e = kept-IsPart n p h

read_outcome-IsSent :
    (n : ℕ) (p : Text)
    → length p ≤ n
    → IsSent p n (Io.read_outcome n p (if ltb (length p) n then eof else nil))
unfolding Io.read_outcome
read_outcome-IsSent n p h = split (ltb (length p) n) refl
  where
    split :
        (b : Bool)
        → ltb (length p) n ≡ b
        → IsSent p n (Io.read_outcome n p (if b then eof else nil))
    split true e = subst (IsPart p n _ (length p)) e (if-IsPart (length p == 0) n p h refl)
    split false e = subst (IsPart p n _ (length p)) e (kept-IsPart n p h)

pub int64-pos : (v : ℕ) → v < 2 ^ 63 → int64 v ≡ pos v
int64-pos v h = ground arith

pub read_at-IsSent :
    (file : Text) (fd n o : ℕ) (z : ℤ) (bytes : Text) (e : ReadError)
    → z ≡ pos o
    → Reads file (read_at fd n z) (bytes, e)
    → IsSent (part file o n) n (Io.read_outcome n bytes e)
read_at-IsSent file fd n o z bytes e at d =
    rw (there.0, there.1) (read_outcome-IsSent n (part file o n) (length-take n (drop o file)))
  where
    there : Reads file (read_at fd n (pos o)) (bytes, e)
    there = subst (λ y. Reads file (read_at fd n y) (bytes, e)) at d

module _ (file : Text) (offset count : ℕ) (small : offset < 2 ^ 63) where
  abbrev wanted : ℕ
  wanted = Io.clamp_count count

  -- A reply with success sends the part of the file that was asked for.
  abbrev pub SendsPart : ReadRes → Type 0
  SendsPart r = When (is_ok r.status) (
      IsPart (part file offset (Io.clamp_count count)) (Io.clamp_count count) r.contents r.count
        r.eof)

  read_failed : (e : Errno) (P : Type 0) → When (is_ok (get_read_err e)) P
  read_failed e P = failed _ P (get_read_err-fails e)

  close-Ends :
      (r : ReadRes) (fd : ℕ) (m : Handles)
      → SendsPart r
      → Ends (Reads file) (Unit {0}) (λ x n. SendsPart x) (do perform (close fd); ret r) m
  close-Ends r fd m s = search ends_rules depth 8

  answer_read-Ends :
      (h : ℕ) (name : Text) (fd : ℕ) (m : Handles) (o : Result (Text × ℕ × Bool))
      → IsSent (part file offset wanted) wanted o
      → Ends
          (Reads file)
          (Unit {0})
          (λ r n.
            Ends (Reads file) (Unit {0}) (λ x k. SendsPart x) (do perform (close fd); ret r) n)
          (Io.answer_read h name wanted o)
          m
  answer_read-Ends h name fd m (ok (c, k, e)) s =
      search (ends_rules, Ends-post_attr, close-Ends) depth 12
  answer_read-Ends h name fd m (err e) s =
      search (ends_rules, Ends-post_attr, close-Ends, read_failed) depth 12

  read_open-Ends :
      (h : ℕ) (name : Text) (fd : ℕ) (m : Handles)
      → Ends (Reads file) (Unit {0}) (λ x k. SendsPart x) (Io.read_open h name offset count fd) m
  unfolding Io.read_open
  read_open-Ends h name fd m =
      Ends-perform_bind (read_at fd wanted (int64 offset)) _ (λ (bytes, e) d. Ends-bind _ _ (
        answer_read-Ends h name fd m _
          (read_at-IsSent file fd wanted offset (int64 offset) bytes e (int64-pos offset small) d)))

  read-Ends :
      (h : ℕ) (m : Handles)
      → Ends (Reads file) (Unit {0}) (λ x k. SendsPart x) (Io.read h offset count) m
  unfolding Io.read
  read-Ends h m =
      search (ends_rules, Ends-stat_path, Ends-post_attr, read_open-Ends, read_failed) depth 24

  -- Where ReadAt answers from a file as package os documents, and the offset is one of an int64: a
  -- Read that succeeds sends the bytes of the file from the offset, as many as were asked for up to
  -- the largest transfer, their number, and Eof where there are fewer; the data sent is no longer
  -- than what was asked for.
  pub read-SendsPart :
      (os : Os) (s t : Server os) (h : ℕ) (r : ReadRes)
      → Answering os (Reads file) (Unit {0}) (λ x k. SendsPart x)
      → run os (Io.read h offset count) s ≡ (done r, t)
      → is_ok r.status ≡ true
      → IsPart
          (part file offset (Io.clamp_count count))
          (Io.clamp_count count)
          r.contents
          r.count
          r.eof
  read-SendsPart os s t h r answering e o = taken _ _ o (
      subst (Ended (Unit {0}) (λ x k. SendsPart x)) e (
        Ends-run os (Reads file) (Unit {0}) (λ x k. SendsPart x) answering _ s
          (read-Ends h s.handles)))
