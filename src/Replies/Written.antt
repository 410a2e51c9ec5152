-- ===== src/Replies/Written.antt =====
-- nfs3/allunix.go: what Write says of the data that it was sent.
use gonfs.Common.{
  ℕ, zero, suc, ◌≤◌, ◌≡◌, refl, subst, Text, Option, none, some, true, length, arith,
}
use gonfs.Common.Int.{int64}
use gonfs.Os.{Os, Errno, OsError, write_at, close}
use gonfs.Types.Status.{is_ok}
use gonfs.Types.Attr.{PreOpAttr}
use gonfs.Types.Args.{StableHow}
use gonfs.Types.Reply.{WriteRes}
use gonfs.Prog.{ret, ◌>>◌, perform}
use gonfs.Prog.Run.{Handles, done, Server, run}
use gonfs.Prog.Ends.{
  Ends, Answers, Answering, Ended, Ends-run, Ends-bind, Ends-perform_bind, ends_rules,
}
use gonfs.Backend.Base.{Backend, put_uint64}
use gonfs.Backend.Io
use gonfs.Backend.Ends.{Ends-stat_path, Ends-post_attr}
use gonfs.Backend.Errors.{get_write_err}
use gonfs.Replies.Errors.{get_write_err-fails}
use gonfs.Replies.Named.{When, failed, taken}

-- What os.File.WriteAt documents: it writes all of the data, or fewer bytes and gives an error.
abbrev pub Writes : Answers
Writes (write_at fd bytes o) (n, e) = (n ≤ length bytes) × (e ≡ none → n ≡ length bytes)
Writes c r = Unit

-- A number of bytes written, of which there are none only where there was nothing to write.
abbrev pub IsProgress : Text → ℕ → Type 0
IsProgress bytes n = (n ≤ length bytes) × (n ≡ 0 → length bytes ≡ 0)

abbrev MayProgress : Text → ℕ → Option OsError → Type 0
MayProgress bytes n none = IsProgress bytes n
MayProgress bytes n (some e) = Unit

write_error-MayProgress :
    (bytes : Text) (n : ℕ) (e : Option OsError)
    → n ≤ length bytes
    → (e ≡ none → n ≡ length bytes)
    → MayProgress bytes n (Io.write_error n e)
write_error-MayProgress bytes zero none le all = (omega arith, λ h. omega (arith, all refl))
write_error-MayProgress bytes zero (some e) le all = tt
write_error-MayProgress bytes (suc n) e le all = (omega arith, λ h. absurd (omega arith))

module _ (be : Backend) (bytes : Text) where
  -- A reply with success counts progress, and carries the verifier of this run of the server.
  abbrev pub Progressed : WriteRes → Type 0
  Progressed r =
      When (is_ok r.status) (IsProgress bytes r.count × (r.verf ≡ put_uint64 be.server_start_time))

  write_failed : (e : Errno) (P : Type 0) → When (is_ok (get_write_err e)) P
  write_failed e P = failed _ P (get_write_err-fails e)

  close-Ends :
      (r : WriteRes) (fd : ℕ) (m : Handles)
      → Progressed r
      → Ends Writes (Unit {0}) (λ x k. Progressed x) (do perform (close fd); ret r) m
  close-Ends r fd m s = search ends_rules depth 8

  commit_level-Ends :
      (Q : StableHow → Handles → Type 0) (how : StableHow) (fd : ℕ) (m : Handles)
      → ((x : StableHow) → Q x m)
      → Ends Writes (Unit {0}) Q (Io.commit_level how fd) m
  unfolding Io.commit_level
  commit_level-Ends Q StableHow.unstable fd m q = search ends_rules depth 8
  commit_level-Ends Q _ fd m q = search ends_rules depth 8

  answer_write-Ends :
      (h : ℕ) (name : Text) (pre : PreOpAttr) (how : StableHow) (fd n : ℕ) (m : Handles)
      (e : Option OsError)
      → MayProgress bytes n e
      → Ends Writes
          (Unit {0})
          (λ r k. Ends Writes (Unit {0}) (λ x l. Progressed x) (do perform (close fd); ret r) k)
          (Io.answer_write be h name pre how fd n e)
          m
  answer_write-Ends h name pre how fd n m none p =
      search (ends_rules, Ends-post_attr, close-Ends, commit_level-Ends) depth 16
  answer_write-Ends h name pre how fd n m (some e) p =
      search (ends_rules, Ends-post_attr, close-Ends, write_failed) depth 12

  write_open-Ends :
      (h : ℕ) (name : Text) (pre : PreOpAttr) (offset : ℕ) (how : StableHow) (fd : ℕ) (m : Handles)
      → Ends Writes
          (Unit {0})
          (λ x k. Progressed x)
          (Io.write_open be h name pre offset how bytes fd)
          m
  unfolding Io.write_open
  write_open-Ends h name pre offset how fd m =
      Ends-perform_bind (write_at fd bytes (int64 offset)) _ (λ (n, e) d.
        Ends-bind _ _
          (answer_write-Ends h name pre how fd n m _ (write_error-MayProgress bytes n e d.0 d.1)))

  write-Ends :
      (h offset count : ℕ) (how : StableHow) (m : Handles)
      → Ends Writes (Unit {0}) (λ x k. Progressed x) (Io.write be h offset count how bytes) m
  unfolding Io.write
  write-Ends h offset count how m =
      search (ends_rules, Ends-stat_path, Ends-post_attr, write_open-Ends, write_failed) depth 24

  -- Where WriteAt answers as package os documents: a Write that succeeds counts at most the bytes of
  -- its data, and none only where there are none; its verifier is the start time of the server.
  pub write-IsProgress :
      (os : Os) (s t : Server os) (h offset count : ℕ) (how : StableHow) (r : WriteRes)
      → Answering os Writes (Unit {0}) (λ x k. Progressed x)
      → run os (Io.write be h offset count how bytes) s ≡ (done r, t)
      → is_ok r.status ≡ true
      → IsProgress bytes r.count × (r.verf ≡ put_uint64 be.server_start_time)
  write-IsProgress os s t h offset count how r answering e o = taken _ _ o (
      subst (Ended (Unit {0}) (λ x k. Progressed x)) e (
        Ends-run os Writes (Unit {0}) (λ x k. Progressed x) answering _ s
          (write-Ends h offset count how s.handles)))
