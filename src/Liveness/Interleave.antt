-- ===== src/Liveness/Interleave.antt =====
-- Requests that take turns, as in Safety/Interleave: a panic in one of them would end the process.
use gonfs.Common.{ℕ, ◌≡◌, ◌≢◌, subst, ◌==◌, Bool-cases, inl, inr}
use gonfs.Os.{Os}
use gonfs.Prog.{Prog, crash, get, set, delete, call}
use gonfs.Backend.Base.{Backend}
use gonfs.Svc.{Reply}
use gonfs.Safety.Interleave
use gonfs.Safety.Interleave.{System, Step, arrive, look, store, forget, enter}
use gonfs.Liveness.Calm.{Calm, Quiet, IsDocumented}
use gonfs.Liveness.Serve.{IsPlain, serve-Calm}

module _ (os : Os) (be : Backend) where
  -- A request that arrives is plain.
  abbrev pub ArrivesPlain : {s t : System os be} → Step os be s t → Type 0
  ArrivesPlain (arrive i a r e) = IsPlain r
  ArrivesPlain _ = Unit

  pub data PlainReach (s : System os be) : System os be → Type 0 where
    start : PlainReach s s
    next :
        {t u : System os be}
        → PlainReach s t
        → (step : Step os be t u) → ArrivesPlain step
        → PlainReach s u

  abbrev pub IsCalm : System os be → Type 0
  IsCalm s = (i : ℕ) → Calm (s.threads i)

  resume-Calm :
      (ts : ℕ → Prog Reply) (i : ℕ) (p : Prog Reply)
      → ((j : ℕ) → Calm (ts j))
      → Calm p
      → (j : ℕ) → Calm (Interleave.resume os be ts i p j)
  resume-Calm ts i p f g j = elim (Bool-cases (i == j)) [ inl e ↦ rw e g | inr e ↦ rw e (f j) ]

  -- What is known of the rest of a thread, once its next step is known.
  owed : (s : System os be) (i : ℕ) (p : Prog Reply) → IsCalm s → s.threads i ≡ p → Quiet p
  owed s i p v e = (subst (λ q. Calm q) e (v i)).quiet

  Step-IsCalm :
      {s t : System os be}
      → IsDocumented os
      → (step : Step os be s t) → ArrivesPlain step
      → IsCalm s
      → IsCalm t
  unfolding Quiet
  Step-IsCalm {s} d (arrive i a r e) plain v = resume-Calm s.threads i _ v (serve-Calm be r plain)
  Step-IsCalm {s} d (look i h k e) plain v =
      resume-Calm s.threads i _ v (record { quiet = owed s i (get h k) v e (s.handles h) })
  Step-IsCalm {s} d (store i h p k e) plain v =
      resume-Calm s.threads i k v (record { quiet = owed s i (set h p k) v e })
  Step-IsCalm {s} d (forget i h k e) plain v =
      resume-Calm s.threads i k v (record { quiet = owed s i (delete h k) v e })
  Step-IsCalm {s} d (enter i c k e) plain v =
      resume-Calm s.threads i _ v
        (record { quiet = owed s i (call c k) v e _ (d.answers c s.world) })

  PlainReach-IsCalm : {s t : System os be} → IsDocumented os → IsCalm s → PlainReach s t → IsCalm t
  PlainReach-IsCalm d v start = v
  PlainReach-IsCalm d v (next r step plain) = Step-IsCalm d step plain (PlainReach-IsCalm d v r)

  -- Where the operating system answers as documented, and no request in progress at first can panic:
  -- no interleaving of any number of requests but Readdir, whose handles are of at least 8 bytes and
  -- whose offsets, of Read and Write, are below 2 ^ 63, brings one of them to a panic.
  pub PlainReach-ne-crash :
      {s t : System os be}
      → IsDocumented os
      → IsCalm s
      → PlainReach s t
      → (i : ℕ) → t.threads i ≢ crash
  unfolding Quiet
  PlainReach-ne-crash {s} {t} d v r i e = owed t i crash (PlainReach-IsCalm d v r) e
