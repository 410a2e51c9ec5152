-- ===== src/Oncrpc/Unoffered.antt =====
-- oncrpc/clientcodec.go: the error of WriteRequest on a service that the table lacks.
use gonfs.Common.{
  ℕ, zero, suc, ◌+◌, ◌≡◌, ◌≢◌, ◌↔◌, refl, ap, ◌∙◌, Bool, true, false, Text, List, [], ◌∷◌, Option,
  none, some, get_elem?, text_eq, text_eq_refl, if◌then◌else◌, arith,
}
use gonfs.Oncrpc.Message.{ProcEntry, RpcMsg}
use gonfs.Oncrpc.Record.{Writer}
use gonfs.Oncrpc.Calls.{Offers, find_entry-Offers}
use gonfs.Oncrpc.ClientCodec
use gonfs.Oncrpc.ClientCodec.{
  Requested, procedure_unavailable, find_proc, find_entry, note_entry, write_request, call_message,
  call_body,
}

-- No entry has the service.
abbrev pub IsUnoffered : List ProcEntry → Text → Type 0
IsUnoffered table service = (e : ProcEntry) (n : ℕ) → Offers table service (e, n) → ⊥

no_proc :
    (service : Text) (procs : List Text) (j n : ℕ)
    → find_proc service procs j ≡ none
    → get_elem? procs n ≢ some service
unfolding find_proc
no_proc service [] j n h at = absurd (cc)
no_proc service (proc ∷ procs) j n h at =
    split (text_eq service proc) refl h n at (λ k f. no_proc service procs (j + 1) k f)
  where
    inner : {a b : Text} → some a ≡ some b → a ≡ b
    inner h = cc

    split :
        (b : Bool)
        → text_eq service proc ≡ b
        → (if b then some j else find_proc service procs (j + 1)) ≡ none
        → (k : ℕ) → get_elem? (proc ∷ procs) k ≡ some service
        → ((i : ℕ) → find_proc service procs (j + 1) ≡ none → get_elem? procs i ≢ some service)
        → ⊥
    split true t f k e rest = absurd (cc)
    split false t f zero e rest =
        absurd (ground (arith, t, text_eq_refl service, ap (text_eq service) (inner e)))
    split false t f (suc k) e rest = rest k f e

kept_entry :
    (service : Text) (table : List ProcEntry) (x : ProcEntry × ℕ)
    → find_entry service table (some x) ≢ none
unfolding find_entry
kept_entry service [] x h = absurd (cc)
kept_entry service (e ∷ table) x h =
    split (find_proc service e.proc_list 0) h (λ y f. kept_entry service table y f)
  where
    split :
        (o : Option ℕ)
        → find_entry service table (note_entry o e (some x)) ≡ none
        → ((y : ProcEntry × ℕ) → find_entry service table (some y) ≢ none)
        → ⊥
    split none f rest = rest x f
    split (some m) f rest = rest (e, m) f

find_entry-IsUnoffered :
    (service : Text) (table : List ProcEntry)
    → find_entry service table none ≡ none
    → IsUnoffered table service
unfolding find_entry
find_entry-IsUnoffered service [] h e n ((i, at), p) = absurd (cc)
find_entry-IsUnoffered service (f ∷ table) h e n ((i, at), p) =
    split (find_proc service f.proc_list 0) refl h i at
      (λ r k a. find_entry-IsUnoffered service table r e n ((k, a), p))
  where
    inner : {a b : ProcEntry} → some a ≡ some b → a ≡ b
    inner h = cc

    split :
        (o : Option ℕ)
        → find_proc service f.proc_list 0 ≡ o
        → find_entry service table (note_entry o f none) ≡ none
        → (k : ℕ) → get_elem? (f ∷ table) k ≡ some e
        → (find_entry service table none ≡ none → (l : ℕ) → get_elem? table l ≡ some e → ⊥)
        → ⊥
    split none o r zero a rest =
        no_proc service f.proc_list 0 n o (ap (λ x. get_elem? x.proc_list n) (inner a) ∙ p)
    split none o r (suc k) a rest = rest r k a
    split (some m) o r k a rest = kept_entry service table (f, m) r

module _ (w : Writer) (marshal : RpcMsg → Option Text) where
  sent-ne :
      (call param : Option Text) (service : Text) (s : w.State)
      → (ClientCodec.send w marshal call param s).0 ≢ procedure_unavailable service
  sent-ne (some call) (some param) service s h = absurd (cc)
  sent-ne (some call) none service s h = absurd (cc)
  sent-ne none param service s h = absurd (cc)

  -- WriteRequest gives the error of an unavailable procedure exactly where no entry of the table has
  -- the service; it writes nothing then.
  pub write_request-IsUnoffered :
      (table : List ProcEntry) (seq : ℕ) (service : Text) (param : Option Text) (s : w.State)
      → (write_request w marshal table seq service param s ≡ (procedure_unavailable service, s))
        ↔ IsUnoffered table service
  unfolding write_request
  write_request-IsUnoffered table seq service param s = split (find_entry service table none) refl
    where
      split :
          (o : Option (ProcEntry × ℕ))
          → find_entry service table none ≡ o
          → (ClientCodec.send_call w marshal seq service param o s
              ≡ (procedure_unavailable service, s))
            ↔ IsUnoffered table service
      split none f = (λ h. find_entry-IsUnoffered service table f, λ h. refl)
      split (some (e, n)) f = (
        λ h. absurd (
            sent-ne (marshal (call_message seq (call_body e n))) param service s (ap (λ r. r.0) h)),
        λ h. absurd (h e n (find_entry-Offers service table e n f)),
      )
