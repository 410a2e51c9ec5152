-- ===== src/Oncrpc/Verdicts.antt =====
-- oncrpc/servercodec.go: which service a call gets, by the rules of RFC 5531 on replies.
use gonfs.Common.{
  ℕ, zero, suc, ◌<◌, ◌≤◌, ◌≡◌, ◌≢◌, ◌↔◌, inl, inr, refl, sym, ap, ◌∙◌, subst, Text, List, [], ◌∷◌,
  Option, none, some, length, get_elem?, Bool-cases, Option-cases, ==_false, ==_true, ltb, ◌==◌,
  arith,
}
use gonfs.Oncrpc.Fault
use gonfs.Oncrpc.Message.{ProcEntry, CallBody}
use gonfs.Oncrpc.Dispatch.{IsFirst, IsAbsent, find-first, find-absent, find_program-cases}
use gonfs.Oncrpc.ServerCodec.{find_program, choose_procedure, select_method}

-- The header can be served: version 2 of RPC, and no or Unix credentials.
abbrev pub IsServed : CallBody → Type 0
IsServed call = (call.rpc_version ≡ 2) × (call.cred.flavor ≤ 1)

-- The service for each kind of call.
pub data Verdict (table : List ProcEntry) (call : CallBody) : Text → Type 0 where
  other_rpc : call.rpc_version ≢ 2 → Verdict table call Fault.rpc_mismatch
  other_flavor : call.rpc_version ≡ 2 → 1 < call.cred.flavor → Verdict table call Fault.auth_error
  absent : IsServed call → IsAbsent call.program table → Verdict table call Fault.prog_unavail
  other_version :
      {i : ℕ} {e : ProcEntry}
      → IsServed call
      → IsFirst call.program table i e
      → call.version ≢ e.version
      → Verdict table call Fault.prog_mismatch
  out_of_range :
      {i : ℕ} {e : ProcEntry}
      → IsServed call
      → IsFirst call.program table i e
      → call.version ≡ e.version
      → length e.proc_list ≤ call.procedure
      → Verdict table call Fault.proc_unavail
  offered :
      {i : ℕ} {e : ProcEntry} {service : Text}
      → IsServed call
      → IsFirst call.program table i e
      → call.version ≡ e.version
      → get_elem? e.proc_list call.procedure ≡ some service
      → Verdict table call service

none-out {ℓ} : {A : Type ℓ} (xs : List A) (n : ℕ) → length xs ≤ n → get_elem? xs n ≡ none
none-out [] n h = refl
none-out (x ∷ xs) zero h = absurd (omega arith)
none-out (x ∷ xs) (suc n) h = none-out xs n (omega arith)

out-none {ℓ} : {A : Type ℓ} (xs : List A) (n : ℕ) → get_elem? xs n ≡ none → length xs ≤ n
out-none [] n h = omega arith
out-none (x ∷ xs) zero h = absurd (cc)
out-none (x ∷ xs) (suc n) h = omega (arith, out-none xs n h)

pub served-select :
    (table : List ProcEntry) (call : CallBody) (current : Option ℕ)
    → IsServed call
    → select_method table call current
      ≡ choose_procedure call current (find_program call.program table 0)
unfolding select_method
served-select table call current (v, f) = ground arith

select_method-only :
    (table : List ProcEntry) (call : CallBody) (current : Option ℕ) (service : Text)
    → Verdict table call service
    → (select_method table call current).0 ≡ service
unfolding select_method
select_method-only table call current service (other_rpc ne) =
    rw (==_false call.rpc_version 2 ne) refl
select_method-only table call current service (other_flavor v f) = ground arith
select_method-only table call current service (absent served none_of) =
    rw (served-select table call current served, find-absent call.program table 0 none_of) refl
select_method-only table call current service (other_version {i} {e} served first ne) =
    rw
      (
        served-select table call current served,
        find-first call.program table i 0 e first,
        ==_false call.version e.version ne,
      )
      refl
select_method-only table call current service (out_of_range {i} {e} served first v long) =
    rw
      (
        served-select table call current served,
        find-first call.program table i 0 e first,
        ==_true call.version e.version v,
        none-out e.proc_list call.procedure long,
      )
      refl
select_method-only table call current service (offered {i} {e} served first v at) =
    rw
      (
        served-select table call current served,
        find-first call.program table i 0 e first,
        ==_true call.version e.version v,
        at,
      )
      refl

-- Every call has a verdict.
pub verdict :
    (table : List ProcEntry) (call : CallBody) → (service : Text) × Verdict table call service
verdict table call = elim (Bool-cases (call.rpc_version == 2)) [
  | inr n ↦ (_, other_rpc (ground arith))
  | inl v ↦ elim (Bool-cases (ltb 1 call.cred.flavor)) [
    | inl f ↦ (_, other_flavor (ground arith) (ground arith))
    | inr k ↦ of_program (ground arith, ground arith)
  ]
]
  where
    of_entry :
        IsServed call
        → (i : ℕ) (e : ProcEntry) → IsFirst call.program table i e
        → (service : Text) × Verdict table call service
    of_entry served i e first = elim (Bool-cases (call.version == e.version)) [
      | inr n ↦ (_, other_version served first (ground arith))
      | inl v ↦ elim (Option-cases (get_elem? e.proc_list call.procedure)) [
        | inl none_at ↦ (
          _,
          out_of_range served first (ground arith) (out-none e.proc_list call.procedure none_at),
        )
        | inr (service, at) ↦ (service, offered served first (ground arith) at)
      ]
    ]

    of_program : IsServed call → (service : Text) × Verdict table call service
    of_program served = elim (find_program-cases call.program table) [
      | inl none_of ↦ (_, absent served none_of)
      | inr (i, e, first) ↦ of_entry served i e first
    ]

-- The service that ReadRequestHeader chooses for a call is the one and only service of the call's
-- verdict.
pub select_method-Verdict :
    (table : List ProcEntry) (call : CallBody) (current : Option ℕ) (service : Text)
    → ((select_method table call current).0 ≡ service) ↔ Verdict table call service
select_method-Verdict table call current service = (
  λ chosen.
      subst (λ t. Verdict table call t)
        (sym (select_method-only table call current _ judged.1) ∙ chosen) judged.1,
  select_method-only table call current service,
)
  where
    judged : (s : Text) × Verdict table call s
    judged = verdict table call

-- currentProgIndex after a call whose program is in the table.
pub select_method-index :
    (table : List ProcEntry) (call : CallBody) (current : Option ℕ) (i : ℕ) (e : ProcEntry)
    → IsServed call
    → IsFirst call.program table i e
    → (select_method table call current).1 ≡ some i
select_method-index table call current i e served first =
    rw (served-select table call current served, find-first call.program table i 0 e first)
      (ap some (omega arith))
