-- ===== src/Oncrpc/Calls.antt =====
-- oncrpc: the call that a client's WriteRequest sends for a service, and the server's choice for it.
use gonfs.Common.{
  ℕ, zero, suc, ◌+◌, ◌^◌, ◌<◌, ◌≡◌, ◌≢◌, ◌⊎◌, inl, inr, refl, sym, ap, ◌∙◌, subst, Bool, true,
  false, Text, List, [], ◌∷◌, if◌then◌else◌, Option, none, some, get_elem?, All, All-get_elem?,
  text_eq, text_eq_iff, arith,
}
use gonfs.Oncrpc.Message.{ProcEntry}
use gonfs.Oncrpc.Dispatch.{IsFirst, tail-IsFirst}
use gonfs.Oncrpc.Verdicts.{offered, select_method-Verdict}
use gonfs.Oncrpc.ServerCodec.{select_method}
use gonfs.Oncrpc.ClientCodec.{find_proc, find_entry, note_entry, call_body}

-- No two entries have one program.
abbrev pub IsDistinct : List ProcEntry → Type 0
IsDistinct [] = Unit
IsDistinct (e ∷ table) = All (λ f. f.program ≢ e.program) table × IsDistinct table

-- Procedure n of the entry e, which is in the table, is the service.
abbrev pub Offers : List ProcEntry → Text → ProcEntry × ℕ → Type 0
Offers table service (e, n) =
    ((i : ℕ) × (get_elem? table i ≡ some e)) × (get_elem? e.proc_list n ≡ some service)

abbrev Named : List Text → Text → ℕ → Option ℕ → Type 0
Named procs service j none = Unit
Named procs service j (some m) = (n : ℕ) × (m ≡ j + n) × (get_elem? procs n ≡ some service)

find_proc-Named :
    (service : Text) (procs : List Text) (j : ℕ) → Named procs service j (find_proc service procs j)
unfolding find_proc
find_proc-Named service [] j = tt
find_proc-Named service (proc ∷ procs) j =
    split (text_eq service proc) refl (find_proc-Named service procs (j + 1))
  where
    later : (o : Option ℕ) → Named procs service (j + 1) o → Named (proc ∷ procs) service j o
    later none h = tt
    later (some m) (n, count, at) = (suc n, omega arith, at)

    split :
        (b : Bool)
        → text_eq service proc ≡ b
        → Named procs service (j + 1) (find_proc service procs (j + 1))
        → Named (proc ∷ procs) service j (if b then some j else find_proc service procs (j + 1))
    split true y rest = (0, omega arith, ap some (sym ((text_eq_iff service proc).0 y)))
    split false n rest = later _ rest

abbrev Entered : List ProcEntry → Text → Option (ProcEntry × ℕ) → Type 0
Entered table service none = Unit
Entered table service (some found) = Offers table service found

later-Entered :
    (e : ProcEntry) (table : List ProcEntry) (service : Text) (o : Option (ProcEntry × ℕ))
    → Entered table service o
    → Entered (e ∷ table) service o
later-Entered e table service none h = tt
later-Entered e table service (some (f, n)) ((i, at), offered_at) = ((suc i, at), offered_at)

-- Where no entry is found the loop keeps what it had.
find_entry-Entered :
    (service : Text) (table : List ProcEntry) (found : Option (ProcEntry × ℕ))
    → (find_entry service table found ≡ found)
      ⊎ Entered table service (find_entry service table found)
unfolding find_entry
find_entry-Entered service [] found = inl refl
find_entry-Entered service (e ∷ table) found =
    split (find_proc service e.proc_list 0) (find_proc-Named service e.proc_list 0)
      (λ o. find_entry-Entered service table o)
  where
    entered :
        (m n : ℕ)
        → m ≡ n
        → get_elem? e.proc_list n ≡ some service
        → Entered (e ∷ table) service (some (e, m))
    entered m n same at = ((0, refl), ap (λ k. get_elem? e.proc_list k) same ∙ at)

    split :
        (o : Option ℕ)
        → Named e.proc_list service 0 o
        → ((p : Option (ProcEntry × ℕ))
            → (find_entry service table p ≡ p) ⊎ Entered table service (find_entry service table p))
        → (find_entry service table (note_entry o e found) ≡ found)
          ⊎ Entered (e ∷ table) service (find_entry service table (note_entry o e found))
    split none h noted = elim (noted found) [
      | inl kept ↦ inl kept
      | inr there ↦ inr (later-Entered e table service _ there)
    ]
    split (some m) (n, count, at) noted = elim (noted (some (e, m))) [
      | inl kept ↦
          inr (subst (Entered (e ∷ table) service) (sym kept) (entered m n (omega arith) at))
      | inr there ↦ inr (later-Entered e table service _ there)
    ]

pub find_entry-Offers :
    (service : Text) (table : List ProcEntry) (e : ProcEntry) (n : ℕ)
    → find_entry service table none ≡ some (e, n)
    → Offers table service (e, n)
find_entry-Offers service table e n h = elim (find_entry-Entered service table none) [
  | inl kept ↦ absurd (cc)
  | inr there ↦ subst (Entered table service) h there
]

-- With distinct programs each entry is the first of its program.
distinct-IsFirst :
    (table : List ProcEntry) (i : ℕ) (e : ProcEntry)
    → IsDistinct table
    → get_elem? table i ≡ some e
    → IsFirst e.program table i e
distinct-IsFirst [] i e d at = absurd (cc)
distinct-IsFirst (f ∷ table) zero e d at = (at, refl, λ j g h. absurd (omega arith))
distinct-IsFirst (f ∷ table) (suc i) e (differs, d) at =
    tail-IsFirst table (All-get_elem? (λ g. g.program ≢ f.program) table i e differs at)
      (distinct-IsFirst table i e d at)

-- The server chooses the service for which a client with the same table made the call, whatever
-- currentProgIndex is: no two entries have one program, and there are at most 2 ^ 32 procedures.
pub select_method-call_body :
    (table : List ProcEntry) (service : Text) (e : ProcEntry) (n : ℕ) (current : Option ℕ)
    → IsDistinct table
    → find_entry service table none ≡ some (e, n)
    → n < 2 ^ 32
    → (select_method table (call_body e n) current).0 ≡ service
select_method-call_body table service e n current d found small =
    (select_method-Verdict table (call_body e n) current service).1 (
      offered (refl, omega arith) (distinct-IsFirst table (there.0).0 e d (there.0).1) refl
        (ap (λ k. get_elem? e.proc_list k) (omega arith) ∙ there.1))
  where
    there : Offers table service (e, n)
    there = find_entry-Offers service table e n found
