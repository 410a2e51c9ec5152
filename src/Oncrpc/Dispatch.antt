-- ===== src/Oncrpc/Dispatch.antt =====
-- oncrpc/servercodec.go: which service a call gets, by the rules of RFC 5531 on replies.
use gonfs.Common.{
  ℕ, zero, suc, ◌+◌, ◌<◌, ◌≡◌, ◌≢◌, ◌⊎◌, inl, inr, refl, ap, ◌∙◌, false, List, [], ◌∷◌, none, some,
  get_elem?, Bool-cases, ==_false, ◌==◌, arith,
}
use gonfs.Oncrpc.Message.{ProcEntry}
use gonfs.Oncrpc.ServerCodec.{find_program}

-- Entry i of the table is e, the first of its program.
abbrev pub IsFirst : ℕ → List ProcEntry → ℕ → ProcEntry → Type 0
IsFirst program table i e =
    (get_elem? table i ≡ some e)
    × (program ≡ e.program)
    × ((j : ℕ) (f : ProcEntry) → j < i → get_elem? table j ≡ some f → program ≢ f.program)

abbrev pub IsAbsent : ℕ → List ProcEntry → Type 0
IsAbsent program table = (j : ℕ) (f : ProcEntry) → get_elem? table j ≡ some f → program ≢ f.program

-- What is first in a longer table.
IsFirst-tail :
    {program i : ℕ} {e f : ProcEntry} (table : List ProcEntry)
    → IsFirst program (f ∷ table) (suc i) e
    → IsFirst program table i e
IsFirst-tail table (at, same, before) = (at, same, λ j g h x. before (suc j) g (omega arith) x)

pub tail-IsFirst :
    {program i : ℕ} {e f : ProcEntry} (table : List ProcEntry)
    → program ≢ f.program
    → IsFirst program table i e
    → IsFirst program (f ∷ table) (suc i) e
tail-IsFirst {program} {i} {e} {f} table ne (at, same, before) = (at, same, earlier)
  where
    inner : {a b : ProcEntry} → some a ≡ some b → b ≡ a
    inner h = cc

    earlier :
        (j : ℕ) (g : ProcEntry) → j < suc i → get_elem? (f ∷ table) j ≡ some g → program ≢ g.program
    earlier zero g h x = λ same_g. ne (same_g ∙ ap (λ r. r.program) (inner x))
    earlier (suc j) g h x = before j g (omega arith) x

pub find-first :
    (program : ℕ) (table : List ProcEntry) (i k : ℕ) (e : ProcEntry)
    → IsFirst program table i e
    → find_program program table k ≡ some (k + i, e)
unfolding find_program
find-first program [] i k e (at, same, before) = absurd (cc)
find-first program (f ∷ table) zero k e (at, same, before) = grind arith
find-first program (f ∷ table) (suc i) k e h =
    rw (differs, find-first program table i (k + 1) e (IsFirst-tail table h))
      (ap (λ n. some (n, e)) (omega arith))
  where
    ne : program ≢ f.program
    ne = h.2 0 f (omega arith) refl

    differs : (program == f.program) ≡ false
    differs = ==_false program f.program ne

pub find-absent :
    (program : ℕ) (table : List ProcEntry) (k : ℕ)
    → IsAbsent program table
    → find_program program table k ≡ none
unfolding find_program
find-absent program [] k h = refl
find-absent program (f ∷ table) k h =
    rw (differs, find-absent program table (k + 1) (λ j g x. h (suc j) g x)) refl
  where
    ne : program ≢ f.program
    ne = h 0 f refl

    differs : (program == f.program) ≡ false
    differs = ==_false program f.program ne

-- A program is in the table or not.
pub find_program-cases :
    (program : ℕ) (table : List ProcEntry)
    → IsAbsent program table ⊎ ((i : ℕ) × (e : ProcEntry) × IsFirst program table i e)
find_program-cases program [] = inl (λ j f x. absurd (cc))
find_program-cases program (f ∷ table) = elim (Bool-cases (program == f.program)) [
  | inl y ↦ inr (0, f, (refl, ground arith, λ j g h. absurd (omega arith)))
  | inr n ↦ elim (find_program-cases program table) [
    | inl none_of ↦ inl (absent_tail n none_of)
    | inr (i, e, h) ↦ inr (suc i, e, tail-IsFirst table (ground arith) h)
  ]
]
  where
    absent_tail :
        (program == f.program) ≡ false → IsAbsent program table → IsAbsent program (f ∷ table)
    absent_tail n h zero g x = grind arith
    absent_tail n h (suc j) g x = h j g x
