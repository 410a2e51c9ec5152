-- ===== src/Oncrpc/Reading.antt =====
-- oncrpc/record.go: ReadFullRecord on any input.
use gonfs.Common.{
  ℕ, zero, suc, ◌-◌, ◌<◌, ◌≤◌, ◌≡◌, refl, Bool, true, false, Bool-cases, inl, inr, Text, [], ◌∷◌,
  some, length, length-drop, ltb, arith,
}
use gonfs.Oncrpc.Record
use gonfs.Oncrpc.Record.{
  Received, full, failed, out_of_fuel, read_uint32, read_fragments, read_full_record,
  get_fragment_size, is_last_fragment, max_record_size,
}

abbrev pub is_finished : Received → Bool
is_finished out_of_fuel = false
is_finished _ = true

module _ (grow : ℕ → ℕ → ℕ → ℕ) where
  read_fragment-finished :
      (next : ℕ → Text → Text → Received) (cap : ℕ) (buffer : Text) (header : ℕ) (rest : Text)
      → ((c : ℕ) (b r : Text) → length r ≤ length rest → is_finished (next c b r) ≡ true)
      → is_finished (Record.read_fragment grow next cap buffer (some (header, rest))) ≡ true
  read_fragment-finished next cap buffer header rest f =
      elim (Bool-cases (ltb (cap - length buffer) (get_fragment_size header))) [
        | inl a ↦ rw a refl
        | inr a ↦ elim (Bool-cases (ltb (length rest) (get_fragment_size header))) [
          | inl b ↦ rw (a, b) refl
          | inr b ↦ elim (Bool-cases (is_last_fragment header)) [
            | inl c ↦ rw (a, b, c) refl
            | inr c ↦
                rw (a, b, c) (f _ _ _ (omega (arith, length-drop (get_fragment_size header) rest)))
          ]
        ]
      ]

  read_fragments-finished :
      (fuel cap : ℕ) (buffer bytes : Text)
      → length bytes < fuel
      → is_finished (read_fragments grow fuel cap buffer bytes) ≡ true
  unfolding read_fragments read_uint32
  read_fragments-finished zero cap buffer bytes h = absurd (omega arith)
  read_fragments-finished (suc fuel) cap buffer [] h = refl
  read_fragments-finished (suc fuel) cap buffer (a ∷ []) h = refl
  read_fragments-finished (suc fuel) cap buffer (a ∷ b ∷ []) h = refl
  read_fragments-finished (suc fuel) cap buffer (a ∷ b ∷ c ∷ []) h = refl
  read_fragments-finished (suc fuel) cap buffer (a ∷ b ∷ c ∷ d ∷ rest) h =
      read_fragment-finished _ cap buffer _ rest
        (λ x y r l. read_fragments-finished fuel x y r (omega arith))

  -- The fuel is enough for any bytes that the connection gives.
  pub read_full_record-finished : (bytes : Text) → is_finished (read_full_record grow bytes) ≡ true
  unfolding read_full_record
  read_full_record-finished bytes = read_fragments-finished _ max_record_size [] bytes (omega arith)
