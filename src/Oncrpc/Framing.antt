-- ===== src/Oncrpc/Framing.antt =====
-- oncrpc/record.go: the encoding of a record, and ReadFullRecord on it.
use gonfs.Common.{
  ℕ, zero, suc, ◌+◌, ◌-◌, ◌*◌, ◌^◌, ◌<◌, ◌≤◌, ◌≡◌, refl, ap, ◌∙◌, Bool, true, false, Text, List, [],
  ◌∷◌, ◌++◌, some, length, length-append, take_prefix, drop_prefix, ltb, append_assoc, arith,
  bit_or, if◌then◌else◌,
}
use gonfs.Common.Bits.{bit_or-low}
use gonfs.Oncrpc.Record
use gonfs.Oncrpc.Record.{
  is_last_fragment, get_fragment_size, create_fragment_header, put_uint32, read_uint32, full,
  Received, read_fragments, read_full_record, max_record_size, max_record_fragment_size, is_last,
  fragment_size, slice, Writer, write_full_record, write_fragments, after_write, Written, written,
  write_failed,
}

header-value :
    (size : ℕ) (last : Bool)
    → size < 2 ^ 31
    → create_fragment_header size last ≡ (if last then 2 ^ 31 else 0) + size
unfolding create_fragment_header
header-value size true h = ap (λ x. bit_or x (1 * 2 ^ 31)) (omega arith) ∙ bit_or-low 31 1 size h
header-value size false h = omega arith

pub header-size :
    (size : ℕ) (last : Bool)
    → size < 2 ^ 31
    → get_fragment_size (create_fragment_header size last) ≡ size
unfolding get_fragment_size
header-size size true h = omega (arith, header-value size true h)
header-size size false h = omega (arith, header-value size false h)

header-last :
    (size : ℕ) (last : Bool)
    → size < 2 ^ 31
    → is_last_fragment (create_fragment_header size last) ≡ last
unfolding is_last_fragment
header-last size true h = ground (arith, header-value size true h)
header-last size false h = ground (arith, header-value size false h)

header-small : (size : ℕ) (last : Bool) → size < 2 ^ 31 → create_fragment_header size last < 2 ^ 32
header-small size true h = omega (arith, header-value size true h)
header-small size false h = omega (arith, header-value size false h)

-- One fragment.
abbrev pub frame : Bool → Text → Text
frame last part = put_uint32 (create_fragment_header (length part) last) ++ part

read-put_uint32 :
    (v : ℕ) (rest : Text) → v < 2 ^ 32 → read_uint32 (put_uint32 v ++ rest) ≡ some (v, rest)
unfolding read_uint32 put_uint32
read-put_uint32 v rest h = ap (λ x. some (x, rest)) (omega arith)

module _ (grow : ℕ → ℕ → ℕ → ℕ) (next : ℕ → Text → Text → Received) where
  -- What follows a fragment that was read.
  abbrev then_next : Bool → ℕ → Text → Text → Text → Received
  then_next true cap buffer part rest = full (buffer ++ part) rest
  then_next false cap buffer part rest =
      next (grow cap (length buffer) (length part)) (buffer ++ part) rest

  read-frame :
      (cap : ℕ) (buffer : Text) (last : Bool) (part rest : Text)
      → length part < 2 ^ 31
      → length buffer + length part ≤ cap
      → Record.read_fragment grow next cap buffer
          (some (create_fragment_header (length part) last, part ++ rest))
        ≡ then_next last cap buffer part rest
  read-frame cap buffer last part rest h c =
      rw
        (
          header-size (length part) last h,
          header-last (length part) last h,
          room,
          there,
          take_prefix part rest,
          drop_prefix part rest,
        )
        (split last)
    where
      room : ltb (cap - length buffer) (length part) ≡ false
      room = ground arith

      there : ltb (length (part ++ rest)) (length part) ≡ false
      there = ground (arith, length-append part rest)

      split :
          (l : Bool)
          → (if l
              then full (buffer ++ part) rest
              else next (grow cap (length buffer) (length part)) (buffer ++ part) rest)
            ≡ then_next l cap buffer part rest
      split true = refl
      split false = refl

-- A record in fragments, and the same record as one text.
abbrev pub encode : Text → List Text → Text
encode part [] = frame true part
encode part (p ∷ parts) = frame false part ++ encode p parts

abbrev pub joined : Text → List Text → Text
joined part [] = part
joined part (p ∷ parts) = part ++ joined p parts

read_header :
    (last : Bool) (part rest : Text)
    → length part < 2 ^ 31
    → read_uint32 (frame last part ++ rest)
      ≡ some (create_fragment_header (length part) last, part ++ rest)
read_header last part rest h =
    ap read_uint32 (append_assoc (put_uint32 (create_fragment_header (length part) last)) part rest)
    ∙ read-put_uint32 _ (part ++ rest) (header-small (length part) last h)

length-put_uint32 : (v : ℕ) → length (put_uint32 v) ≡ 4
unfolding put_uint32
length-put_uint32 v = refl

length-frame : (last : Bool) (part : Text) → length (frame last part) ≡ 4 + length part
length-frame last part = omega (
  arith,
  length-append (put_uint32 (create_fragment_header (length part) last)) part,
  length-put_uint32 (create_fragment_header (length part) last),
)

-- A record of n fragments takes at least n bytes, which the reader's fuel counts.
length-encode : (part : Text) (parts : List Text) → length parts < length (encode part parts)
length-encode part [] = omega (arith, length-frame true part)
length-encode part (p ∷ parts) = omega (
  arith,
  length-append (frame false part) (encode p parts),
  length-frame false part,
  length-encode p parts,
)

module _ (grow : ℕ → ℕ → ℕ → ℕ) (grows : (cap len n : ℕ) → cap ≤ grow cap len n) where
  read_fragments-encode :
      (fuel cap : ℕ) (buffer part : Text) (parts : List Text) (rest : Text)
      → length parts < fuel
      → length buffer + length (joined part parts) ≤ cap
      → length (joined part parts) < 2 ^ 31
      → read_fragments grow fuel cap buffer (encode part parts ++ rest)
        ≡ full (buffer ++ joined part parts) rest
  unfolding read_fragments
  read_fragments-encode zero cap buffer part parts rest f c s = absurd (omega arith)
  read_fragments-encode (suc fuel) cap buffer part [] rest f c s =
      ap (λ o. Record.read_fragment grow (λ c b r. read_fragments grow fuel c b r) cap buffer o)
        (read_header true part rest s)
      ∙ read-frame grow (λ c b r. read_fragments grow fuel c b r) cap buffer true part rest s c
  read_fragments-encode (suc fuel) cap buffer part (p ∷ parts) rest f c s =
      ap (λ o. Record.read_fragment grow (λ c b r. read_fragments grow fuel c b r) cap buffer o)
        (ap read_uint32 (append_assoc (frame false part) (encode p parts) rest)
          ∙ read_header false part (encode p parts ++ rest) (omega (arith, len)))
      ∙ read-frame grow (λ c b r. read_fragments grow fuel c b r) cap buffer false part
          (encode p parts ++ rest) (omega (arith, len)) (omega (arith, len))
      ∙ read_fragments-encode fuel (grow cap (length buffer) (length part)) (buffer ++ part) p parts
          rest (omega arith)
          (omega (arith, len, length-append buffer part, grows cap (length buffer) (length part)))
          (omega (arith, len))
      ∙ ap (λ b. full b rest) (append_assoc buffer part (joined p parts))
    where
      len : length (part ++ joined p parts) ≡ length part + length (joined p parts)
      len = length-append part (joined p parts)

  -- A record of up to maxRecordSize bytes, in one fragment or in several, is read whole, and what
  -- follows it on the connection is left; the buffer's capacity does not shrink.
  pub read_full_record-encode :
      (part : Text) (parts : List Text) (rest : Text)
      → length (joined part parts) ≤ max_record_size
      → read_full_record grow (encode part parts ++ rest) ≡ full (joined part parts) rest
  unfolding read_full_record
  read_full_record-encode part parts rest s =
      read_fragments-encode _ max_record_size [] part parts rest
        (omega (arith, length-encode part parts, length-append (encode part parts) rest))
        (omega arith) (omega arith)
