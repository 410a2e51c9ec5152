-- ===== src/Oncrpc/Writing.antt =====
-- oncrpc/record.go: WriteFullRecord and the encoding of a record.
use gonfs.Common.{
  ℕ, suc, ◌+◌, ◌-◌, ◌≤◌, ◌≡◌, refl, ap, ◌∙◌, Bool, true, Text, [], ◌∷◌, Option, none, some, length,
  take, leb, arith,
}
use gonfs.Os.{OsError}
use gonfs.Oncrpc.Record
use gonfs.Oncrpc.Record.{
  is_last_fragment, get_fragment_size, create_fragment_header, put_uint32, read_uint32, full,
  Received, read_fragments, read_full_record, max_record_size, max_record_fragment_size, is_last,
  fragment_size, slice, Writer, write_full_record, write_fragments, after_write, Written, written,
  write_failed,
}
use gonfs.Oncrpc.Framing.{encode}

take-all : (bytes : Text) → take (length bytes) bytes ≡ bytes
take-all [] = refl
take-all (b ∷ bytes) = ap (λ r. b ∷ r) (take-all bytes)

-- Data that fits a fragment is written in one.
one_fragment :
    (bytes : Text)
    → length bytes ≤ max_record_fragment_size
    → (is_last (length bytes) 0 ≡ true) × (fragment_size (length bytes) 0 ≡ length bytes)
unfolding is_last fragment_size
one_fragment bytes h = (ground arith, ground arith)

whole_slice : (bytes : Text) → slice bytes 0 (length bytes) ≡ some bytes
unfolding slice
whole_slice bytes = rw (starts, fits, nothing_less, take-all bytes) refl
  where
    starts : leb 0 (length bytes) ≡ true
    starts = ground arith

    fits : leb (length bytes) (length bytes) ≡ true
    fits = ground arith

    nothing_less : length bytes - 0 ≡ length bytes
    nothing_less = omega arith

-- What the function returns after the only write of a record.
abbrev pub returned : {S : Type 0} → (ℕ × Option OsError) × S → Written × S
returned ((n, some e), t) = (write_failed 0 e, t)
returned ((n, none), t) = (written n, t)

module _ (w : Writer) (bytes : Text) (s : w.State) where
  after_write-last :
      (next : ℕ → w.State → Written × w.State) (r : (ℕ × Option OsError) × w.State)
      → after_write 0 true next r ≡ returned r
  after_write-last next ((n, some e), t) = refl
  after_write-last next ((n, none), t) = ap (λ k. (written k, t)) (omega arith)

  write_at_once :
      (last : Bool) (size : ℕ) (next : ℕ → w.State → Written × w.State)
      → last ≡ true
      → size ≡ length bytes
      → Record.write_fragment w
          (slice bytes 0 size)
          (put_uint32 (create_fragment_header size last))
          0
          last
          next
          s
        ≡ returned (w.write (encode bytes []) s)
  write_at_once last size next l e =
      ap
        (λ x.
          Record.write_fragment w (slice bytes 0 size) (put_uint32 (create_fragment_header size x))
            0 x next s)
        l
      ∙ ap
          (λ x.
            Record.write_fragment w (slice bytes 0 x) (put_uint32 (create_fragment_header x true)) 0
              true next s)
          e
      ∙ ap
          (λ o.
            Record.write_fragment w o (put_uint32 (create_fragment_header (length bytes) true)) 0
              true next s)
          (whole_slice bytes)
      ∙ after_write-last next _

  -- WriteFullRecord of less than 2 ^ 31 bytes is one write of one last fragment, and returns the
  -- number of bytes or the error of that write.
  pub write_full_record-encode :
      length bytes ≤ max_record_fragment_size
      → write_full_record w bytes s ≡ returned (w.write (encode bytes []) s)
  unfolding write_full_record write_fragments
  write_full_record-encode h =
      ap (λ n. write_fragments w n bytes 0 s) fuel
      ∙ write_at_once _ _ _ (one_fragment bytes h).0 (one_fragment bytes h).1
    where
      fuel : length bytes + 1 ≡ suc (length bytes)
      fuel = omega arith
