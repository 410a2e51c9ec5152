-- ===== src/Oncrpc/Record.antt =====
-- oncrpc/record.go: records as fragments, each after a header of four bytes whose highest bit marks
-- the last one.
use gonfs.Common.{
  ℕ, zero, suc, ◌+◌, ◌-◌, ◌*◌, ◌/◌, ◌%◌, ◌^◌, Bool, true, false, ◌&&◌, Text, [], ◌∷◌, ◌++◌, Option,
  none, some, length, take, drop, ltb, leb, ◌==◌, bit_or, if◌then◌else◌,
}
use gonfs.Os.{OsError}

-- maxRecordFragmentSize, maxRecordSize
abbrev pub max_record_fragment_size : ℕ
max_record_fragment_size = 2147483647

abbrev pub max_record_size : ℕ
max_record_size = 1048576

unfoldable pub is_last_fragment : ℕ → Bool
is_last_fragment header = header / 2 ^ 31 == 1

-- header &^ (1 << 31), of a uint32
unfoldable pub get_fragment_size : ℕ → ℕ
get_fragment_size header = header % 2 ^ 31

unfoldable pub create_fragment_header : ℕ → Bool → ℕ
create_fragment_header size last = if last then bit_or (size % 2 ^ 31) (2 ^ 31) else size % 2 ^ 31

abbrev pub min_of : ℕ → ℕ → ℕ
min_of a b = if ltb a b then a else b

-- binary.BigEndian on four bytes
unfoldable pub put_uint32 : ℕ → Text
put_uint32 v = (v / 2 ^ 24 % 256) ∷ (v / 2 ^ 16 % 256) ∷ (v / 2 ^ 8 % 256) ∷ (v % 256) ∷ []

-- The writer of a connection: the bytes written and an error.
pub record Writer : Type 1 where
  pub State : Type 0
  pub write : Text → State → (ℕ × Option OsError) × State

-- `panic` is a slice whose bounds are out of range.
pub data Written : Type 0 where
  written : ℕ → Written
  write_failed : ℕ → OsError → Written
  panic out_of_fuel : Written

-- data[low:high], of a slice with no capacity beyond its length
unfoldable pub slice : Text → ℕ → ℕ → Option Text
slice bytes low high =
    if leb low high && leb high (length bytes)
    then some (take (high - low) (drop low bytes))
    else none

-- remainingBytes <= maxRecordFragmentSize, where the difference may be negative
unfoldable pub is_last : ℕ → ℕ → Bool
is_last size total = leb size (total + max_record_fragment_size)

-- uint32(minOf(maxRecordFragmentSize, remainingBytes))
unfoldable pub fragment_size : ℕ → ℕ → ℕ
fragment_size size total =
    if leb total size
    then min_of max_record_fragment_size (size - total)
    else (2 ^ 32 - (total - size) % 2 ^ 32) % 2 ^ 32

-- What follows a write: an error, the end after the last fragment, or the loop.
abbrev pub after_write :
    {S : Type 0} → ℕ → Bool → (ℕ → S → Written × S) → (ℕ × Option OsError) × S → Written × S
after_write total last next ((n, some e), s) = (write_failed total e, s)
after_write total true next ((n, none), s) = (written (total + n), s)
after_write total false next ((n, none), s) = next (total + n) s

module _ (w : Writer) where
  open w use {State, write}

  abbrev pub write_fragment :
      Option Text → Text → ℕ → Bool → (ℕ → State → Written × State) → State → Written × State
  write_fragment none header total last next s = (panic, s)
  write_fragment (some part) header total last next s =
      after_write total last next (write (header ++ part) s)

  -- The loop of WriteFullRecord, with `total` bytes written, the headers included.
  unfoldable pub write_fragments : ℕ → Text → ℕ → State → Written × State
  unfolding create_fragment_header put_uint32 slice is_last fragment_size
  write_fragments zero bytes total s = (out_of_fuel, s)
  write_fragments (suc fuel) bytes total s =
      let last = is_last (length bytes) total in
      let size = fragment_size (length bytes) total in
      write_fragment (slice bytes total size) (put_uint32 (create_fragment_header size last)) total
        last (λ n t. write_fragments fuel bytes n t) s

  unfoldable pub write_full_record : Text → State → Written × State
  unfolding write_fragments
  write_full_record bytes s = write_fragments (length bytes + 1) bytes 0 s

-- Why a record could not be read.
pub data ReadFailure : Type 0 where
  ended size_exceeded : ReadFailure

pub data Received : Type 0 where
  full : Text → Text → Received
  failed : ReadFailure → Received
  out_of_fuel : Received

-- binary.Read of a big-endian uint32: the value and the bytes left, or an error at the end.
unfoldable pub read_uint32 : Text → Option (ℕ × Text)
read_uint32 (a ∷ b ∷ c ∷ d ∷ rest) = some (a * 2 ^ 24 + b * 2 ^ 16 + c * 2 ^ 8 + d, rest)
read_uint32 _ = none

-- `grow cap len n` is record.Cap() after io.CopyN has appended n bytes to a bytes.Buffer with the
-- capacity `cap` and `len` bytes.
module _ (grow : ℕ → ℕ → ℕ → ℕ) where
  -- A fragment's size is below 2 ^ 31, so the test for InvalidFragmentSize never holds.
  abbrev pub read_fragment : (ℕ → Text → Text → Received) → ℕ → Text → Option (ℕ × Text) → Received
  read_fragment next cap buffer none = failed ended
  read_fragment next cap buffer (some (header, rest)) =
      let size = get_fragment_size header in
      if ltb (cap - length buffer) size
      then failed size_exceeded
      else if ltb (length rest) size
      then failed ended
      else if is_last_fragment header
      then full (buffer ++ take size rest) (drop size rest)
      else next (grow cap (length buffer) size) (buffer ++ take size rest) (drop size rest)

  -- The loop of ReadFullRecord on the bytes that the connection still gives.
  unfoldable pub read_fragments : ℕ → ℕ → Text → Text → Received
  unfolding read_uint32 get_fragment_size is_last_fragment
  read_fragments zero cap buffer bytes = out_of_fuel
  read_fragments (suc fuel) cap buffer bytes =
      read_fragment (λ c b r. read_fragments fuel c b r) cap buffer (read_uint32 bytes)

  unfoldable pub read_full_record : Text → Received
  unfolding read_fragments
  read_full_record bytes = read_fragments (length bytes + 1) max_record_size [] bytes
