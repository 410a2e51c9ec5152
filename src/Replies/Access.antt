-- ===== src/Replies/Access.antt =====
-- nfs3/allunix.go: the bits that Access grants.
use gonfs.Common.{
  ℕ, zero, suc, ◌+◌, ◌*◌, ◌/◌, ◌%◌, ◌<◌, ◌≡◌, refl, Bool, true, false, ◌&&◌, ◌==◌, ==_iff,
  Bool-cases, inl, inr, arith, if◌then◌else◌,
}
use gonfs.Types.Attr.{Fattr3}
use gonfs.Backend.Query.{class_access, dir_access, access_bits, is_dir}

-- The bits for the digits r, w and x of one class of users: READ is 1, LOOKUP 2, MODIFY 4,
-- EXTEND 8, DELETE 16 and EXECUTE 32. A directory is looked up with r or x, and never executed.
abbrev pub granted : Bool → ℕ → ℕ → ℕ → ℕ
granted false r w x = r + w * 12 + x * 32
granted true r w x = r + (if r + x == 0 then 0 else 2) + w * 28

-- The same for an octal digit of the mode.
abbrev pub granted_digit : Bool → ℕ → ℕ
granted_digit dir c = granted dir (c / 4 % 2) (c / 2 % 2) (c % 2)

-- The octal digit of the mode that counts for a user and a group.
abbrev pub class_digit : ℕ → ℕ → Fattr3 → ℕ
class_digit euid egid a =
    if euid == a.uid then a.mode / 64 else if egid == a.gid then a.mode / 8 % 8 else a.mode % 8

holds_below : ℕ → (ℕ → Bool) → Bool
holds_below zero p = true
holds_below (suc n) p = p n && holds_below n p

holds_below-at : (n : ℕ) (p : ℕ → Bool) (k : ℕ) → k < n → holds_below n p ≡ true → p k ≡ true
unfolding holds_below
holds_below-at zero p k lt h = absurd (omega arith)
holds_below-at (suc n) p k lt h = ground (arith, holds_below-at n p k)

abbrev of_type : Bool → ℕ → ℕ
of_type true bits = dir_access bits
of_type false bits = bits

-- One class, checked for every mode.
abbrev agrees : Bool → (ℕ → ℕ) → (ℕ → ℕ) → ℕ → Bool
agrees dir bits digit mode = of_type dir (bits mode) == granted_digit dir (digit mode)

abbrev owner_bits : ℕ → ℕ
owner_bits mode = class_access mode 0o400 0o200 0o100

abbrev group_bits : ℕ → ℕ
group_bits mode = class_access mode 0o40 0o20 0o10

abbrev other_bits : ℕ → ℕ
other_bits mode = class_access mode 4 2 1

owner_table : (dir : Bool) → holds_below 512 (agrees dir owner_bits (λ m. m / 64)) ≡ true
unfolding holds_below class_access dir_access
owner_table true = refl
owner_table false = refl

group_table : (dir : Bool) → holds_below 512 (agrees dir group_bits (λ m. m / 8 % 8)) ≡ true
unfolding holds_below class_access dir_access
group_table true = refl
group_table false = refl

other_table : (dir : Bool) → holds_below 512 (agrees dir other_bits (λ m. m % 8)) ≡ true
unfolding holds_below class_access dir_access
other_table true = refl
other_table false = refl

from_table :
    (dir : Bool) (bits digit : ℕ → ℕ)
    → holds_below 512 (agrees dir bits digit) ≡ true
    → (mode : ℕ) → mode < 512
    → of_type dir (bits mode) ≡ granted_digit dir (digit mode)
from_table dir bits digit t mode h =
    (==_iff _ _).0 (holds_below-at 512 (agrees dir bits digit) mode h t)

if-of_type : (dir : Bool) (bits : ℕ) → (if dir then dir_access bits else bits) ≡ of_type dir bits
if-of_type true bits = refl
if-of_type false bits = refl

-- For every mode of nine bits, user and group, Access grants what the octal digit of the mode says
-- that counts for them: the owner's, else the group's, else the last one.
pub access_bits-granted :
    (euid egid : ℕ) (a : Fattr3)
    → a.mode < 512
    → access_bits euid egid a ≡ granted_digit (is_dir a.ftype) (class_digit euid egid a)
unfolding access_bits
access_bits-granted euid egid a h = elim (Bool-cases (euid == a.uid)) [
  | inl u ↦ rw (u, if-of_type) (from_table (is_dir a.ftype) owner_bits _ (owner_table _) a.mode h)
  | inr u ↦ elim (Bool-cases (egid == a.gid)) [
    | inl g ↦
        rw (u, g, if-of_type) (from_table (is_dir a.ftype) group_bits _ (group_table _) a.mode h)
    | inr g ↦
        rw (u, g, if-of_type) (from_table (is_dir a.ftype) other_bits _ (other_table _) a.mode h)
  ]
]
