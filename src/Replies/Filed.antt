-- ===== src/Replies/Filed.antt =====
-- The file of one name, as the calls of Read and Write in nfs3/allunix.go treat it: what package os
-- documents of them, where nobody else changes the file.
use gonfs.Common.{
  ℕ, zero, suc, ◌+◌, ◌≤◌, ◌≡◌, refl, sym, ap, ◌∙◌, Bool, true, false, Text, [], ◌∷◌, ◌++◌, Option,
  none, some, length, take, drop, drop_prefix, take_prefix, text_eq, text_eq_iff, ◌==◌, ==_true,
  if◌then◌else◌,
}
use gonfs.Common.Int.{ℤ, pos}
use gonfs.Os.{
  Call, Answer, Result, ok, err, OsError, Errno, o_wronly, lstat, open_read, open_file, close,
  read_at, write_at, sync,
}
use gonfs.Types.Attr.{Fattr3, PostOpAttr}
use gonfs.Prog
use gonfs.Prog.{Prog, ret, attempt}
use gonfs.Prog.Run.{Handles, remove}
use gonfs.Prog.Machine.{Machine, Final, Meets, Along, Meets-attempt, Meets-bind, meets_rules}
use gonfs.Backend.Base
use gonfs.Backend.Base.{get_file_attr_from_path, stat_path, post_attr}
use gonfs.Replies.Contents.{Reads, part}

-- The bytes before an offset, with zeros where the file is shorter.
abbrev pub pad : ℕ → Text → Text
pad zero file = []
pad (suc o) [] = 0 ∷ pad o []
pad (suc o) (x ∷ file) = x ∷ pad o file

-- The file with the bytes at the offset.
abbrev pub splice : ℕ → Text → Text → Text
splice o bytes file = pad o file ++ (bytes ++ drop (o + length bytes) file)

length-pad : (o : ℕ) (file : Text) → length (pad o file) ≡ o
length-pad zero file = refl
length-pad (suc o) [] = ap suc (length-pad o [])
length-pad (suc o) (x ∷ file) = ap suc (length-pad o file)

-- What was put in a file is there.
pub part-splice : (o : ℕ) (bytes file : Text) → part (splice o bytes file) o (length bytes) ≡ bytes
part-splice o bytes file =
    ap (take (length bytes)) (
      ap (λ k. drop k (splice o bytes file)) (sym (length-pad o file))
      ∙ drop_prefix (pad o file) (bytes ++ drop (o + length bytes) file))
    ∙ take_prefix bytes (drop (o + length bytes) file)

-- The bytes of the file, and the descriptors that are open on it.
pub record FileState : Type 0 where
  pub contents : Text
  pub is_open : ℕ → Bool

abbrev pub opened : ℕ → FileState → FileState
opened fd v = record v { is_open = λ k. if fd == k then true else v.is_open k }

abbrev pub closed : ℕ → FileState → FileState
closed fd v = record v { is_open = λ k. if fd == k then false else v.is_open k }

abbrev pub moved : ℤ → Text → FileState → FileState
moved (pos o) bytes v = record v { contents = splice o bytes v.contents }
moved _ bytes v = v

pub moved-pos :
    (z : ℤ) (o : ℕ) (bytes : Text) (v : FileState)
    → z ≡ pos o
    → (moved z bytes v).contents ≡ splice o bytes v.contents
moved-pos z o bytes v e = ap (λ y. (moved y bytes v).contents) e

pub opened-is_open : (fd : ℕ) (v : FileState) → (opened fd v).is_open fd ≡ true
opened-is_open fd v = ap (λ b. if b then true else v.is_open fd) (==_true fd fd refl)

-- The calls of Read and Write on the file, and those that change no file.
abbrev covers : Text → Call → FileState → Bool
covers name (lstat p) v = true
covers name (open_read p) v = text_eq p name
covers name (open_file p (o_wronly ∷ []) mode) v = text_eq p name
covers name (close fd) v = true
covers name (sync fd) v = true
covers name (read_at fd n o) v = v.is_open fd
covers name (write_at fd bytes o) v = v.is_open fd
covers name _ v = false

abbrev after_open : Result ℕ → FileState → FileState
after_open (ok fd) v = opened fd v
after_open (err e) v = v

-- WriteAt puts the bytes that it counts at the offset, and zeros in a gap.
abbrev after : (c : Call) → Answer c → FileState → FileState
after (open_read p) r v = after_open r v
after (open_file p flags mode) r v = after_open r v
after (close fd) r v = closed fd v
after (write_at fd bytes o) r v = moved o (take r.0 bytes) v
after c r v = v

-- ReadAt gives the bytes that are there; WriteAt counts no more than there are.
abbrev Allows : (c : Call) → Answer c → FileState → Type 0
Allows (read_at fd n o) r v = Reads v.contents (read_at fd n o) r
Allows (write_at fd bytes o) r v = r.0 ≤ length bytes
Allows c r v = Unit

abbrev pub file_machine : Text → Machine
file_machine name = record { State = FileState; covered = covers name; next = after; may = Allows }

same : (name : Text) → text_eq name name ≡ true
same name = (text_eq_iff name name).1 refl

module _ (name : Text) {m : Handles} {v : FileState} where
  Meets-get_file_attr :
      {Q : Final (file_machine name) (Option Errno × Fattr3)} (p : Text) (a : Fattr3)
      → ((r : Option Errno × Fattr3) → Q r m v)
      → Meets (file_machine name) Q (get_file_attr_from_path p a) m v
  unfolding get_file_attr_from_path
  Meets-get_file_attr p a q =
      Meets-attempt (lstat p) _ _ refl (λ r e x. search meets_rules depth 8)
        (λ r b x y. search meets_rules depth 8)

  pub Meets-stat_path :
      {A : Type 0} {Q : Final (file_machine name) A} (p : Text) (a : Fattr3)
      (failed : Errno → Fattr3 → Prog A) (done : Fattr3 → Prog A)
      → ((e : Errno) (b : Fattr3) → Meets (file_machine name) Q (failed e b) m v)
      → ((b : Fattr3) → Meets (file_machine name) Q (done b) m v)
      → Meets (file_machine name) Q (stat_path p a failed done) m v
  unfolding stat_path
  Meets-stat_path {A} {Q} p a failed done hf hd = Meets-bind _ _ (Meets-get_file_attr p a split)
    where
      split :
          (r : Option Errno × Fattr3) → Meets (file_machine name) Q (Base.on_stat failed done r) m v
      split (none, b) = hd b
      split (some e, b) = hf e b

  pub Meets-post_attr :
      {Q : Final (file_machine name) PostOpAttr} (h : ℕ) (p : Text)
      → ((a : PostOpAttr) → Q a m v)
      → ((a : PostOpAttr) → Q a (remove m h) v)
      → Meets (file_machine name) Q (post_attr h p) m v
  unfolding post_attr
  Meets-post_attr h p q r = search (meets_rules, Meets-stat_path) depth 8

  -- The two ways in which Read and Write open the file.
  after_opening :
      {A : Type 0} {Q : Final (file_machine name) A} (r : Result ℕ) (failed : OsError → Prog A)
      (done : ℕ → Prog A)
      → ((e : OsError) → Meets (file_machine name) Q (failed e) m v)
      → ((fd : ℕ) → Meets (file_machine name) Q (done fd) m (opened fd v))
      → Meets (file_machine name) Q (Prog.on_result failed done r) m (after_open r v)
  after_opening (ok fd) failed done hf hd = hd fd
  after_opening (err e) failed done hf hd = hf e

  pub Meets-open_read :
      {A : Type 0} {Q : Final (file_machine name) A} (failed : OsError → Prog A) (done : ℕ → Prog A)
      → ((e : OsError) → Meets (file_machine name) Q (failed e) m v)
      → ((fd : ℕ) → Meets (file_machine name) Q (done fd) m (opened fd v))
      → Meets (file_machine name) Q (attempt (open_read name) failed done) m v
  unfolding attempt Along
  Meets-open_read failed done hf hd = record {
    along = (same name, λ r e. (after_opening r failed done hf hd).along);
  }

  pub Meets-open_file :
      {A : Type 0} {Q : Final (file_machine name) A} (mode : ℕ) (failed : OsError → Prog A)
      (done : ℕ → Prog A)
      → ((e : OsError) → Meets (file_machine name) Q (failed e) m v)
      → ((fd : ℕ) → Meets (file_machine name) Q (done fd) m (opened fd v))
      → Meets (file_machine name) Q (attempt (open_file name (o_wronly ∷ []) mode) failed done) m v
  unfolding attempt Along
  Meets-open_file mode failed done hf hd = record {
    along = (same name, λ r e. (after_opening r failed done hf hd).along);
  }
