-- ===== src/Replies/Paging.antt =====
-- nfs3/allunix.go: the pages of ReadDir and the cookies that join them.
use gonfs.Common.{
  ℕ, suc, ◌+◌, ◌*◌, ◌%◌, ◌^◌, ◌<◌, ◌≡◌, ◌↔◌, refl, sym, ap, ◌∙◌, subst, Bool, true, false, inl, inr,
  Bool-cases, Text, List, [], ◌∷◌, Option, none, some, length, length-drop, drop, zero, bit_or, ltb,
  text_eq, arith,
}
use gonfs.Common.Bits.{bit_or-high}
use gonfs.Os.{FileInfo}
use gonfs.Types.Reply.{Entry3}
use gonfs.Backend.Base.{Backend}
use gonfs.Backend.ReadDir
use gonfs.Backend.ReadDir.{
  Reading, entry_overhead, entry_cookie, entry_fileid, read_entries, read_page,
}

-- The entries are those of the first files, in their order and with the cookies that follow, and
-- `rest` are the files left.
pub data Sent (r : Reading)
    : ℕ → List (Option FileInfo) → List Entry3 → List (Option FileInfo) → Type 0 where
  stop : (i : ℕ) (ds : List (Option FileInfo)) → Sent r i ds [] ds
  send :
      (i : ℕ) (d : FileInfo) (id : ℕ) (ds rest : List (Option FileInfo)) (es : List Entry3)
      → entry_fileid r d ≡ some id
      → Sent r (i + 1) ds es rest
      → Sent r i
          (some d ∷ ds)
          (record { fileid = id; name = d.name; cookie = entry_cookie r.total i } ∷ es)
          rest

-- The cookie to go on with: the last one sent.
abbrev pub next_cookie : ℕ → List Entry3 → ℕ
next_cookie c [] = c
next_cookie c (e ∷ es) = next_cookie e.cookie es

module _ (r : Reading) where
  -- What a page promises, where there is one: it ends the listing if nothing is left.
  abbrev Page : ℕ → List (Option FileInfo) → Option (List Entry3 × Bool) → Type 0
  Page i ds none = Unit
  Page i ds (some (es, e)) =
      (rest : List (Option FileInfo)) × Sent r i ds es rest × ((e ≡ true) ↔ (rest ≡ []))

  with_fileid-Page :
      (i : ℕ) (d : FileInfo) (ds : List (Option FileInfo)) (o : Option ℕ)
      (p : Option (List Entry3 × Bool))
      → entry_fileid r d ≡ o
      → Page (i + 1) ds p
      → Page i (some d ∷ ds) (ReadDir.with_fileid o d.name (entry_cookie r.total i) p)
  with_fileid-Page i d ds none p q h = tt
  with_fileid-Page i d ds (some id) none q h = tt
  with_fileid-Page i d ds (some id) (some (es, e)) q (rest, s, last) =
      (rest, send i d id ds rest es q s, last)

  full-Page :
      (i : ℕ) (d : Option FileInfo) (ds : List (Option FileInfo))
      → Page i (d ∷ ds) (some ([], false))
  full-Page i d ds = (d ∷ ds, stop i (d ∷ ds), (λ e. cc, λ e. cc))

  read_entries-Page :
      (i size : ℕ) (ds : List (Option FileInfo)) → Page i ds (read_entries r i size ds)
  unfolding read_entries
  read_entries-Page i size [] = ([], stop i [], (λ e. refl, λ e. refl))
  read_entries-Page i size (none ∷ ds) = tt
  read_entries-Page i size (some d ∷ ds) =
      elim (Bool-cases (ltb r.max ((size + entry_overhead d.name) % 2 ^ 32))) [
        | inl e ↦ rw e (full-Page i (some d) ds)
        | inr e ↦ rw e (with_fileid-Page i d ds _ _ refl (read_entries-Page (i + 1) _ ds))
      ]

-- The low 32 bits of a cookie count the entries sent.
entry_cookie-low :
    (total i : ℕ) → total < 2 ^ 32 → i + 1 < 2 ^ 32 → entry_cookie total i % 2 ^ 32 ≡ i + 1
unfolding entry_cookie
entry_cookie-low total i t b =
    ap (λ x. x % 2 ^ 32)
      (ap (λ x. bit_or x ((i + 1) % 2 ^ 64)) (omega arith)
        ∙ ap (λ y. bit_or (total * 2 ^ 32) y) (omega arith)
        ∙ bit_or-high 32 total (i + 1) b)
    ∙ omega arith

drop-nil : (n : ℕ) → drop {A = Option FileInfo} n [] ≡ []
drop-nil zero = refl
drop-nil (suc n) = refl

drop-drop : (i n : ℕ) (ds : List (Option FileInfo)) → drop (i + n) ds ≡ drop n (drop i ds)
drop-drop zero n ds = ap (λ k. drop k ds) (omega arith)
drop-drop (suc i) n [] = drop-nil (suc i + n) ∙ sym (drop-nil n)
drop-drop (suc i) n (d ∷ ds) = onto (suc i + n) (omega arith) ∙ drop-drop i n ds
  where
    onto : (k : ℕ) → k ≡ suc (i + n) → drop k (d ∷ ds) ≡ drop (i + n) ds
    onto k e = ap (λ k. drop k (d ∷ ds)) e

module _ (r : Reading) (small : r.total < 2 ^ 32) where
  pub Sent-next :
      (i c : ℕ) (ds rest : List (Option FileInfo)) (es : List Entry3)
      → Sent r i ds es rest
      → i + length ds < 2 ^ 32
      → c % 2 ^ 32 ≡ i
      → (next_cookie c es % 2 ^ 32 ≡ i + length es) × (drop (length es) ds ≡ rest)
  Sent-next i c _ _ _ (stop _ ds) b q = (omega arith, refl)
  Sent-next i c _ _ _ (send _ d id ds rest es w s) b q =
      let h =
        Sent-next (i + 1) (entry_cookie r.total i) ds rest es s (omega arith)
          (entry_cookie-low r.total i small (omega arith)) in
      (omega (arith, h.0), h.1)

module _ (be : Backend) (dir : Text) (here : Option FileInfo) (ds : List (Option FileInfo))
    (count : ℕ) where
  -- What the loop of ReadDir is given.
  abbrev pub reading : Reading
  reading = record {
    at_root = text_eq dir be.export_path;
    dot_info = here;
    total = length ds;
    max = count;
  }

  -- A page of a directory of fewer than 2 ^ 32 entries is the next piece of the listing, in its
  -- order and with nothing left out; it is marked as the last one exactly if nothing is left; and a
  -- request with the last cookie sent goes on at the first entry that is left.
  pub read_page-joins :
      (cookie : ℕ) (es : List Entry3) (e : Bool)
      → length ds < 2 ^ 32
      → read_page be dir cookie count here ds ≡ some (es, e)
      → (rest : List (Option FileInfo)) × Sent reading
          (cookie % 2 ^ 32)
          (drop (cookie % 2 ^ 32) ds)
          es
          rest
        × ((e ≡ true) ↔ (rest ≡ []))
        × (drop (next_cookie cookie es % 2 ^ 32) ds ≡ rest)
  unfolding read_page
  read_page-joins cookie es e small q =
      let (rest, s, last) = subst (Page reading (cookie % 2 ^ 32) (drop (cookie % 2 ^ 32) ds)) q (
        read_entries-Page reading (cookie % 2 ^ 32) ReadDir.readdirresoksize
          (drop (cookie % 2 ^ 32) ds)) in
      let h =
        Sent-next reading small (cookie % 2 ^ 32) cookie _ rest es s
          (omega (arith, length-drop (cookie % 2 ^ 32) ds)) refl in
      (rest, s, last, ap (λ k. drop k ds) h.0 ∙ drop-drop (cookie % 2 ^ 32) (length es) ds ∙ h.1)
