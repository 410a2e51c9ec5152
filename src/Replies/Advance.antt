-- ===== src/Replies/Advance.antt =====
-- nfs3/allunix.go: the pages of ReadDir put one after the other.
use gonfs.Common.{
  if◌then◌else◌, ℕ, ◌+◌, ◌%◌, ◌^◌, ◌<◌, ◌≤◌, ◌≡◌, ◌⊎◌, refl, subst, Bool, true, false, inl, inr,
  Text, List, [], ◌∷◌, ◌++◌, Option, none, some, All, length, ltb, arith,
}
use gonfs.Os.{FileInfo}
use gonfs.Types.Reply.{Entry3}
use gonfs.Backend.ReadDir
use gonfs.Backend.ReadDir.{
  Reading, entry_overhead, entry_cookie, entry_fileid, read_entries, read_page, readdirresoksize,
}
use gonfs.Replies.Paging.{Sent, stop, send}

-- An entry with an inode number, whose page has room for it alone.
abbrev pub IsListable : Reading → Option FileInfo → Type 0
IsListable r none = false ≡ true
IsListable r (some d) =
    ((id : ℕ) × (entry_fileid r d ≡ some id)) × (readdirresoksize + entry_overhead d.name ≤ r.max)

-- What is sent from entry `i` on, and then from entry `j` on, is sent from `i` on.
pub Sent-append :
    (r : Reading) (i j : ℕ) (ds mid rest : List (Option FileInfo)) (es fs : List Entry3)
    → Sent r i ds es mid
    → j ≡ i + length es
    → Sent r j mid fs rest
    → Sent r i ds (es ++ fs) rest
Sent-append r i j _ _ rest _ fs (stop _ ds) e t = subst (λ k. Sent r k ds fs rest) (omega arith) t
Sent-append r i j _ mid rest _ fs (send _ d id ds _ es w s) e t =
    send i d id ds rest (es ++ fs) w (Sent-append r (i + 1) j ds mid rest es fs s (omega arith) t)

pub length-Sent :
    (r : Reading) (i : ℕ) (ds rest : List (Option FileInfo)) (es : List Entry3)
    → Sent r i ds es rest
    → length ds ≡ length es + length rest
length-Sent r i _ _ _ (stop _ ds) = omega arith
length-Sent r i _ _ _ (send _ d id ds rest es w s) =
    omega (arith, length-Sent r (i + 1) ds rest es s)

module _ (r : Reading) where
  abbrev Page : Type 0
  Page = Option (List Entry3 × Bool)

  abbrev IsPage : Page → Type 0
  IsPage p = (es : List Entry3) × (e : Bool) × (p ≡ some (es, e))

  -- A page that ends the listing or sends an entry.
  abbrev Advances : Page → Type 0
  Advances p = (es : List Entry3) × (e : Bool) × (p ≡ some (es, e)) × ((e ≡ true) ⊎ (0 < length es))

  with_fileid-Advances :
      (o : Option ℕ) (id : ℕ) (name : Text) (cookie : ℕ) (p : Page)
      → o ≡ some id
      → IsPage p
      → Advances (ReadDir.with_fileid o name cookie p)
  with_fileid-Advances o id name cookie p h (es, e, q) = rw (h, q) (_, e, refl, inr (omega arith))

  if-IsPage : (b : Bool) (p : Page) → IsPage p → IsPage (if b then some ([], false) else p)
  if-IsPage true p h = ([], false, refl)
  if-IsPage false p h = h

  page_of : (p : Page) → Advances p → IsPage p
  page_of p (es, e, q, a) = (es, e, q)

  read_entries-IsPage :
      (i size : ℕ) (ds : List (Option FileInfo))
      → All (IsListable r) ds
      → IsPage (read_entries r i size ds)
  unfolding read_entries
  read_entries-IsPage i size [] h = ([], true, refl)
  read_entries-IsPage i size (none ∷ ds) h = absurd (ground arith)
  read_entries-IsPage i size (some d ∷ ds) h =
      if-IsPage (ltb r.max ((size + entry_overhead d.name) % 2 ^ 32)) _ (
        page_of _ (
          with_fileid-Advances (entry_fileid r d) h.0.0.0 d.name _ _ h.0.0.1
            (read_entries-IsPage (i + 1) _ ds h.1)))

  has_room :
      (n : ℕ)
      → readdirresoksize + n ≤ r.max
      → r.max < 2 ^ 31
      → ltb r.max ((readdirresoksize + n) % 2 ^ 32) ≡ false
  has_room n h low = ground arith

  -- The first entry of a page has room.
  pub read_entries-Advances :
      (i : ℕ) (ds : List (Option FileInfo))
      → r.max < 2 ^ 31
      → All (IsListable r) ds
      → Advances (read_entries r i readdirresoksize ds)
  unfolding read_entries
  read_entries-Advances i [] low h = ([], true, refl, inl refl)
  read_entries-Advances i (none ∷ ds) low h = absurd (ground arith)
  read_entries-Advances i (some d ∷ ds) low h = rw (has_room (entry_overhead d.name) h.0.1 low) (
      with_fileid-Advances (entry_fileid r d) h.0.0.0 d.name _ _ h.0.0.1
        (read_entries-IsPage (i + 1) _ ds h.1))
