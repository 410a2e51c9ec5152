-- ===== src/Replies/PageSize.antt =====
-- nfs3/allunix.go: the size of a page of ReadDir.
use gonfs.Common.{
  ℕ, ◌+◌, ◌-◌, ◌*◌, length, if◌then◌else◌, ◌%◌, ◌^◌, ◌<◌, ◌≤◌, ◌≡◌, ◌⊎◌, refl, subst, Bool, false,
  inl, inr, Bool-cases, Text, List, [], ◌∷◌, Option, none, some, All, All-drop, ltb, arith, ap,
}
use gonfs.Os.{FileInfo}
use gonfs.Types.Status.{nfs3_ok}
use gonfs.Types.Attr.{Fattr3, PostOpAttr, no_post}
use gonfs.Types.Reply.{Entry3, ReaddirRes}
use gonfs.Backend.Base.{Backend, followed}
use gonfs.Backend.ReadDir
use gonfs.Replies.Paging.{reading}
use gonfs.Backend.ReadDir.{
  Reading, entry_overhead, read_entries, read_page, entry_cookie, readdirresoksize,
}

-- The bytes of a reply in the external data representation (RFC 4506, RFC 1813): opaque data has
-- its length before it and is filled up to whole words.
abbrev pub opaque_size : ℕ → ℕ
opaque_size n = 4 + n + (4 - n % 4) % 4

-- The word that says that an entry follows, its inode, name and cookie.
abbrev pub entry_size : Entry3 → ℕ
entry_size e = 4 + 8 + opaque_size (length e.name) + 8

abbrev pub entries_size : List Entry3 → ℕ
entries_size [] = 0
entries_size (e ∷ es) = entry_size e + entries_size es

-- Five words, size, used, rdev, fsid and fileid, and three times.
abbrev pub fattr_size : ℕ
fattr_size = 5 * 4 + 5 * 8 + 3 * 8

abbrev pub post_op_attr_size : PostOpAttr → ℕ
post_op_attr_size a = if a.attributes_follow then 4 + fattr_size else 4

-- READDIR3resok: attributes, verifier, entries, the word that ends them, and eof.
abbrev pub resok_size : ReaddirRes → ℕ
resok_size r = post_op_attr_size r.dir_attributes + 8 + entries_size r.entries + 4 + 4

-- A name that the 32-bit count has room for.
abbrev pub HasRoom : Option FileInfo → Type 0
HasRoom none = Unit {0}
HasRoom (some d) = length d.name < 2 ^ 30

-- What the source counts for an entry is what the entry takes.
entry_overhead-size :
    (name : Text)
    → length name < 2 ^ 30
    → entry_overhead name ≡ 4 + 8 + opaque_size (length name) + 8
unfolding entry_overhead
entry_overhead-size name h = omega arith

entry_overhead-low : (name : Text) → length name < 2 ^ 30 → entry_overhead name < 2 ^ 31
unfolding entry_overhead
entry_overhead-low name h = omega arith

module _ (r : Reading) (low : r.max < 2 ^ 31) where
  abbrev Fits : ℕ → Option (List Entry3 × Bool) → Type 0
  Fits size none = Unit
  Fits size (some (es, e)) = (es ≡ []) ⊎ (size + entries_size es ≤ r.max)

  with_fileid-Fits :
      (size : ℕ) (name : Text) (cookie : ℕ) (o : Option ℕ) (p : Option (List Entry3 × Bool))
      → length name < 2 ^ 30
      → size + entry_overhead name ≤ r.max
      → Fits (size + entry_overhead name) p
      → Fits size (ReadDir.with_fileid o name cookie p)
  with_fileid-Fits size name cookie none p l b h = tt
  with_fileid-Fits size name cookie (some id) none l b h = tt
  with_fileid-Fits size name cookie (some id) (some (es, e)) l b (inl h) =
      inr (omega (arith, ap entries_size h, entry_overhead-size name l))
  with_fileid-Fits size name cookie (some id) (some (es, e)) l b (inr h) =
      inr (omega (arith, entry_overhead-size name l))

  -- The entry has room, and the 32-bit count has not wrapped.
  kept-Fits :
      (size : ℕ) (d : FileInfo) (cookie : ℕ) (o : Option ℕ) (p : Option (List Entry3 × Bool))
      → HasRoom (some d)
      → size < 2 ^ 31
      → ltb r.max ((size + entry_overhead d.name) % 2 ^ 32) ≡ false
      → Fits ((size + entry_overhead d.name) % 2 ^ 32) p
      → Fits size (ReadDir.with_fileid o d.name cookie p)
  kept-Fits size d cookie o p h s e f =
      with_fileid-Fits size d.name cookie o p h (ground (arith, used))
        (subst (λ u. Fits u p) used f)
    where
      used : (size + entry_overhead d.name) % 2 ^ 32 ≡ size + entry_overhead d.name
      used = omega (arith, entry_overhead-low d.name h)

  used-low : (used : ℕ) → ltb r.max used ≡ false → used < 2 ^ 31
  used-low used e = ground arith

  read_entries-Fits :
      (i size : ℕ) (ds : List (Option FileInfo))
      → All HasRoom ds
      → size < 2 ^ 31
      → Fits size (read_entries r i size ds)
  unfolding read_entries
  read_entries-Fits i size [] h s = inl refl
  read_entries-Fits i size (none ∷ ds) h s = tt
  read_entries-Fits i size (some d ∷ ds) h s =
      elim (Bool-cases (ltb r.max ((size + entry_overhead d.name) % 2 ^ 32))) [
        | inl e ↦ rw e (inl refl)
        | inr e ↦
            rw e
              (kept-Fits size d _ _ _ h.0 s e (read_entries-Fits (i + 1) _ ds h.1 (used-low _ e)))
      ]

-- A reply of ReadDir that sends entries is a READDIR3resok of no more bytes than the count asked
-- for. The count is below 2 ^ 31 and the names below 2 ^ 30 bytes.
pub read_page-fits :
    (be : Backend) (dir : Text) (cookie count : ℕ) (here : Option FileInfo)
    (ds : List (Option FileInfo)) (a : Fattr3) (es : List Entry3) (e : Bool)
    → count < 2 ^ 31
    → All HasRoom ds
    → read_page be dir cookie count here ds ≡ some (es, e)
    → (es ≡ []) ⊎ (resok_size (ReadDir.readdir_reply nfs3_ok (followed a) es e no_post) ≤ count)
unfolding read_page
read_page-fits be dir cookie count here ds a es e low room q =
    elim (subst (Fits (reading be dir here ds count) low readdirresoksize) q (
      read_entries-Fits (reading be dir here ds count) low (cookie % 2 ^ 32) readdirresoksize _
        (All-drop HasRoom (cookie % 2 ^ 32) ds room) (omega arith))) [
          | inl none_sent ↦ inl none_sent
          | inr fits ↦ inr (omega arith)
        ]
