-- ===== src/Replies/Listing.antt =====
-- nfs3/nfsprocdef.go and nfs3/allunix.go: a client that reads a directory to its end by Readdir.
use gonfs.Common.{
  ℕ, suc, zero, ◌+◌, ◌%◌, ◌^◌, ◌<◌, ◌≡◌, ◌⊎◌, refl, ap, ◌∙◌, subst, Bool, true, false, inl, inr,
  Text, List, [], ◌++◌, Option, none, some, All, All-drop, length, length-drop, drop, arith,
  if◌then◌else◌,
}
use mathlib.Core.Option
use gonfs.Os.{Os, FileInfo}
use gonfs.Types.Status.{is_ok, nfs3_ok}
use gonfs.Types.Attr.{no_post}
use gonfs.Types.Reply.{Entry3}
use gonfs.Prog.Run.{Outcome, done, Server, run}
use gonfs.Prog.Settled.{Settled, Gives, run-settle}
use gonfs.Backend.Base.{Backend, uint64, followed}
use gonfs.Backend.ReadDir.{Reading, read_page, readdir_reply}
use gonfs.Replies.Paging.{Sent, next_cookie, reading, read_page-joins, Sent-next}
use gonfs.Replies.Advance.{IsListable, Sent-append, length-Sent, read_entries-Advances}
use gonfs.Replies.Directory.{Directory, all_entries, attr, settle-readdir}
use gonfs.Svc.{Request, Reply, serve}

module _ (be : Backend) (os : Os) (fh : Text) (count : ℕ) where
  -- The entries of a reply: those of a last page, and those of another before the ones that follow
  -- its last cookie.
  abbrev pub with_page :
      (ℕ → Server os → Option (List Entry3)) → ℕ → Outcome Reply × Server os → Option (List Entry3)
  with_page next cookie (done (Reply.listed r), s) =
      if is_ok r.status
      then if r.eof
        then some r.entries
        else Option.map (λ es. r.entries ++ es) (next (next_cookie cookie r.entries) s)
      else none
  with_page next cookie _ = none

  -- The client: one Readdir after another, up to `fuel` of them.
  unfoldable pub list_all : ℕ → ℕ → Server os → Option (List Entry3)
  list_all zero cookie s = none
  list_all (suc fuel) cookie s =
      with_page (list_all fuel) cookie (run os (serve be (Request.readdir fh cookie count)) s)

pair_of : {A B : Type 0} (o : A × B) (a : A) → o.0 ≡ a → o ≡ (a, o.1)
pair_of o a e = ap (λ x. (x, o.1)) e

module _ (be : Backend) (os : Os) (ans : Settled) (g : Gives os ans) (dir : Text)
    (ds : List FileInfo) (d : Directory ans dir ds) (fh : Text) (h count : ℕ)
    (handle : uint64 fh ≡ some h) where
  abbrev pub all : List (Option FileInfo)
  all = all_entries ans dir ds d

  abbrev there : Reading
  there = reading be dir (some d.here) all count

  -- The rest of the directory, from the cookie on, in the order of the directory.
  abbrev IsRest : ℕ → Option (List Entry3) → Type 0
  IsRest cookie none = false ≡ true
  IsRest cookie (some es) = Sent there (cookie % 2 ^ 32) (drop (cookie % 2 ^ 32) all) es []

  pub readdir_reply_of :
      (cookie : ℕ) (s : Server os) (es : List Entry3) (e : Bool)
      → s.handles h ≡ some dir
      → read_page be dir cookie count (some d.here) all ≡ some (es, e)
      → (t : Server os) × (run os (serve be (Request.readdir fh cookie count)) s ≡ (
        done (Reply.listed (readdir_reply nfs3_ok (followed (attr ans dir ds d)) es e no_post)),
        t,
      ))
        × (t.handles h ≡ some dir)
  readdir_reply_of cookie s es e at page =
      let ran = run-settle os ans g (serve be (Request.readdir fh cookie count)) s in
      let told = settle-readdir ans dir ds d be fh h cookie count s.handles es e handle at page in
      (_, pair_of _ _ (ran.0 ∙ ap (λ o. o.0) told), ap (λ m. m h) (ran.1 ∙ ap (λ o. o.1) told) ∙ at)

  -- A page and what is listed after it.
  paged-IsRest :
      (cookie : ℕ) (es : List Entry3) (e : Bool) (rest : List (Option FileInfo))
      (o : Option (List Entry3))
      → Sent there (cookie % 2 ^ 32) (drop (cookie % 2 ^ 32) all) es rest
      → (e ≡ true → rest ≡ [])
      → (e ≡ false
          → (fs : List Entry3) × (o ≡ some fs)
            × Sent there (cookie % 2 ^ 32 + length es) rest fs [])
      → IsRest cookie (if e then some es else Option.map (λ fs. es ++ fs) o)
  paged-IsRest cookie es true rest o sent last next = subst (Sent there _ _ es) (last refl) sent
  paged-IsRest cookie es false rest o sent last next =
      let (fs, q, more) = next refl in rw q (Sent-append there _ _ _ rest [] es fs sent refl more)

  some_rest :
      (cookie i : ℕ) (rest : List (Option FileInfo)) (o : Option (List Entry3))
      → IsRest cookie o
      → cookie % 2 ^ 32 ≡ i
      → drop (cookie % 2 ^ 32) all ≡ rest
      → (fs : List Entry3) × (o ≡ some fs) × Sent there i rest fs []
  some_rest cookie i rest none h e q = absurd (ground arith)
  some_rest cookie i rest (some fs) h e q = (
    fs,
    refl,
    subst (λ x. Sent there i x fs []) q
        (subst (λ k. Sent there k (drop (cookie % 2 ^ 32) all) fs []) e h),
  )

  fewer :
      (fuel i : ℕ) (now rest left : List (Option FileInfo)) (es : List Entry3) (e : Bool)
      → Sent there i now es rest
      → left ≡ rest
      → (e ≡ true) ⊎ (0 < length es)
      → e ≡ false
      → length now < suc fuel
      → length left < fuel
  fewer fuel i now rest left es e sent joined (inl ends) q enough = absurd (ground arith)
  fewer fuel i now rest left es e sent joined (inr some_sent) q enough =
      omega (arith, length-Sent there i now rest es sent, ap length joined)

  module _ (low : count < 2 ^ 31) (small : length all < 2 ^ 32)
      (room : All (IsListable there) all) where
    -- What a page leaves is fewer entries.
    list_all-IsRest :
        (fuel cookie : ℕ) (s : Server os)
        → s.handles h ≡ some dir
        → length (drop (cookie % 2 ^ 32) all) < fuel
        → IsRest cookie (list_all be os fh count fuel cookie s)
    unfolding list_all read_page
    list_all-IsRest zero cookie s at enough = absurd (omega arith)
    list_all-IsRest (suc fuel) cookie s at enough =
        let (es, e, page, advance) =
          read_entries-Advances there (cookie % 2 ^ 32) (drop (cookie % 2 ^ 32) all) low
            (All-drop (IsListable there) (cookie % 2 ^ 32) all room) in
        let (t, ran, still) = readdir_reply_of cookie s es e at page in
        let (rest, sent, last, joined) =
          read_page-joins be dir (some d.here) all count cookie es e small page in
        let next =
          Sent-next there small (cookie % 2 ^ 32) cookie _ rest es sent
            (omega (arith, length-drop (cookie % 2 ^ 32) all)) refl in
        rw ran (
          paged-IsRest cookie es e rest _ sent (λ q. last.0 q)
            (λ q.
              some_rest (next_cookie cookie es) _ rest _
                (list_all-IsRest fuel (next_cookie cookie es) t still
                  (fewer fuel (cookie % 2 ^ 32) _ rest _ es e sent joined advance q enough))
                next.0 joined))

    -- In a directory that nobody changes, of fewer than 2 ^ 32 entries with inodes, of which each
    -- has room alone in a page of fewer than 2 ^ 31 bytes: a client that starts at cookie 0 and goes
    -- on at the last cookie of each reply gets the whole directory, each entry once and in order,
    -- and needs no more Readdirs than there are entries, and one.
    pub list_all-lists :
        (fuel : ℕ) (s : Server os)
        → s.handles h ≡ some dir
        → length all < fuel
        → (es : List Entry3) × (list_all be os fh count fuel 0 s ≡ some es) × Sent there 0 all es []
    list_all-lists fuel s at enough =
        some_rest 0 0 all _ (list_all-IsRest fuel 0 s at enough) refl refl
