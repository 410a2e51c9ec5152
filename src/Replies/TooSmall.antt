-- ===== src/Replies/TooSmall.antt =====
-- nfs3/allunix.go: Readdir with a count that has no room for the next entry.
use gonfs.Common.{
  ℕ, suc, zero, ◌+◌, ◌%◌, ◌^◌, ◌<◌, ◌≡◌, refl, ap, ◌∙◌, true, false, Text, List, [], ◌∷◌, Option,
  none, some, drop, arith, ltb,
}
use gonfs.Os.{Os, FileInfo}
use gonfs.Types.Status.{nfs3_ok}
use gonfs.Types.Reply.{ReaddirRes}
use gonfs.Prog.Run.{done, Server, run}
use gonfs.Prog.Settled.{Settled, Gives}
use gonfs.Backend.Base.{Backend, uint64}
use gonfs.Backend.ReadDir.{Reading, read_entries, entry_overhead, readdirresoksize, read_page}
use gonfs.Svc.{Request, Reply, serve}
use gonfs.Replies.Paging.{reading}
use gonfs.Replies.Directory.{Directory, all_entries}
use gonfs.Replies.Listing.{list_all, readdir_reply_of}

read_entries-too_small :
    (r : Reading) (i : ℕ) (d : FileInfo) (ds : List (Option FileInfo))
    → entry_overhead d.name < 2 ^ 31
    → r.max < readdirresoksize + entry_overhead d.name
    → read_entries r i readdirresoksize (some d ∷ ds) ≡ some ([], false)
unfolding read_entries
read_entries-too_small r i d ds low small = rw full refl
  where
    full : ltb r.max ((readdirresoksize + entry_overhead d.name) % 2 ^ 32) ≡ true
    full = ground arith

module _ (be : Backend) (os : Os) (ans : Settled) (g : Gives os ans) (dir : Text)
    (ds : List FileInfo) (d : Directory ans dir ds) (fh : Text) (h count : ℕ)
    (handle : uint64 fh ≡ some h) where
  abbrev there : Reading
  there = reading be dir (some d.here) (all_entries ans dir ds d) count

  -- In a directory that nobody changes, where the count has no room for the entry that is next, a
  -- Readdir is answered with NFS3_OK, no entry, and Eof false; and a client that goes on at the last
  -- cookie that it has does not come to the end, however many Readdirs it is given.
  pub list_all-too_small :
      (cookie : ℕ) (first : FileInfo) (rest : List (Option FileInfo)) (fuel : ℕ) (s : Server os)
      → s.handles h ≡ some dir
      → drop (cookie % 2 ^ 32) (all_entries ans dir ds d) ≡ some first ∷ rest
      → entry_overhead first.name < 2 ^ 31
      → count < readdirresoksize + entry_overhead first.name
      → ((t : Server os) × (r : ReaddirRes) × (run os (serve be (Request.readdir fh cookie count)) s
            ≡ (done (Reply.listed r), t))
          × (r.status ≡ nfs3_ok)
          × (r.entries ≡ [])
          × (r.eof ≡ false))
        × (list_all be os fh count fuel cookie s ≡ none)
  unfolding list_all read_page
  list_all-too_small cookie first rest fuel s at starts low small =
      let (t, ran, still) =
        readdir_reply_of be os ans g dir ds d fh h count handle cookie s [] false at page in
      ((t, _, ran, refl, refl, refl), turn fuel s at)
    where
      page :
          read_page be dir cookie count (some d.here) (all_entries ans dir ds d) ≡ some ([], false)
      page =
          ap (read_entries there (cookie % 2 ^ 32) readdirresoksize) starts
          ∙ read_entries-too_small there (cookie % 2 ^ 32) first rest low small

      turn :
          (n : ℕ) (t : Server os)
          → t.handles h ≡ some dir
          → list_all be os fh count n cookie t ≡ none
      turn zero t known = refl
      turn (suc n) t known =
          let (u, ran, still) =
            readdir_reply_of be os ans g dir ds d fh h count handle cookie t [] false known page in
          rw (ran, turn n u still) refl
