-- ===== src/Tests/Listing.antt =====
-- The theorems on a client that reads a directory by Readdir, on a directory of four entries.
use gonfs.Common.{
  ℕ, ◌+◌, ◌≡◌, refl, true, false, Text, codes, List, [], ◌∷◌, Option, none, some, text_eq, arith,
  if◌then◌else◌, ◌==◌,
}
use gonfs.Os.{Os, Call, FileInfo, ok}
use gonfs.Types.Status.{nfs3_ok}
use gonfs.Types.Reply.{Entry3, ReaddirRes}
use gonfs.Svc.{Request, Reply, serve}
use gonfs.Prog.Run.{done, Server, run}
use gonfs.Prog.Settled.{Settled, Gives}
use gonfs.Backend.Base.{uint64, join}
use gonfs.Backend.ReadDir.{Reading, entry_overhead, entry_fileid}
use gonfs.Replies.Paging.{Sent, reading}
use gonfs.Replies.Directory.{Directory, all_entries}
use gonfs.Replies.Listing.{list_all, list_all-lists}
use gonfs.Replies.TooSmall.{list_all-too_small}
use gonfs.Tests.Fixture.{backend, export, info, answer}

abbrev name_at : Text → FileInfo
name_at p =
    if text_eq p (codes "/e/.")
    then info true (codes ".") 10
    else if text_eq p (codes "/e/..")
    then info true (codes "..") 2
    else info true (codes "e") 10

abbrev settled : Settled
settled (Call.lstat p) = ok (name_at p)
settled c = answer c

abbrev os : Os
os = record { World = ℕ; perform = λ c w. (settled c, w + 1) }

gives : Gives os settled
gives = record { given = λ c w. refl }

abbrev files : List FileInfo
files = info true (codes "d") 11 ∷ info false (codes "f") 12 ∷ []

unfoldable directory : Directory settled export files
unfolding join text_eq
directory = record {
  info = info true (codes "e") 10;
  stat = _;
  fd = 3;
  here = info true (codes ".") 10;
  up = info true (codes "..") 2;
  is_named = (b'/', codes "e", refl);
  stated = refl;
  with_stat = refl;
  opened = refl;
  listed = refl;
  dot_stated = refl;
  dotdot_stated = refl;
}

abbrev server : Server os
server = record { handles = λ k. if k == 5 then some export else none; world = 0 }

abbrev fh : Text
fh = 5 ∷ 0 ∷ 0 ∷ 0 ∷ 0 ∷ 0 ∷ 0 ∷ 0 ∷ []

abbrev all : List (Option FileInfo)
all = all_entries settled export files directory

abbrev there : ℕ → Reading
there count = reading backend export (some directory.here) all count

-- A page of 170 bytes has room for two entries.
list_all-lists_example :
    (es : List Entry3) × (list_all backend os fh 170 5 0 server ≡ some es)
    × Sent (there 170) 0 all es []
unfolding uint64 entry_overhead entry_fileid text_eq directory
list_all-lists_example =
    list_all-lists backend os settled gives export files directory fh 5 170 refl (omega arith)
      (omega arith)
      (
        ((_, refl), omega arith),
        (((_, refl), omega arith), (((_, refl), omega arith), (((_, refl), omega arith), tt))),
      )
      5 server refl (omega arith)

-- A page of 120 bytes has no room for the first entry.
list_all-too_small_example :
    ((t : Server os) × (r : ReaddirRes) × (run os (serve backend (Request.readdir fh 0 120)) server
        ≡ (done (Reply.listed r), t))
      × (r.status ≡ nfs3_ok)
      × (r.entries ≡ [])
      × (r.eof ≡ false))
    × (list_all backend os fh 120 9 0 server ≡ none)
unfolding uint64 entry_overhead text_eq directory
list_all-too_small_example =
    list_all-too_small backend os settled gives export files directory fh 5 120 refl 0
      (info true (codes "d") 11) _ 9 server refl refl (omega arith) (omega arith)
