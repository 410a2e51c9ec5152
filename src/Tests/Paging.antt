-- ===== src/Tests/Paging.antt =====
-- The theorems on the pages of ReadDir, on a directory of three entries.
use gonfs.Common.{
  ◌%◌, ◌^◌, ◌≤◌, ◌≡◌, ◌⊎◌, ◌↔◌, refl, Bool, true, false, codes, List, [], ◌∷◌, Option, some, none,
  drop, text_eq, arith,
}
use gonfs.Os.{FileInfo}
use gonfs.Types.Status.{nfs3_ok}
use gonfs.Types.Attr.{zero_fattr, no_post}
use gonfs.Types.Reply.{Entry3}
use gonfs.Backend.Base.{followed}
use gonfs.Backend.ReadDir.{
  read_page, read_entries, entry_overhead, entry_cookie, entry_fileid, readdir_reply,
}
use gonfs.Replies.Paging.{Sent, next_cookie, reading, read_page-joins}
use gonfs.Replies.PageSize.{resok_size, read_page-fits}
use gonfs.Tests.Fixture.{backend, export, info}

abbrev files : List (Option FileInfo)
files =
    some (info true (codes "d") 11)
    ∷ some (info false (codes "f") 12)
    ∷ some (info true (codes "..") 9)
    ∷ []

-- A page of 170 bytes has room for two entries.
abbrev sent : Option (List Entry3 × Bool) → List Entry3
sent none = []
sent (some (es, e)) = es

abbrev page : Option (List Entry3 × Bool)
page = read_page backend export 0 170 none files

read_page-joins_example :
    (rest : List (Option FileInfo)) × Sent
      (reading backend export none files 170)
      0
      files
      (sent page)
      rest
    × ((false ≡ true) ↔ (rest ≡ []))
    × (drop (next_cookie 0 (sent page) % 2 ^ 32) files ≡ rest)
unfolding read_page read_entries entry_overhead entry_cookie entry_fileid text_eq
read_page-joins_example =
    read_page-joins backend export none files 170 0 (sent page) false (omega arith) refl

read_page-fits_example :
    (sent page ≡ [])
    ⊎ (resok_size (readdir_reply nfs3_ok (followed zero_fattr) (sent page) false no_post) ≤ 170)
unfolding read_page read_entries entry_overhead entry_cookie entry_fileid text_eq
read_page-fits_example =
    read_page-fits backend export 0 170 none files zero_fattr (sent page) false (omega arith)
      (omega arith, (omega arith, (omega arith, tt))) refl
