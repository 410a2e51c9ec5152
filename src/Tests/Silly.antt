-- ===== src/Tests/Silly.antt =====
-- A Rename of the file of `Fixture` to ".nfs1".
use gonfs.Common.{
  ℕ, ◌+◌, ◌≡◌, refl, sym, subst, false, Text, codes, none, some, text_eq, contains_slash,
  has_prefix, ◌==◌, if◌then◌else◌, arith,
}
use gonfs.Os.{Os, Call, Answer, FileInfo, StatT, Result, ok}
use gonfs.Types.Attr.{no_wcc}
use gonfs.Types.Reply.{RenameRes}
use gonfs.Types.Status.{Nfsstat3}
use gonfs.Prog.{◌>>=◌, with_path, attempt, errno_of, set_value_for_handle, delete_handle}
use gonfs.Prog.Run.{Outcome, done, Server, run}
use gonfs.Backend.Base.{
  put_uint64, make_fhandle, join, is_component, is_entry_name, is_regular, file_type, set_stat,
  fill_attr, get_file_attr_from_path, stat_path, post_attr,
}
use gonfs.Backend.Rename
use gonfs.Backend.Rename.{rename}
use gonfs.Replies.Silly.{Stats, old_handle, rename-silly}
use gonfs.Tests.Fixture.{backend, export, info, answer, hash}

abbrev hidden : Text
hidden = codes "/e/.nfs1"

abbrev stat_of : Text → Result FileInfo
stat_of p = if text_eq p hidden then ok (info false (codes ".nfs1") 12) else answer (Call.lstat p)

abbrev silly_answer : (c : Call) → Answer c
silly_answer (Call.lstat p) = stat_of p
silly_answer c = answer c

abbrev os : Os
os = record { World = ℕ; perform = λ c w. (silly_answer c, w + 1) }

abbrev stat : StatT
stat = record {
  nlink = 1;
  uid = 0;
  gid = 0;
  blocks = 8;
  rdev = 0;
  dev = 1;
  ino = 12;
  atim = record { seconds = 43200; nseconds = 0 };
  mtim = record { seconds = 43200; nseconds = 0 };
  ctim = record { seconds = 43200; nseconds = 0 };
}

abbrev file : FileInfo
file = info false (codes ".nfs1") 12

-- The handle 5 is the export's, and 12 at "/e/f" has the one that the hash gives.
abbrev handle : ℕ
handle = old_handle backend export (codes "f") export (codes ".nfs1") file stat 5 5

stated : (c : Call) → Stats hidden file stat c (silly_answer c)
unfolding text_eq
stated (Call.lstat p) = λ e. subst (λ q. stat_of q ≡ ok file) (sym e) refl
stated _ = tt

abbrev server : Server os
server = record {
  handles = λ k. if k == 5 then some export else if k == handle then some (codes "/e/f") else none;
  world = 0;
}

abbrev renamed : Outcome RenameRes × Server os
renamed = run os (rename backend 5 (codes "f") 5 (codes ".nfs1")) server

abbrev of : Outcome RenameRes → RenameRes
of (done r) = r
of _ = record {
  status = Nfsstat3.nfs3err_io;
  fromdir_wcc = no_wcc;
  todir_wcc = no_wcc;
  fail_fromdir_wcc = no_wcc;
  fail_todir_wcc = no_wcc;
}

rename-silly_example : renamed.1.handles handle ≡ some hidden
unfolding run rename Rename.rename_within Rename.rename_done Rename.rename_failed
    Rename.rename_allows Rename.reset_silly Rename.to_dir_only Rename.from_dir_only put_uint64
    make_fhandle join is_component is_entry_name is_regular file_type set_stat fill_attr
    get_file_attr_from_path stat_path post_attr with_path attempt errno_of set_value_for_handle
    delete_handle ◌>>=◌ text_eq contains_slash has_prefix hash
rename-silly_example =
    rename-silly backend export (codes "f") export (codes ".nfs1") file stat 5 5 refl
      (λ e. absurd (omega (arith, e))) (λ e. absurd (omega (arith, e))) os server renamed.1
      (of renamed.0) (record { within = λ c w. stated c }) refl refl refl refl refl
