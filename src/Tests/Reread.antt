-- ===== src/Tests/Reread.antt =====
-- A Write of the file of `Fixture` and a Read of what it put there.
use gonfs.Common.{
  ◌≡◌, refl, false, Text, codes, none, some, text_eq, length, take, ltb, ◌==◌, if◌then◌else◌, arith,
}
use gonfs.Common.Int.{pos, negsuc}
use gonfs.Os.{Os, Call, Answer, eof, nil}
use gonfs.Types.Args.{unstable}
use gonfs.Types.Reply.{ReadRes, WriteRes}
use gonfs.Prog.{◌>>=◌, with_path, attempt, errno_of, perform, delete_handle}
use gonfs.Prog.Run.{Outcome, Server, run}
use gonfs.Prog.Machine.{Models}
use gonfs.Backend.Base.{
  is_regular, file_type, set_stat, fill_attr, get_file_attr_from_path, stat_path, post_attr,
}
use gonfs.Backend.Io
use gonfs.Replies.Contents.{part}
use gonfs.Replies.Filed.{FileState, file_machine}
use gonfs.Replies.Reread.{write-read}
use gonfs.Tests.Fixture.{backend, answer}
use gonfs.Tests.Contents.{read_of, written_of}

abbrev name : Text
name = codes "/e/f"

abbrev reply : (c : Call) → FileState → Answer c
reply (Call.read_at fd n (pos o)) v =
    (part v.contents o n, if ltb (length (part v.contents o n)) n then eof else nil)
reply (Call.write_at fd d o) v = (length d, none)
reply c v = answer c

abbrev os : Os
os = record {
  World = FileState;
  perform = λ c v. (reply c v, (file_machine name).next c (reply c v) v);
}

may_reply : (c : Call) (v : FileState) → (file_machine name).may c (reply c v) v
may_reply (Call.read_at fd n (pos o)) v = (refl, refl)
may_reply (Call.read_at fd n (negsuc o)) v = tt
may_reply (Call.write_at fd d o) v = omega arith
may_reply _ v = tt

models : Models os (file_machine name) (λ v. v)
models = record { steps = λ c v e. (refl, may_reply c v) }

abbrev server : Server os
server = record {
  handles = λ k. if k == 6 then some name else none;
  world = record { contents = codes "abcde"; is_open = λ fd. false };
}

abbrev wrote : Outcome WriteRes × Server os
wrote = run os (Io.write backend 6 3 3 unstable (codes "xyz")) server

abbrev read : Outcome ReadRes × Server os
read = run os (Io.read 6 3 3) wrote.1

-- Three bytes at offset 3 of a file of five.
write-read_example : ((read_of read.0).count ≡ 3) × (take 3 (read_of read.0).contents ≡ codes "xyz")
unfolding run Io.read Io.read_open Io.clamp_count Io.read_outcome Io.read_buffer Io.write
    Io.write_open Io.commit_level is_regular file_type set_stat fill_attr get_file_attr_from_path
    stat_path post_attr with_path attempt errno_of perform delete_handle ◌>>=◌ text_eq
write-read_example =
    write-read os backend name (λ v. v) models server wrote.1 read.1 6 6 3 3 unstable (codes "xyz")
      (written_of wrote.0) (read_of read.0) (omega arith) refl refl refl refl refl refl
