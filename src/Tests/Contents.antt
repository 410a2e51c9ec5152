-- ===== src/Tests/Contents.antt =====
-- Read and Write of the file of `Fixture`, where ReadAt and WriteAt answer as documented.
use gonfs.Common.{
  ℕ, ◌+◌, ◌≡◌, refl, Text, codes, [], none, some, text_eq, length, ltb, ◌==◌, if◌then◌else◌, arith,
}
use gonfs.Common.Int.{pos, negsuc}
use gonfs.Os.{Os, Call, Answer, eof, nil}
use gonfs.Types.Attr.{no_post, no_pre}
use gonfs.Types.Args.{unstable}
use gonfs.Types.Reply.{ReadRes, WriteRes}
use gonfs.Types.Status.{Nfsstat3}
use gonfs.Prog.{◌>>=◌, with_path, attempt, errno_of, perform, delete_handle}
use gonfs.Prog.Run.{Outcome, done, Server, run}
use gonfs.Backend.Base.{
  put_uint64, is_regular, file_type, set_stat, fill_attr, get_file_attr_from_path, stat_path,
  post_attr,
}
use gonfs.Backend.Io
use gonfs.Replies.Contents.{Reads, part, IsPart, read-SendsPart}
use gonfs.Replies.Written.{Writes, IsProgress, write-IsProgress}
use gonfs.Tests.Fixture.{backend, answer}

abbrev file : Text
file = codes "abcde"

abbrev file_answer : (c : Call) → Answer c
file_answer (Call.read_at fd n (pos o)) =
    (part file o n, if ltb (length (part file o n)) n then eof else nil)
file_answer (Call.write_at fd d o) = (length d, none)
file_answer c = answer c

abbrev file_os : Os
file_os = record { World = ℕ; perform = λ c w. (file_answer c, w + 1) }

-- The handle 6 is the file's.
abbrev file_server : Server file_os
file_server = record { handles = λ k. if k == 6 then some (codes "/e/f") else none; world = 0 }

file_answer-Reads : (c : Call) → Reads file c (file_answer c)
file_answer-Reads (Call.read_at fd n (pos o)) = (refl, refl)
file_answer-Reads (Call.read_at fd n (negsuc o)) = tt
file_answer-Reads _ = tt

file_answer-Writes : (c : Call) → Writes c (file_answer c)
file_answer-Writes (Call.write_at fd d o) = (omega arith, λ e. refl)
file_answer-Writes _ = tt

abbrev reading : Outcome ReadRes × Server file_os
reading = run file_os (Io.read 6 3 4) file_server

abbrev pub read_of : Outcome ReadRes → ReadRes
read_of (done r) = r
read_of _ = Io.read_fail Nfsstat3.nfs3err_io [] no_post

abbrev pub written_of : Outcome WriteRes → WriteRes
written_of (done r) = r
written_of _ = Io.write_fail Nfsstat3.nfs3err_io no_pre no_post

-- Four bytes from offset 3 of five.
read-SendsPart_example :
    IsPart
      (part file 3 4)
      4
      (read_of reading.0).contents
      (read_of reading.0).count
      (read_of reading.0).eof
unfolding run Io.read Io.read_open Io.clamp_count Io.read_outcome Io.read_buffer Io.write
    Io.write_open Io.commit_level is_regular file_type set_stat fill_attr get_file_attr_from_path
    stat_path post_attr with_path attempt errno_of perform delete_handle ◌>>=◌ text_eq
read-SendsPart_example =
    read-SendsPart file 3 4 (omega arith) file_os file_server reading.1 6 (read_of reading.0)
      (record { within = λ c w. file_answer-Reads c }) refl refl

abbrev writing : Outcome WriteRes × Server file_os
writing = run file_os (Io.write backend 6 3 2 unstable (codes "xy")) file_server

write-IsProgress_example :
    IsProgress (codes "xy") (written_of writing.0).count
    × ((written_of writing.0).verf ≡ put_uint64 7)
unfolding run Io.read Io.read_open Io.clamp_count Io.read_outcome Io.read_buffer Io.write
    Io.write_open Io.commit_level is_regular file_type set_stat fill_attr get_file_attr_from_path
    stat_path post_attr with_path attempt errno_of perform delete_handle ◌>>=◌ text_eq
write-IsProgress_example =
    write-IsProgress backend (codes "xy") file_os file_server writing.1 6 3 2 unstable
      (written_of writing.0) (record { within = λ c w. file_answer-Writes c }) refl refl
