-- ===== src/Tests/Honest.antt =====
-- A request to an operating system that refuses to change files.
use gonfs.Common.{
  ℕ, ◌≡◌, refl, codes, none, some, text_eq, contains_slash, ◌==◌, ◌+◌, if◌then◌else◌, false,
}
use gonfs.Os.{Os, Call, Answer, err, sys, Errno}
use gonfs.Types.Status.{is_ok}
use gonfs.Prog.{◌>>=◌, with_path, attempt, errno_of, delete_handle}
use gonfs.Prog.Run.{Outcome, done, Server, run}
use gonfs.Backend.Base.{
  put_uint64, uint64, join, is_component, is_entry_name, is_regular, file_type, set_stat, fill_attr,
  get_file_attr_from_path, stat_path, post_attr,
}
use gonfs.Backend.Remove.{remove}
use gonfs.Backend.Errors.{get_remove_err}
use gonfs.Svc.{Request, Reply, serve, fhandle}
use gonfs.Replies.ReadOnly.{change_status}
use gonfs.Replies.Honest.{Refusing, serve-honest}
use gonfs.Tests.Fixture.{backend, answer, export}

abbrev refusing : (c : Call) → Answer c
refusing (Call.open_file p fs m) = err (sys Errno.eacces)
refusing (Call.mkdir p m) = err (sys Errno.eacces)
refusing (Call.rename p q) = err (sys Errno.eacces)
refusing (Call.link p q) = err (sys Errno.eacces)
refusing (Call.symlink p q) = err (sys Errno.eacces)
refusing (Call.unlink p) = err (sys Errno.eacces)
refusing (Call.rmdir p) = err (sys Errno.eacces)
refusing c = answer c

abbrev refusing_os : Os
refusing_os = record { World = ℕ; perform = λ c w. (refusing c, w + 1) }

refusing-Refusing : (c : Call) → Refusing c (refusing c)
refusing-Refusing (Call.unlink p) = tt
refusing-Refusing _ = tt

abbrev mounted : Server refusing_os
mounted = record { handles = λ k. if k == 5 then some export else none; world = 0 }

abbrev request : Request
unfolding put_uint64
request = Request.remove (put_uint64 5) (codes "f")

abbrev removing : Outcome Reply × Server refusing_os
removing = run refusing_os (serve backend request) mounted

abbrev reply_of : Outcome Reply → Reply
reply_of (done a) = a
reply_of _ = Reply.void

serve-honest_example : is_ok (change_status (reply_of removing.0)) ≡ false
unfolding run serve fhandle remove get_remove_err put_uint64 uint64 join is_component is_entry_name
    is_regular file_type set_stat fill_attr get_file_attr_from_path stat_path post_attr with_path
    attempt errno_of delete_handle ◌>>=◌ text_eq contains_slash
serve-honest_example =
    serve-honest refusing_os backend mounted removing.1 request (reply_of removing.0)
      (record { within = λ c w. refusing-Refusing c }) refl refl
