-- ===== src/Tests/Liveness.antt =====
-- The theorems on panics, on the server of `Fixture`.
use gonfs.Common.{◌≢◌, refl, Bool, true, false, codes, text_eq, if◌then◌else◌}
use gonfs.Common.Int.{pos, negsuc}
use gonfs.Os.{FileInfo, ok, err, sys, Errno, Call}
use gonfs.Prog.{crash, ◌>>=◌, with_path}
use gonfs.Backend.Base.{put_uint64, make_fhandle}
use gonfs.Backend.Mount.{mount, mount_dir_fhandle}
use gonfs.Svc.{Request, Reply, serve}
use gonfs.Safety.Interleave.{arrive, look}
use gonfs.Liveness.Calm.{Calm-ret, ErrsErrno, Documented, IsDocumented}
use gonfs.Liveness.Interleave.{PlainReach, start, next, IsCalm, PlainReach-ne-crash}
use gonfs.Tests.Fixture.{backend, os, export, answer, info}
use gonfs.Tests.Safety.{idle, second}

found_or_errno :
    (a b c : Bool) (x y z : FileInfo)
    → ErrsErrno (if a then ok x else if b then ok y else if c then ok z else err (sys Errno.enoent))
found_or_errno true b c x y z = tt
found_or_errno false true c x y z = tt
found_or_errno false false true x y z = tt
found_or_errno false false false x y z = tt

answer-Documented : (c : Call) → Documented c (answer c)
answer-Documented (Call.lstat p) = (
  found_or_errno (text_eq p export) (text_eq p (codes "/e/d")) (text_eq p (codes "/e/f"))
      (info true (codes "e") 10) (info true (codes "d") 11) (info false (codes "f") 12),
  tt,
)
answer-Documented (Call.read_at fd n (pos o)) = (tt, tt)
answer-Documented (Call.read_at fd n (negsuc o)) = (tt, tt)
answer-Documented (Call.write_at fd d (pos o)) = (tt, tt)
answer-Documented (Call.write_at fd d (negsuc o)) = (tt, tt)
answer-Documented _ = (tt, tt)

os-IsDocumented : IsDocumented os
os-IsDocumented = record { answers = λ c w. answer-Documented c }

idle-IsCalm : IsCalm os backend idle
idle-IsCalm i = Calm-ret Reply.void

mount_steps : PlainReach os backend idle second
unfolding serve mount mount_dir_fhandle make_fhandle text_eq put_uint64 with_path ◌>>=◌
mount_steps =
    next (next start (arrive 0 Reply.void (Request.mnt export) refl) tt) (look 0 _ _ refl) tt

PlainReach-ne-crash_example : second.threads 0 ≢ crash
PlainReach-ne-crash_example =
    PlainReach-ne-crash os backend os-IsDocumented idle-IsCalm mount_steps 0
