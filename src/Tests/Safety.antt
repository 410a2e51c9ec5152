-- ===== src/Tests/Safety.antt =====
-- The safety theorems on the server of `Fixture`.
use gonfs.Common.{ℕ, refl, none, [], text_eq}
use gonfs.Prog.{Prog, ret, get, ◌>>=◌, with_path}
use gonfs.Backend.Mount.{mount, mount_dir_fhandle}
use gonfs.Prog.Respects.{Respects-ret}
use gonfs.Backend.Base.{put_uint64, make_fhandle}
use gonfs.Svc.{Request, Reply, serve}
use gonfs.Safety.Interleave.{System, Step, arrive, look, Reach, start, next, IsSafe, Reach-IsSafe}
use gonfs.Safety.Interleave
use gonfs.Tests.Fixture.{backend, os, export}

-- No request in progress, and an empty handle map.
abbrev pub idle : System os backend
idle = record { handles = λ h. none; world = 0; threads = λ i. ret Reply.void; calls = [] }

idle-IsSafe : IsSafe os backend idle
idle-IsSafe = record { held = λ h. tt; called = tt; rest = λ i. Respects-ret Reply.void tt }

abbrev threads : Prog Reply → ℕ → Prog Reply
threads p = Interleave.resume os backend idle.threads 0 p

-- The program after it has looked up a missing handle.
abbrev pub looked : Prog Reply → Prog Reply
looked (get h k) = k none
looked p = p

-- A mount arrives, and looks for the handle of the export.
abbrev pub arrived : System os backend
arrived = record {
  handles = λ h. none;
  world = 0;
  threads = threads (serve backend (Request.mnt export));
  calls = [];
}

abbrev pub second : System os backend
second = record {
  handles = λ h. none;
  world = 0;
  threads =
      Interleave.resume os backend arrived.threads 0 (looked (serve backend (Request.mnt export)));
  calls = [];
}

mount_steps : Reach os backend idle second
unfolding serve mount mount_dir_fhandle make_fhandle text_eq put_uint64 with_path ◌>>=◌
mount_steps = next (next start (arrive 0 Reply.void (Request.mnt export) refl)) (look 0 _ _ refl)

Reach-IsSafe_example : IsSafe os backend second
Reach-IsSafe_example = Reach-IsSafe os backend idle-IsSafe mount_steps
