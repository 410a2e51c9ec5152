-- ===== src/Replies/Gone.antt =====
-- nfs3/allunix.go: the handles of a request that are gone, and what getFileAttrFromPath shows of them.
use gonfs.Common.{ℕ, Text, ◌≡◌, refl, Bool, true, false, Option, none, some, List, [], ◌∷◌, ap, ◌∙◌}
use gonfs.Os.{Os, Errno, eio, FileInfo, StatT, Result, ok, err, sys, plain, lstat}
use gonfs.Types.Attr.{Fattr3}
use gonfs.Prog
use gonfs.Prog.{Prog, ret, ◌>>=◌, attempt, errno_of}
use gonfs.Prog.Run.{Handles}
use gonfs.Prog.Ends.{Ends, Answers, After, Post}
use gonfs.Backend.Base
use gonfs.Backend.Base.{uint64, stat_path, get_file_attr_from_path, fill_attr}
use gonfs.Svc.{Request}

abbrev has_stat : Option StatT → Bool
has_stat none = false
has_stat (some st) = true

-- An answer of Lstat with which getFileAttrFromPath succeeds.
abbrev pub is_statable : Result FileInfo → Bool
is_statable (ok fi) = has_stat fi.stat
is_statable (err e) = false

-- The operating system may fail to stat the path.
pub record IsLost (os : Os) (p : Text) : Type 0 where
  pub world : os.World
  pub refused : is_statable (os.perform (lstat p) world).0 ≡ false

-- The map lacks the handle, or has it for a path that may fail to be stated.
pub data IsGone (os : Os) (m : Handles) (h : ℕ) : Type 0 where
  missing : m h ≡ none → IsGone os m h
  lost : (p : Text) → m h ≡ some p → IsLost os p → IsGone os m h

-- The handles of such a request.
abbrev pub handles_of : Request → List Text
handles_of (Request.setattr fh new guard) = fh ∷ []
handles_of (Request.write fh offset count how bytes) = fh ∷ []
handles_of (Request.create fh name how) = fh ∷ []
handles_of (Request.mkdir fh name attr) = fh ∷ []
handles_of (Request.symlink fh name path) = fh ∷ []
handles_of (Request.remove fh name) = fh ∷ []
handles_of (Request.rmdir fh name) = fh ∷ []
handles_of (Request.rename from from_name to to_name) = from ∷ to ∷ []
handles_of (Request.link old dir name) = old ∷ dir ∷ []
handles_of (Request.commit fh) = fh ∷ []
handles_of _ = []

-- One of the handles is gone.
pub data HasGone (os : Os) (m : Handles) : List Text → Type 0 where
  here :
      (fh : Text) (fhs : List Text) (h : ℕ)
      → uint64 fh ≡ some h
      → IsGone os m h
      → HasGone os m (fh ∷ fhs)
  there : (fh : Text) (fhs : List Text) → HasGone os m fhs → HasGone os m (fh ∷ fhs)

-- The answers of an operating system.
abbrev pub Answered : Os → Answers
Answered os c r = (w : os.World) × ((os.perform c w).0 ≡ r)

module _ {A : Type 0} {Q : Post A} {m : Handles} (os : Os) where
  -- Where the stat fails the path is lost.
  pub Ends-stat_lost :
      (p : Text) (a : Fattr3) (failed : Errno → Fattr3 → Prog A) (found : Fattr3 → Prog A)
      → ((e : Errno) (b : Fattr3) → IsLost os p → Ends (Answered os) (Unit {0}) Q (failed e b) m)
      → ((b : Fattr3) → Ends (Answered os) (Unit {0}) Q (found b) m)
      → Ends (Answered os) (Unit {0}) Q (stat_path p a failed found) m
  unfolding stat_path get_file_attr_from_path fill_attr attempt errno_of After ◌>>=◌
  Ends-stat_lost p a failed found hf hd = record { after = λ r x. split r x }
    where
      lost_at :
          (r : Result FileInfo) → Answered os (lstat p) r → is_statable r ≡ false → IsLost os p
      lost_at r (w, e) b = record { world = w; refused = ap is_statable e ∙ b }

      filled :
          (fi : FileInfo) (b : Fattr3) (o : Option StatT)
          → (o ≡ none → IsLost os p)
          → After (Answered os) (Unit {0}) Q (Base.on_stat failed found (Base.fill_stat b o)) m
      filled fi b none g = (hf eio b (g refl)).after
      filled fi b (some st) g = (hd (Base.set_stat st b)).after

      split :
          (r : Result FileInfo)
          → Answered os (lstat p) r
          → After
              (Answered os)
              (Unit {0})
              Q
              (Prog.on_result
                  (λ e. do n ← errno_of e; ret (some n, a))
                  (λ fi. ret (Base.fill_attr fi a))
                  r
                >>= Base.on_stat failed found)
              m
      split (ok fi) x = filled fi _ fi.stat (λ e. lost_at (ok fi) x (ap has_stat e))
      split (err (sys n)) x = (hf n a (lost_at _ x refl)).after
      split (err plain) x = tt
