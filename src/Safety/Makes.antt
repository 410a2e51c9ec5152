-- ===== src/Safety/Makes.antt =====
-- nfs3/allunix.go: the calls of the steps that the methods share, and the rules for the methods.
use gonfs.Common.{ℕ, Text, Option, none, some}
use gonfs.Os.{
  Call, lstat, close, readdir, geteuid, getegid, Errno, FileInfo, Result, ok, err, sys, plain,
}
use gonfs.Types.Attr.{Fattr3}
use gonfs.Prog
use gonfs.Prog.{Prog, ret, attempt, errno_of, ◌>>=◌}
use gonfs.Prog.Run.{Handles}
use gonfs.Prog.Makes.{Makes, Obliged, makes_rules}
use gonfs.Backend.Base
use gonfs.Backend.Base.{Backend, get_file_attr_from_path, stat_path, post_attr, enter_handle}

-- The calls that any method may make: none of them changes a file or reads what it holds.
pub record Looks (K : Call → Type 0) : Type 0 where
  pub lstats : (p : Text) → K (lstat p)
  pub closes : (fd : ℕ) → K (close fd)
  pub lists : (fd : ℕ) → K (readdir fd)
  pub user : K geteuid
  pub group : K getegid

module _ {A : Type 0} {K : Call → Type 0} {m : Handles} (k : Looks K) where
  -- The map is not changed before the rest begins.
  pub Makes-stat_path :
      (p : Text) (a : Fattr3) (failed : Errno → Fattr3 → Prog A) (found : Fattr3 → Prog A)
      → ((e : Errno) (b : Fattr3) → Makes K (failed e b) m)
      → ((b : Fattr3) → Makes K (found b) m)
      → Makes K (stat_path p a failed found) m
  unfolding stat_path get_file_attr_from_path attempt errno_of Obliged ◌>>=◌
  Makes-stat_path p a failed found hf hd = record { obliged = (k.lstats p, λ r. split r) }
    where
      filled : (o : Option Errno × Fattr3) → Obliged K (Base.on_stat failed found o) m
      filled (none, b) = (hd b).obliged
      filled (some e, b) = (hf e b).obliged

      split :
          (r : Result FileInfo)
          → Obliged K
              (Prog.on_result
                  (λ e. do n ← errno_of e; ret (some n, a))
                  (λ fi. ret (Base.fill_attr fi a))
                  r
                >>= Base.on_stat failed found)
              m
      split (ok fi) = filled (Base.fill_attr fi a)
      split (err (sys n)) = (hf n a).obliged
      split (err plain) = tt

module _ {K : Call → Type 0} {m : Handles} (k : Looks K) where
  pub Makes-post_attr : (h : ℕ) (p : Text) → Makes K (post_attr h p) m
  unfolding post_attr
  Makes-post_attr h p = search (makes_rules, Makes-stat_path) depth 8

  pub Makes-enter_handle :
      (be : Backend) (name : Text) (a : Fattr3) → Makes K (enter_handle be name a) m
  unfolding enter_handle
  Makes-enter_handle be name a = search (makes_rules, k.lstats) depth 12

pub ruleset rules = (makes_rules, Makes-stat_path, Makes-post_attr, Makes-enter_handle)
