-- ===== src/Backend/Rules.antt =====
-- The rules of `Respects` for the steps that the backend's methods share.
use gonfs.Common.{ℕ, Text, Option, none, some}
use gonfs.Os.{Call, lstat, Errno}
use gonfs.Types.Attr.{Fattr3}
use gonfs.Prog.{Prog}
use gonfs.Prog.Respects.{Respects, Any, Respects-bind, respects_rules}
use gonfs.Backend.Base
use gonfs.Backend.Base.{
  Backend, get_file_attr_from_path, stat_path, post_attr, enter_handle, make_fhandle,
}

module _ {V : ℕ → Text → Type 0} {K : Call → Type 0} where
  Respects-get_file_attr :
      (p : Text) (a : Fattr3) → K (lstat p) → Respects V K Any (get_file_attr_from_path p a)
  unfolding get_file_attr_from_path
  Respects-get_file_attr p a k = search respects_rules depth 8

module _ {A : Type 0} {V : ℕ → Text → Type 0} {K : Call → Type 0} {Q : A → Type 0} where
  pub Respects-stat_path :
      (p : Text) (a : Fattr3) (failed : Errno → Fattr3 → Prog A) (done : Fattr3 → Prog A)
      → K (lstat p)
      → ((e : Errno) (b : Fattr3) → Respects V K Q (failed e b))
      → ((b : Fattr3) → Respects V K Q (done b))
      → Respects V K Q (stat_path p a failed done)
  unfolding stat_path
  Respects-stat_path p a failed done k hf hd =
      Respects-bind _ _ (Respects-get_file_attr p a k) split
    where
      split : (r : Option Errno × Fattr3) → Respects V K Q (Base.on_stat failed done r)
      split (none, b) = hd b
      split (some e, b) = hf e b

module _ {V : ℕ → Text → Type 0} {K : Call → Type 0} where
  pub Respects-post_attr : (h : ℕ) (p : Text) → K (lstat p) → Respects V K Any (post_attr h p)
  unfolding post_attr
  Respects-post_attr h p k = search (respects_rules, Respects-stat_path) depth 8

  pub Respects-enter_handle :
      ((h : ℕ) (p : Text) → V h p → K (lstat p))
      → (be : Backend) (name : Text) (a : Fattr3) → V (make_fhandle be name a.fileid a.fsid) name
      → Respects V K Any (enter_handle be name a)
  unfolding enter_handle
  Respects-enter_handle k be name a v = search respects_rules depth 12

pub ruleset backend_rules =
    (respects_rules, Respects-stat_path, Respects-post_attr, Respects-enter_handle)
