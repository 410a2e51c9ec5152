-- ===== src/Backend/Ends.antt =====
-- The rules of `Ends` for the steps that the backend's methods share.
use gonfs.Common.{ℕ, Text, Option, none, some, ◌≡◌, true, text_eq, text_eq_iff, ◌∙◌, ap, arith}
use gonfs.Os.{Errno, lstat}
use gonfs.Types.Attr.{Fattr3, PostOpAttr}
use gonfs.Prog.{Prog, ret, ◌>>◌, set_value_for_handle}
use gonfs.Prog.Run.{Handles, put, remove}
use gonfs.Prog.Ends.{
  Ends, Post, Answers, Ends-ret, Ends-exit, Ends-if, Ends-bind, Ends-with_path, Ends-set,
  Ends-attempt, ends_rules,
}
use gonfs.Backend.Base
use gonfs.Backend.Base.{
  Backend, get_file_attr_from_path, stat_path, post_attr, enter_handle, make_fhandle,
}

put-same : (m : Handles) (h : ℕ) (p : Text) → put m h p h ≡ some p
put-same m h p = ground arith

holds_name : (m : Handles) (h : ℕ) (p q : Text) → m h ≡ some p → text_eq p q ≡ true → m h ≡ some q
holds_name m h p q e t = e ∙ ap some ((text_eq_iff p q).0 t)

module _ {E : Answers} where
  Ends-get_file_attr :
      {Q : Post (Option Errno × Fattr3)} {m : Handles} (p : Text) (a : Fattr3)
      → ((r : Option Errno × Fattr3) → Q r m)
      → Ends E (Unit {0}) Q (get_file_attr_from_path p a) m
  unfolding get_file_attr_from_path
  Ends-get_file_attr p a q = search ends_rules depth 8

  pub Ends-stat_path :
      {A : Type 0} {Q : Post A} {m : Handles} (p : Text) (a : Fattr3)
      (failed : Errno → Fattr3 → Prog A) (done : Fattr3 → Prog A)
      → ((e : Errno) (b : Fattr3) → Ends E (Unit {0}) Q (failed e b) m)
      → ((b : Fattr3) → Ends E (Unit {0}) Q (done b) m)
      → Ends E (Unit {0}) Q (stat_path p a failed done) m
  unfolding stat_path
  Ends-stat_path {A} {Q} {m} p a failed done hf hd = Ends-bind _ _ (Ends-get_file_attr p a split)
    where
      split : (r : Option Errno × Fattr3) → Ends E (Unit {0}) Q (Base.on_stat failed done r) m
      split (none, b) = hd b
      split (some e, b) = hf e b

  pub Ends-post_attr :
      {Q : Post PostOpAttr} {m : Handles} (h : ℕ) (p : Text)
      → ((a : PostOpAttr) → Q a m)
      → ((a : PostOpAttr) → Q a (remove m h))
      → Ends E (Unit {0}) Q (post_attr h p) m
  unfolding post_attr
  Ends-post_attr h p q r = search (ends_rules, Ends-stat_path) depth 8

  set_ret :
      {Q : Post ℕ} (m : Handles) (h : ℕ) (name : Text)
      → ((n : Handles) → n h ≡ some name → Q h n)
      → Ends E (Unit {0}) Q (do set_value_for_handle h name; ret h) m
  set_ret m h name q =
      Ends-bind _ _ (Ends-set h name (Ends-ret h (q (put m h name) (put-same m h name))))

  -- Afterwards the handle stands for the name.
  pub Ends-enter_handle :
      {Q : Post ℕ} {m : Handles} (be : Backend) (name : Text) (a : Fattr3)
      → ((n : Handles)
          → n (make_fhandle be name a.fileid a.fsid) ≡ some name
          → Q (make_fhandle be name a.fileid a.fsid) n)
      → Ends E (Unit {0}) Q (enter_handle be name a) m
  unfolding enter_handle
  Ends-enter_handle {Q} {m} be name a q =
      Ends-with_path h _ _ (λ e. set_ret m h name q)
        (λ found e.
          Ends-if (text_eq found name) _ _ (λ t. Ends-ret h (q m (holds_name m h found name e t)))
            (λ t. Ends-attempt (lstat found) _ _ (λ x y. set_ret m h name q) (λ fi. Ends-exit)))
    where
      h : ℕ
      h = make_fhandle be name a.fileid a.fsid
