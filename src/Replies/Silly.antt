-- ===== src/Replies/Silly.antt =====
-- nfs3/allunix.go: Rename of a file that a client has open to a ".nfs" name.
use gonfs.Common.{
  ℕ, ◌≡◌, ◌≢◌, refl, sym, ap, ◌∙◌, subst, true, Text, none, some, ==_false, has_prefix,
  if◌then◌else◌, arith, text_eq,
}
use gonfs.Os.{Os, Errno, FileInfo, StatT, Result, ok, lstat}
use gonfs.Types.Status.{is_ok}
use gonfs.Types.Attr.{Fattr3, PreOpAttr, PostOpAttr, zero_fattr}
use gonfs.Types.Reply.{RenameRes}
use gonfs.Prog
use gonfs.Prog.{Prog, ret, ◌>>=◌, ◌>>◌, attempt}
use gonfs.Prog.Run.{Handles, put, remove, done, Server, run}
use gonfs.Prog.Ends.{
  Ends, After, Answers, Answering, Ended, Post, Ends-run, Ends-bind, Ends-ret, Ends-found, Ends-if,
  Ends-set, Ends-exit, Ends-weaken, ends_rules,
}
use gonfs.Backend.Base
use gonfs.Backend.Base.{
  Backend, make_fhandle, join, get_file_attr_from_path, stat_path, post_attr, fill_attr, set_stat,
}
use gonfs.Backend.Rename
use gonfs.Backend.Rename.{Renaming, silly_prefix, reset_silly}
use gonfs.Backend.Ends.{Ends-stat_path, Ends-post_attr}
use gonfs.Backend.Errors.{get_rename_err}
use gonfs.Replies.Errors.{get_rename_err-fails}
use gonfs.Replies.Named.{When, failed, taken}

-- Lstat of a path gives a file with these numbers.
abbrev pub Stats : Text → FileInfo → StatT → Answers
Stats path fi st (lstat p) r = p ≡ path → r ≡ ok (record fi { stat = some st })
Stats path fi st c r = Unit

module _ (path : Text) (fi : FileInfo) (st : StatT) where
  Ends-stated :
      {A : Type 0} {Q : Post A} {m : Handles} (a : Fattr3) (failed : Errno → Fattr3 → Prog A)
      (next : Fattr3 → Prog A)
      → Ends (Stats path fi st) (Unit {0}) Q (next (fill_attr (record fi { stat = some st }) a).1) m
      → Ends (Stats path fi st) (Unit {0}) Q (stat_path path a failed next) m
  unfolding stat_path get_file_attr_from_path attempt After fill_attr
  Ends-stated {A} {Q} {m} a failed next h =
      Ends-bind _ _ (record { after = λ r e. subst Done (sym (e refl)) h })
    where
      Done : Result FileInfo → Type 0
      Done r =
          After (Stats path fi st) (Unit {0})
            (λ x n. Ends (Stats path fi st) (Unit {0}) Q (Base.on_stat failed next x) n)
            (Prog.on_result (λ e. do n ← Prog.errno_of e; ret (some n, a))
              (λ f. ret (fill_attr f a)) r)
            m

put-at : (m : Handles) (k : ℕ) (p : Text) → put m k p k ≡ some p
put-at m k p = ground arith

remove-other : (m : Handles) (h k : ℕ) → k ≢ h → remove m h k ≡ m k
remove-other m h k ne = ap (λ b. if b then none else m k) (==_false h k (λ e. ne (sym e)))

module _ (be : Backend) (from_dir from_name to_dir to_name : Text) (fi : FileInfo) (st : StatT)
    (from_h to_h : ℕ) where
  abbrev from : Text
  from = join from_dir from_name

  abbrev to : Text
  to = join to_dir to_name

  -- The handle that the file was given under its old name.
  abbrev pub old_handle : ℕ
  old_handle = make_fhandle be from st.ino st.dev

  module _ (silly : has_prefix to_name silly_prefix ≡ true) (not_from : old_handle ≢ from_h)
      (not_to : old_handle ≢ to_h) where
    abbrev E : Answers
    E = Stats to fi st

    reset-Ends :
        (a : Fattr3) (m : Handles)
        → m old_handle ≡ some from
        → Ends E (Unit {0}) (λ u n. n old_handle ≡ some to) (reset_silly be to_name from to a) m
    unfolding reset_silly fill_attr set_stat
    reset-Ends a m at = rw silly (
        Ends-stated to fi st a _ _ (
          Ends-found old_handle _ _ from at (
            Ends-if (text_eq from from) _ _ (λ t. Ends-set old_handle to (put-at m old_handle to))
              (λ t. Ends-exit))))

    -- Where the reply is a success the handle stands for the new name.
    abbrev pub Q : Post RenameRes
    Q r n = When (is_ok r.status) (n old_handle ≡ some to)

    rename_refused : (e : Errno) (P : Type 0) → When (is_ok (get_rename_err e)) P
    rename_refused e P = failed _ P (get_rename_err-fails e)

    -- The post attributes drop no handle but those of the directories.
    after-Ends :
        (n : Handles) (f : PostOpAttr → PostOpAttr → RenameRes)
        → ((a b : PostOpAttr) (k : Handles) → k old_handle ≡ some to → Q (f a b) k)
        → n old_handle ≡ some to
        → Ends E
            (Unit {0})
            Q
            (do a ← post_attr from_h from_dir; b ← post_attr to_h to_dir; ret (f a b))
            n
    after-Ends n f good at = Ends-bind _ _ (
        Ends-post_attr from_h from_dir (λ a. second a n at)
          (λ a. second a (remove n from_h) (remove-other n from_h old_handle not_from ∙ at)))
      where
        second :
            (a : PostOpAttr) (k : Handles)
            → k old_handle ≡ some to
            → Ends E (Unit {0}) Q (do b ← post_attr to_h to_dir; ret (f a b)) k
        second a k there = Ends-bind _ _ (
            Ends-post_attr to_h to_dir (λ b. Ends-ret _ (good a b k there))
              (λ b.
                Ends-ret _
                  (good a b (remove k to_h) (remove-other k to_h old_handle not_to ∙ there))))

    abbrev renaming : Renaming
    renaming = record {
      from_h = from_h;
      from_dir = from_dir;
      from_name = from_name;
      to_h = to_h;
      to_dir = to_dir;
      to_name = to_name;
    }

    done-Ends :
        (from_pre to_pre : PreOpAttr) (fattr : Fattr3) (m : Handles)
        → m old_handle ≡ some from
        → Ends E (Unit {0}) Q (Rename.rename_done be renaming from_pre to_pre fattr) m
    unfolding Rename.rename_done
    done-Ends from_pre to_pre fattr m at = Ends-bind _ _ (
        Ends-weaken (λ u n. n old_handle ≡ some to) (λ u n k. after-Ends n _ (λ a b x y. y) k)
          (reset-Ends fattr m at))

    within-Ends :
        (fattr to_fattr : Fattr3) (m : Handles)
        → m old_handle ≡ some from
        → Ends E (Unit {0}) Q (Rename.rename_within be renaming fattr to_fattr) m
    unfolding Rename.rename_within Rename.rename_failed
    within-Ends fattr to_fattr m at =
        search (ends_rules, Ends-post_attr, done-Ends, rename_refused) depth 24

    rename-Ends :
        (m : Handles)
        → m from_h ≡ some from_dir
        → m to_h ≡ some to_dir
        → m old_handle ≡ some from
        → Ends E (Unit {0}) Q (Rename.rename be from_h from_name to_h to_name) m
    unfolding Rename.rename Rename.to_dir_only Rename.from_dir_only
    rename-Ends m held_from held_to at = Ends-found from_h _ _ from_dir held_from (
        Ends-stat_path from_dir zero_fattr _ _ (λ e a. search (ends_rules, Ends-stat_path) depth 16)
          (λ fattr.
            Ends-found to_h _ _ to_dir held_to
              (search (ends_rules, Ends-stat_path, Ends-post_attr, within-Ends) depth 16)))

    -- A client that has a file open renames it to a ".nfs" name, and the file's numbers stay what
    -- they were: after a success the handle that it has for the old name stands for the new one. The
    -- handle is not that of a directory of the request.
    pub rename-silly :
        (os : Os) (s t : Server os) (r : RenameRes)
        → Answering os (Stats to fi st) (Unit {0}) Q
        → s.handles from_h ≡ some from_dir
        → s.handles to_h ≡ some to_dir
        → s.handles old_handle ≡ some from
        → run os (Rename.rename be from_h from_name to_h to_name) s ≡ (done r, t)
        → is_ok r.status ≡ true
        → t.handles old_handle ≡ some to
    rename-silly os s t r answering held_from held_to at e o = taken _ _ o (
        subst (Ended (Unit {0}) Q) e
          (Ends-run os E (Unit {0}) Q answering _ s (rename-Ends s.handles held_from held_to at)))
