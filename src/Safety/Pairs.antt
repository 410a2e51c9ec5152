-- ===== src/Safety/Pairs.antt =====
-- nfs3/allunix.go: the calls and the stores of Rename and Link.
use gonfs.Common.{ℕ, Text, ◌≡◌, true, has_prefix}
use gonfs.Prog.{Prog}
use gonfs.Prog.Respects.{Respects, Any}
use gonfs.Backend.Base.{Backend, is_component, join, make_fhandle}
use gonfs.Backend.Rename
use gonfs.Backend.Rename.{silly_prefix}
use gonfs.Backend.Link
use gonfs.Safety.Permitted.{Kept, silly, Reached, Permitted, rules}

module _ (be : Backend) where
  abbrev V : Text → Type 0
  V = Reached be.export_path

  abbrev Keeps : {A : Type 0} → Prog A → Type 0
  Keeps p = Respects (Kept be) (Permitted be) Any p

  to_dir_only-Keeps : (h : ℕ) (a : _) → Keeps (Rename.to_dir_only h a)
  unfolding Rename.to_dir_only
  to_dir_only-Keeps h a = search rules depth 24

  from_dir_only-Keeps :
      (h : ℕ) (dir : Text) → V dir → (a : _) → Keeps (Rename.from_dir_only h dir a)
  unfolding Rename.from_dir_only
  from_dir_only-Keeps h dir v a = search rules depth 24

  silly-Kept :
      (from to_dir to_name : Text) (fid fsid : ℕ)
      → V (join to_dir to_name)
      → has_prefix to_name silly_prefix ≡ true
      → Kept be (make_fhandle be from fid fsid) (join to_dir to_name)
  silly-Kept from to_dir to_name fid fsid v p = record {
    reached = v;
    given = silly from to_dir to_name fid fsid p;
  }

  reset_silly-Keeps :
      (to_dir to_name from : Text)
      → V (join to_dir to_name)
      → (a : _) → Keeps (Rename.reset_silly be to_name from (join to_dir to_name) a)
  unfolding Rename.reset_silly
  reset_silly-Keeps to_dir to_name from v a = search (rules, silly-Kept) depth 24

  module _ (r : Rename.Renaming) (vf : V r.from_dir) (vt : V r.to_dir) where
    rename_failed-Keeps : (p q : _) (s : _) → Keeps (Rename.rename_failed r p q s)
    unfolding Rename.rename_failed
    rename_failed-Keeps p q s = search rules depth 24

    rename_done-Keeps :
        is_component r.to_name ≡ true → (p q : _) (a : _) → Keeps (Rename.rename_done be r p q a)
    unfolding Rename.rename_done
    rename_done-Keeps n p q a = search (rules, reset_silly-Keeps) depth 24

    rename_within-Keeps : (a b : _) → Keeps (Rename.rename_within be r a b)
    unfolding Rename.rename_within
    rename_within-Keeps a b = search (rules, rename_failed-Keeps, rename_done-Keeps) depth 24

  pub rename-Keeps :
      (from_h : ℕ) (from_name : Text) (to_h : ℕ) (to_name : Text)
      → Keeps (Rename.rename be from_h from_name to_h to_name)
  unfolding Rename.rename
  rename-Keeps from_h from_name to_h to_name =
      search (rules, to_dir_only-Keeps, from_dir_only-Keeps, rename_within-Keeps) depth 24

  old_only-Keeps : (h : ℕ) → Keeps (Link.old_only h)
  unfolding Link.old_only
  old_only-Keeps h = search rules depth 24

  link_dir_only-Keeps : (h : ℕ) (dir : Text) → V dir → (a : _) → Keeps (Link.link_dir_only h dir a)
  unfolding Link.link_dir_only
  link_dir_only-Keeps h dir v a = search rules depth 24

  module _ (l : Link.Linking) (vo : V l.old_name) (vd : V l.link_dir) where
    link_post-Keeps : Keeps (Link.link_post l)
    unfolding Link.link_post
    link_post-Keeps = search rules depth 24

    link_failed-Keeps : (p : _) (s : _) → Keeps (Link.link_failed l p s)
    unfolding Link.link_failed
    link_failed-Keeps p s = search (rules, link_post-Keeps) depth 24

    link_within-Keeps : (a b : _) → Keeps (Link.link_within be l a b)
    unfolding Link.link_within
    link_within-Keeps a b = search (rules, link_failed-Keeps, link_post-Keeps) depth 24

  pub link-Keeps : (old_h dir_h : ℕ) (name : Text) → Keeps (Link.link be old_h dir_h name)
  unfolding Link.link
  link-Keeps old_h dir_h name =
      search (rules, old_only-Keeps, link_dir_only-Keeps, link_within-Keeps) depth 24
