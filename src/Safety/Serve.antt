-- ===== src/Safety/Serve.antt =====
-- Every request of nfs3/nfsprocdef.go, by the methods it calls.
use gonfs.Common.{ℕ, Option, none, some}
use gonfs.Prog.{Prog}
use gonfs.Prog.Respects.{Respects, Any, respects_rules}
use gonfs.Backend.Base.{Backend}
use gonfs.Svc.{Request, Reply, fhandle, serve}
use gonfs.Safety.Permitted.{Kept, Permitted}
use gonfs.Safety.Methods.{
  mount-Keeps, unmount-Keeps, lookup-Keeps, getattr-Keeps, fsinfo-Keeps, fsstat-Keeps,
  pathconf-Keeps, readdirplus-Keeps, access-Keeps, readlink-Keeps, mkdir-Keeps, create-Keeps,
  symlink-Keeps, remove-Keeps, rmdir-Keeps, setattr-Keeps,
}
use gonfs.Safety.Open.{read-Keeps, write-Keeps, commit-Keeps, read_dir-Keeps}
use gonfs.Safety.Pairs.{rename-Keeps, link-Keeps}

module _ (be : Backend) where
  abbrev Safe : {A : Type 0} → Prog A → Type 0
  Safe p = Respects (Kept be) (Permitted be) Any p

  fhandle-Safe : (o : Option ℕ) (k : ℕ → Prog Reply) → ((h : ℕ) → Safe (k h)) → Safe (fhandle o k)
  unfolding fhandle
  fhandle-Safe none k f = search respects_rules
  fhandle-Safe (some h) k f = f h

ruleset method_rules = (
  respects_rules, fhandle-Safe, mount-Keeps, unmount-Keeps, lookup-Keeps, getattr-Keeps,
  fsinfo-Keeps, fsstat-Keeps, pathconf-Keeps, readdirplus-Keeps, access-Keeps, readlink-Keeps,
  mkdir-Keeps, create-Keeps, symlink-Keeps, remove-Keeps, rmdir-Keeps, setattr-Keeps, read-Keeps,
  write-Keeps, commit-Keeps, read_dir-Keeps, rename-Keeps, link-Keeps,
)

-- Provided that the map answers with paths that it may hold, and whatever the operating system answers,
-- every request makes only permitted calls, and stores only reached paths in the map, each for a
-- handle that was made for it or for the name before a Rename to a ".nfs" name: no call that changes
-- files on a read-only export, and no path but the export extended by names without slash (with
-- anything joined to such a path for rmdir).
pub serve-Permitted :
    (be : Backend) (r : Request) → Respects (Kept be) (Permitted be) Any (serve be r)
unfolding serve
serve-Permitted be (Request.mnt p) = search method_rules depth 12
serve-Permitted be _ = search method_rules depth 12
