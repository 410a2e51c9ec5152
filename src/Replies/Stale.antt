-- ===== src/Replies/Stale.antt =====
-- nfs3/allunix.go: the requests with one handle, where the map does not hold it.
use gonfs.Common.{ℕ, Text, ◌≡◌, refl, sym, Option, none, some, subst}
use gonfs.Os.{Os}
use gonfs.Types.Status.{Nfsstat3, nfs3err_stale}
use gonfs.Prog
use gonfs.Prog.{Prog, ret, ◌>>=◌, with_path}
use gonfs.Prog.Run.{done, Server, run}
use gonfs.Backend.Base.{Backend, uint64}
use gonfs.Backend.Query
use gonfs.Backend.Lookup
use gonfs.Backend.NewObject
use gonfs.Backend.Remove
use gonfs.Backend.Setattr
use gonfs.Backend.Io
use gonfs.Backend.ReadDir
use gonfs.Svc.{Request, Reply, serve, fhandle}

-- The handle of a request that has one.
abbrev pub handle_of : Request → Option ℕ
handle_of (Request.getattr fh) = uint64 fh
handle_of (Request.readlink fh) = uint64 fh
handle_of (Request.fsstat fh) = uint64 fh
handle_of (Request.fsinfo fh) = uint64 fh
handle_of (Request.pathconf fh) = uint64 fh
handle_of (Request.commit fh) = uint64 fh
handle_of (Request.readdirplus fh) = uint64 fh
handle_of (Request.access fh) = uint64 fh
handle_of (Request.lookup fh name) = uint64 fh
handle_of (Request.remove fh name) = uint64 fh
handle_of (Request.rmdir fh name) = uint64 fh
handle_of (Request.setattr fh new guard) = uint64 fh
handle_of (Request.read fh offset count) = uint64 fh
handle_of (Request.write fh offset count how bytes) = uint64 fh
handle_of (Request.create fh name how) = uint64 fh
handle_of (Request.mkdir fh name attr) = uint64 fh
handle_of (Request.symlink fh name path) = uint64 fh
handle_of (Request.readdir fh cookie count) = uint64 fh
handle_of _ = none

-- The status that a reply carries.
abbrev pub status_of : Reply → Option Nfsstat3
status_of (Reply.attributes r) = some r.status
status_of (Reply.info r) = some r.status
status_of (Reply.stats r) = some r.status
status_of (Reply.conf r) = some r.status
status_of (Reply.looked_up r) = some r.status
status_of (Reply.granted r) = some r.status
status_of (Reply.listed r) = some r.status
status_of (Reply.listed_plus r) = some r.status
status_of (Reply.made r) = some r.status
status_of (Reply.removed r) = some r.status
status_of (Reply.changed r) = some r.status
status_of (Reply.contents r) = some r.status
status_of (Reply.written r) = some r.status
status_of (Reply.committed r) = some r.status
status_of (Reply.renamed r) = some r.status
status_of (Reply.linked r) = some r.status
status_of (Reply.target r) = some r.status
status_of (Reply.unsupported s) = some s
status_of _ = none

module _ {A : Type 0} (os : Os) (s : Server os) where
  run-missing :
      (h : ℕ) (x : A) (found : Text → Prog A) (f : A → Reply)
      → s.handles h ≡ none
      → run os (do r ← with_path h (ret x) found; ret (f r)) s ≡ (done (f x), s)
  unfolding run with_path ◌>>=◌
  run-missing h x found f n =
      subst (λ o. run os (do r ← Prog.on_found (ret x) found o; ret (f r)) s ≡ (done (f x), s))
        (sym n) refl

  run-fhandle :
      (o : Option ℕ) (h : ℕ) (x : A) (found : ℕ → Text → Prog A) (f : A → Reply)
      → o ≡ some h
      → s.handles h ≡ none
      → run os (fhandle o (λ k. do r ← with_path k (ret x) (found k); ret (f r))) s
        ≡ (done (f x), s)
  unfolding fhandle
  run-fhandle o h x found f e n = rw e (run-missing h x (found h) f n)

none-some : {A P : Type 0} (a : A) → none ≡ some a → P
none-some a e = absurd (cc)

-- A request with one handle, of at least eight bytes, that the map does not hold is answered with
-- NFS3ERR_STALE: no system call is made, and the map stays as it is.
pub serve-stale :
    (os : Os) (be : Backend) (s : Server os) (r : Request) (h : ℕ)
    → handle_of r ≡ some h
    → s.handles h ≡ none
    → (a : Reply) × (run os (serve be r) s ≡ (done a, s)) × (status_of a ≡ some nfs3err_stale)
unfolding serve Query.get_file_attr Query.read_link Query.get_file_system_attr
    Query.get_file_sys_info Query.get_path_conf Io.commit Query.read_dir_plus Query.access
    Lookup.lookup Remove.remove Remove.rmdir Setattr.setattr Io.read Io.write NewObject.create
    NewObject.mkdir NewObject.symlink ReadDir.read_dir
serve-stale os be s (Request.mnt p) h e n = none-some h e
serve-stale os be s (Request.umnt p) h e n = none-some h e
serve-stale os be s Request.null h e n = none-some h e
serve-stale os be s Request.export_list h e n = none-some h e
serve-stale os be s Request.dump h e n = none-some h e
serve-stale os be s Request.umntall h e n = none-some h e
serve-stale os be s Request.mknod h e n = none-some h e
serve-stale os be s (Request.rename a b c d) h e n = none-some h e
serve-stale os be s (Request.link a b c) h e n = none-some h e
serve-stale os be s _ h e n = (_, run-fhandle os s _ h _ _ _ e n, refl)
