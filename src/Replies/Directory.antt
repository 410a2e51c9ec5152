-- ===== src/Replies/Directory.antt =====
-- nfs3/nfsprocdef.go and nfs3/allunix.go: Readdir of a directory that nobody changes.
use gonfs.Common.{ℕ, ◌≡◌, refl, sym, ap, subst, Bool, Text, List, ◌∷◌, Option, none, some}
use gonfs.Os.{ok, FileInfo, StatT, lstat, open_read, readdir, close}
use gonfs.Types.Status.{nfs3_ok}
use gonfs.Types.Attr.{Fattr3, zero_fattr, no_post}
use gonfs.Types.Reply.{Entry3}
use gonfs.Prog.{Prog, ret, ◌>>=◌, ◌>>◌, perform}
use gonfs.Prog.Run.{Handles, Outcome, done}
use gonfs.Prog.Settled.{Settled, settle, settle-bind, settle-attempt, settle-with_path}
use gonfs.Backend.Base.{
  Backend, uint64, join, dot, dotdot, get_file_attr_from_path, stat_path, followed, fill_attr,
}
use gonfs.Backend.ReadDir
use gonfs.Backend.ReadDir.{Reading, read_page, read_dir, with_dots, readdir_reply}
use gonfs.Svc.{Request, Reply, serve, fhandle}

-- A directory that nobody changes, with the files that Readdir of package os gives: it can be
-- stated, opened and read, and so can dot and dotdot in it.
pub record Directory (ans : Settled) (dir : Text) (ds : List FileInfo) : Type 0 where
  pub info : FileInfo
  pub stat : StatT
  pub fd : ℕ
  pub here : FileInfo
  pub up : FileInfo
  pub is_named : (c : ℕ) × (cs : Text) × (dir ≡ c ∷ cs)
  pub stated : ans (lstat dir) ≡ ok info
  pub with_stat : info.stat ≡ some stat
  pub opened : ans (open_read dir) ≡ ok fd
  pub listed : ans (readdir fd) ≡ ok ds
  pub dot_stated : ans (lstat (join dir dot)) ≡ ok here
  pub dotdot_stated : ans (lstat (join dir dotdot)) ≡ ok up

module _ (ans : Settled) (dir : Text) (ds : List FileInfo) (d : Directory ans dir ds) where
  -- The entries that ReadDir has to send.
  abbrev pub all_entries : List (Option FileInfo)
  all_entries = with_dots ds (some (d.here, some d.up))

  settle-dots :
      (m : Handles)
      → settle ans (ReadDir.get_dot_and_dotdot dir) m ≡ (done (some (d.here, some d.up)), m)
  unfolding ReadDir.get_dot_and_dotdot ReadDir.lstat_or_nil settle
  settle-dots m = subst Dots (sym d.is_named.2) named
    where
      Dots : Text → Type 0
      Dots t = settle ans (ReadDir.get_dot_and_dotdot t) m ≡ (done (some (d.here, some d.up)), m)

      here : ans (lstat (join (d.is_named.0 ∷ d.is_named.1) dot)) ≡ ok d.here
      here = subst (λ t. ans (lstat (join t dot)) ≡ ok d.here) d.is_named.2 d.dot_stated

      up : ans (lstat (join (d.is_named.0 ∷ d.is_named.1) dotdot)) ≡ ok d.up
      up = subst (λ t. ans (lstat (join t dotdot)) ≡ ok d.up) d.is_named.2 d.dotdot_stated

      named : Dots (d.is_named.0 ∷ d.is_named.1)
      named =
          settle-bind ans _ _ m m (some d.up) (settle-attempt ans _ _ _ m d.up up refl)
            (settle-attempt ans _ _ _ m d.here here refl)

  abbrev pub attr : Fattr3
  attr = (fill_attr d.info zero_fattr).1

  no_error : (fill_attr d.info zero_fattr).0 ≡ none
  unfolding fill_attr
  no_error = rw d.with_stat refl

  filled : (m : Handles) → settle ans (ret (fill_attr d.info zero_fattr)) m ≡ (done (none, attr), m)
  unfolding settle
  filled m = ap (λ e. (done (e, attr), m)) no_error

  settle-stat :
      {A : Type 0} {o : Outcome A × Handles} (m : Handles) (failed : _) (next : Fattr3 → Prog A)
      → settle ans (next attr) m ≡ o
      → settle ans (stat_path dir zero_fattr failed next) m ≡ o
  unfolding settle stat_path get_file_attr_from_path
  settle-stat m failed next q =
      settle-bind ans _ _ m m (none, attr) (settle-attempt ans _ _ _ m d.info d.stated (filled m)) q

  settle-close :
      {A : Type 0} (m : Handles) (a : A)
      → settle ans (do perform (close d.fd); ret a) m ≡ (done a, m)
  unfolding settle perform ◌>>=◌
  settle-close m a = refl

  settle-open :
      (be : Backend) (h cookie count : ℕ) (m : Handles) (es : List Entry3) (e : Bool)
      → read_page be dir cookie count (some d.here) all_entries ≡ some (es, e)
      → settle ans (ReadDir.read_open_dir be h dir cookie count attr d.fd) m
        ≡ (done (readdir_reply nfs3_ok (followed attr) es e no_post), m)
  unfolding settle ReadDir.read_open_dir
  settle-open be h cookie count m es e page =
      settle-bind ans _ _ m m (readdir_reply nfs3_ok (followed attr) es e no_post)
        (settle-attempt ans _ _ _ m ds d.listed (
          settle-bind ans _ _ m m (some (d.here, some d.up)) (settle-dots m)
            (ap (λ p. settle ans (ReadDir.answer_page be attr p) m) page)))
        (settle-close m _)

  settle-read_dir :
      (be : Backend) (h cookie count : ℕ) (m : Handles) (es : List Entry3) (e : Bool)
      → m h ≡ some dir
      → read_page be dir cookie count (some d.here) all_entries ≡ some (es, e)
      → settle ans (read_dir be h cookie count) m
        ≡ (done (readdir_reply nfs3_ok (followed attr) es e no_post), m)
  unfolding read_dir
  settle-read_dir be h cookie count m es e at page = settle-with_path ans h _ _ m dir at (
      settle-stat m _ _
        (settle-attempt ans _ _ _ m d.fd d.opened (settle-open be h cookie count m es e page)))

  pub settle-readdir :
      (be : Backend) (fh : Text) (h cookie count : ℕ) (m : Handles) (es : List Entry3) (e : Bool)
      → uint64 fh ≡ some h
      → m h ≡ some dir
      → read_page be dir cookie count (some d.here) all_entries ≡ some (es, e)
      → settle ans (serve be (Request.readdir fh cookie count)) m
        ≡ (done (Reply.listed (readdir_reply nfs3_ok (followed attr) es e no_post)), m)
  unfolding serve fhandle settle
  settle-readdir be fh h cookie count m es e handle at page = rw handle (
      settle-bind ans _ _ m m (readdir_reply nfs3_ok (followed attr) es e no_post)
        (settle-read_dir be h cookie count m es e at page) refl)
