-- ===== src/Safety/Reading.antt =====
-- nfs3/allunix.go: the calls of the methods that change no file, by the handles they get.
use gonfs.Common.{ℕ, Text, ◌≡◌, Option, none, some, List, [], ◌∷◌, Bool}
use gonfs.Common.Int.{int64}
use gonfs.Os.{Call, Result, ok, err}
use gonfs.Types.Reply.{Entry3}
use gonfs.Prog.Run.{Handles}
use gonfs.Prog.Makes.{Makes}
use gonfs.Backend.Base.{Backend}
use gonfs.Backend.Mount
use gonfs.Backend.Query
use gonfs.Backend.Lookup
use gonfs.Backend.Io
use gonfs.Backend.ReadDir
use gonfs.Safety.Makes.{Looks, rules}

module _ {K : Call → Type 0} (k : Looks K) where
  module _ (be : Backend) {m : Handles} where
    pub mount-Makes : (p : Text) → Makes K (Mount.mount be p) m
    unfolding Mount.mount
    mount-Makes p = search rules depth 20

    pub unmount-Makes : (p : Text) → Makes K (Mount.unmount be p) m
    unfolding Mount.unmount
    unmount-Makes p = search rules depth 20

    pub lookup-Makes : (h : ℕ) (name : Text) → Makes K (Lookup.lookup be h name) m
    unfolding Lookup.lookup
    lookup-Makes h name = search rules depth 20

  module _ (h : ℕ) {m : Handles} where
    pub getattr-Makes : Makes K (Query.get_file_attr h) m
    unfolding Query.get_file_attr
    getattr-Makes = search rules depth 20

    pub fsinfo-Makes : Makes K (Query.get_file_sys_info h) m
    unfolding Query.get_file_sys_info
    fsinfo-Makes = search rules depth 20

    pub fsstat-Makes :
        ((p : Text) → m h ≡ some p → K (Call.statfs p)) → Makes K (Query.get_file_system_attr h) m
    unfolding Query.get_file_system_attr
    fsstat-Makes f = search rules depth 20

    pub pathconf-Makes : Makes K (Query.get_path_conf h) m
    unfolding Query.get_path_conf
    pathconf-Makes = search rules depth 20

    pub readdirplus-Makes : Makes K (Query.read_dir_plus h) m
    unfolding Query.read_dir_plus
    readdirplus-Makes = search rules depth 20

    pub access-Makes : Makes K (Query.access h) m
    unfolding Query.access
    access-Makes = search (rules, k.user, k.group) depth 20

    pub readlink-Makes :
        ((p : Text) → m h ≡ some p → K (Call.readlink p)) → Makes K (Query.read_link h) m
    unfolding Query.read_link
    readlink-Makes f = search rules depth 20

  module _ (h : ℕ) (name : Text) where
    answer_read-Makes :
        (n : ℕ) (r : Result (Text × ℕ × Bool)) {m : Handles} → Makes K (Io.answer_read h name n r) m
    answer_read-Makes n (ok (c, j, e)) = search rules depth 12
    answer_read-Makes n (err e) = search rules depth 12

    read_open-Makes :
        (offset count fd : ℕ) {m : Handles}
        → K (Call.read_at fd (Io.clamp_count count) (int64 offset))
        → Makes K (Io.read_open h name offset count fd) m
    unfolding Io.read_open
    read_open-Makes offset count fd c = search (rules, k.closes, answer_read-Makes) depth 24

  pub read-Makes :
      (h offset count : ℕ) {m : Handles}
      → ((p : Text) → m h ≡ some p → K (Call.open_read p))
      → ((fd : ℕ) → K (Call.read_at fd (Io.clamp_count count) (int64 offset)))
      → Makes K (Io.read h offset count) m
  unfolding Io.read
  read-Makes h offset count f g = search (rules, read_open-Makes) depth 24

  module _ (be : Backend) (h : ℕ) where
    answer_page-Makes :
        (a : _) (p : Option (List Entry3 × Bool)) {m : Handles}
        → Makes K (ReadDir.answer_page be a p) m
    answer_page-Makes a none = search rules depth 12
    answer_page-Makes a (some (es, e)) = search rules depth 12

    lstat_or_nil-Makes : (p : Text) {m : Handles} → Makes K (ReadDir.lstat_or_nil p) m
    unfolding ReadDir.lstat_or_nil
    lstat_or_nil-Makes p = search (rules, k.lstats) depth 12

    dots-Makes : (dir : Text) {m : Handles} → Makes K (ReadDir.get_dot_and_dotdot dir) m
    unfolding ReadDir.get_dot_and_dotdot
    dots-Makes [] = search rules depth 12
    dots-Makes (c ∷ dir) = search (rules, k.lstats, lstat_or_nil-Makes) depth 16

    read_open_dir-Makes :
        (dir : Text) (cookie count : ℕ) (a : _) (fd : ℕ) {m : Handles}
        → Makes K (ReadDir.read_open_dir be h dir cookie count a fd) m
    unfolding ReadDir.read_open_dir
    read_open_dir-Makes dir cookie count a fd =
        search (rules, k.closes, k.lists, dots-Makes, answer_page-Makes) depth 24

    pub read_dir-Makes :
        (cookie count : ℕ) {m : Handles}
        → ((p : Text) → m h ≡ some p → K (Call.open_read p))
        → Makes K (ReadDir.read_dir be h cookie count) m
    unfolding ReadDir.read_dir
    read_dir-Makes cookie count f = search (rules, read_open_dir-Makes) depth 24
