-- ===== src/Safety/Open.antt =====
-- nfs3/allunix.go: the calls and the stores of the methods that keep a file open, and of Commit.
use gonfs.Common.{ℕ, Text, ◌≡◌, true, Bool, Option, none, some, List, [], ◌∷◌}
use gonfs.Os.{Result, ok, err, OsError}
use gonfs.Prog.{Prog}
use gonfs.Prog.Respects.{Respects, Any}
use gonfs.Backend.Base.{Backend}
use gonfs.Backend.Io
use gonfs.Backend.ReadDir
use gonfs.Types.Args.{StableHow}
use gonfs.Types.Reply.{Entry3}
use gonfs.Safety.Permitted.{Kept, Reached, Permitted, rules}

module _ (be : Backend) where
  abbrev V : Text → Type 0
  V = Reached be.export_path

  abbrev Keeps : {A : Type 0} → Prog A → Type 0
  Keeps p = Respects (Kept be) (Permitted be) Any p

  module _ (h : ℕ) where
    answer_read-Keeps :
        (name : Text)
        → V name
        → (n : ℕ) (r : Result (Text × ℕ × Bool)) → Keeps (Io.answer_read h name n r)
    answer_read-Keeps name v n (ok (c, k, e)) = search rules depth 12
    answer_read-Keeps name v n (err e) = search rules depth 12

    read_open-Keeps :
        (name : Text) → V name → (offset count fd : ℕ) → Keeps (Io.read_open h name offset count fd)
    unfolding Io.read_open
    read_open-Keeps name v offset count fd = search (rules, answer_read-Keeps) depth 24

    pub read-Keeps : (offset count : ℕ) → Keeps (Io.read h offset count)
    unfolding Io.read
    read-Keeps offset count = search (rules, read_open-Keeps) depth 24

    module _ (w : be.writeaccess ≡ true) where
      commit_level-Keeps : (how : _) (fd : ℕ) → Keeps (Io.commit_level how fd)
      unfolding Io.commit_level
      commit_level-Keeps StableHow.unstable fd = search rules depth 12
      commit_level-Keeps _ fd = search rules depth 12

      answer_write-Keeps :
          (name : Text)
          → V name
          → (pre : _) (how : _) (fd n : ℕ) (e : Option OsError)
          → Keeps (Io.answer_write be h name pre how fd n e)
      answer_write-Keeps name v pre how fd n none = search (rules, commit_level-Keeps) depth 12
      answer_write-Keeps name v pre how fd n (some e) = search rules depth 12

      write_open-Keeps :
          (name : Text)
          → V name
          → (pre : _) (offset : ℕ) (how : _) (bytes : Text) (fd : ℕ)
          → Keeps (Io.write_open be h name pre offset how bytes fd)
      unfolding Io.write_open
      write_open-Keeps name v pre offset how bytes fd = search (rules, answer_write-Keeps) depth 24

    pub write-Keeps :
        (offset count : ℕ) (how : _) (bytes : Text) → Keeps (Io.write be h offset count how bytes)
    unfolding Io.write
    write-Keeps offset count how bytes = search (rules, write_open-Keeps) depth 24

    pub commit-Keeps : Keeps (Io.commit be h)
    unfolding Io.commit
    commit-Keeps = search rules depth 24

    answer_page-Keeps :
        (a : _) (p : Option (List Entry3 × Bool)) → Keeps (ReadDir.answer_page be a p)
    answer_page-Keeps a none = search rules depth 12
    answer_page-Keeps a (some (es, e)) = search rules depth 12

    lstat_or_nil-Keeps : (p : Text) → V p → Keeps (ReadDir.lstat_or_nil p)
    unfolding ReadDir.lstat_or_nil
    lstat_or_nil-Keeps p v = search rules depth 12

    dots-Keeps : (dir : Text) → V dir → Keeps (ReadDir.get_dot_and_dotdot dir)
    unfolding ReadDir.get_dot_and_dotdot
    dots-Keeps [] v = search rules depth 12
    dots-Keeps (c ∷ dir) v = search (rules, lstat_or_nil-Keeps) depth 12

    read_open_dir-Keeps :
        (dir : Text)
        → V dir
        → (cookie count : ℕ) (a : _) (fd : ℕ)
        → Keeps (ReadDir.read_open_dir be h dir cookie count a fd)
    unfolding ReadDir.read_open_dir
    read_open_dir-Keeps dir v cookie count a fd =
        search (rules, dots-Keeps, answer_page-Keeps) depth 24

    pub read_dir-Keeps : (cookie count : ℕ) → Keeps (ReadDir.read_dir be h cookie count)
    unfolding ReadDir.read_dir
    read_dir-Keeps cookie count = search (rules, read_open_dir-Keeps) depth 24
