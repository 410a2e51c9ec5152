-- ===== src/Safety/Changing.antt =====
-- nfs3/allunix.go: the calls of the methods that change files, by the handles and names they get.
use gonfs.Common.{ℕ, Text, ◌≡◌, Option, none, some, List}
use gonfs.Common.Int.{int64}
use gonfs.Os.{Call, OsError, OpenFlag}
use gonfs.Types.Attr.{Nfstime3}
use gonfs.Types.Args.{StableHow, Sattr3}
use gonfs.Prog.Run.{Handles}
use gonfs.Prog.Makes.{Makes}
use gonfs.Backend.Base.{Backend, join}
use gonfs.Backend.NewObject
use gonfs.Backend.Remove
use gonfs.Backend.Setattr
use gonfs.Backend.Io
use gonfs.Backend.Rename
use gonfs.Backend.Link
use gonfs.Safety.Makes.{Looks, rules}

module _ {K : Call → Type 0} (k : Looks K) (be : Backend) where
  module _ (h : ℕ) where
    fail_in-Makes :
        (dir : Text) (s : _) (a : _) (pre : _) {m : Handles}
        → Makes K (NewObject.fail_in h dir s a pre) m
    unfolding NewObject.fail_in
    fail_in-Makes dir s a pre = search rules depth 20

    made-Makes :
        (dir name : Text) (pre : _) (a : _) {m : Handles}
        → Makes K (NewObject.made be h dir name pre a) m
    unfolding NewObject.made
    made-Makes dir name pre a = search rules depth 20

    created-Makes :
        (dir name : Text) (pre : _) (fd : ℕ) {m : Handles}
        → Makes K (NewObject.created be h dir name pre fd) m
    unfolding NewObject.created
    created-Makes dir name pre fd = search (rules, k.closes, fail_in-Makes, made-Makes) depth 24

  module _ (h : ℕ) {m : Handles} where
    pub mkdir-Makes :
        (name : Text) (attr : _)
        → ((dir : Text) (n : ℕ) → m h ≡ some dir → K (Call.mkdir (join dir name) n))
        → Makes K (NewObject.mkdir be h name attr) m
    unfolding NewObject.mkdir
    mkdir-Makes name attr f = search (rules, fail_in-Makes, made-Makes) depth 24

    pub create-Makes :
        (name : Text) (how : _)
        → ((dir : Text) (fs : List OpenFlag) (n : ℕ)
            → m h ≡ some dir
            → K (Call.open_file (join dir name) fs n))
        → Makes K (NewObject.create be h name how) m
    unfolding NewObject.create
    create-Makes name how f = search (rules, fail_in-Makes, created-Makes) depth 24

    pub symlink-Makes :
        (name target : Text)
        → ((dir : Text) → m h ≡ some dir → K (Call.symlink target (join dir name)))
        → Makes K (NewObject.symlink be h name target) m
    unfolding NewObject.symlink
    symlink-Makes name target f = search (rules, fail_in-Makes, made-Makes) depth 24

    pub remove-Makes :
        (name : Text)
        → ((dir : Text) → m h ≡ some dir → K (Call.unlink (join dir name)))
        → Makes K (Remove.remove be h name) m
    unfolding Remove.remove
    remove-Makes name f = search rules depth 24

    pub rmdir-Makes :
        (name : Text)
        → ((dir : Text) → m h ≡ some dir → K (Call.rmdir (join dir name)))
        → Makes K (Remove.rmdir be h name) m
    unfolding Remove.rmdir
    rmdir-Makes name f = search rules depth 24

    pub commit-Makes : Makes K (Io.commit be h) m
    unfolding Io.commit
    commit-Makes = search rules depth 24

  -- What Setattr does to the file, with the attributes of its arguments.
  pub record Sets (new : Sattr3) (name : Text) : Type 0 where
    pub resized : K (Call.truncate name (int64 new.size.size))
    pub moded : K (Call.chmod name new.mode.mode)
    pub timed : (a b : Nfstime3) → K (Call.chtimes name a b)

  module _ (new : Sattr3) (name : Text) (f : Sets new name) {m : Handles} where
    set_times-Makes : (fattr : _) → Makes K (Setattr.set_times name fattr new) m
    unfolding Setattr.set_times
    set_times-Makes fattr = search (rules, f.timed) depth 24

    set_mode-Makes : (fattr : _) → Makes K (Setattr.set_mode name fattr new) m
    unfolding Setattr.set_mode
    set_mode-Makes fattr = search (rules, f.moded, set_times-Makes) depth 24

    set_attributes-Makes : (fattr : _) → Makes K (Setattr.set_attributes name fattr new) m
    unfolding Setattr.set_attributes
    set_attributes-Makes fattr = search (rules, f.resized, set_mode-Makes) depth 24

  pub setattr-Makes :
      (h : ℕ) {m : Handles} (new : Sattr3) (guard : _)
      → ((name : Text) → m h ≡ some name → Sets new name)
      → Makes K (Setattr.setattr be h new guard) m
  unfolding Setattr.setattr
  setattr-Makes h new guard f = search (rules, set_attributes-Makes) depth 24

  -- What Write does to the file.
  pub record Puts (offset : ℕ) (bytes name : Text) : Type 0 where
    pub opened : (fs : List OpenFlag) (n : ℕ) → K (Call.open_file name fs n)
    pub put : (fd : ℕ) → K (Call.write_at fd bytes (int64 offset))
    pub synced : (fd : ℕ) → K (Call.sync fd)

  module _ (h offset : ℕ) (bytes name : Text) (f : Puts offset bytes name) where
    commit_level-Makes : (how : _) (fd : ℕ) {m : Handles} → Makes K (Io.commit_level how fd) m
    unfolding Io.commit_level
    commit_level-Makes StableHow.unstable fd = search (rules, f.synced) depth 12
    commit_level-Makes _ fd = search (rules, f.synced) depth 12

    answer_write-Makes :
        (pre : _) (how : _) (fd n : ℕ) (e : Option OsError) {m : Handles}
        → Makes K (Io.answer_write be h name pre how fd n e) m
    answer_write-Makes pre how fd n none = search (rules, commit_level-Makes) depth 12
    answer_write-Makes pre how fd n (some e) = search rules depth 12

    write_open-Makes :
        (pre : _) (how : _) (fd : ℕ) {m : Handles}
        → Makes K (Io.write_open be h name pre offset how bytes fd) m
    unfolding Io.write_open
    write_open-Makes pre how fd = search (rules, k.closes, f.put, answer_write-Makes) depth 24

  opened-Puts :
      (offset : ℕ) (bytes name : Text)
      → Puts offset bytes name
      → (fs : List OpenFlag) (n : ℕ) → K (Call.open_file name fs n)
  opened-Puts offset bytes name f = f.opened

  pub write-Makes :
      (h : ℕ) {m : Handles} (offset count : ℕ) (how : _) (bytes : Text)
      → ((name : Text) → m h ≡ some name → Puts offset bytes name)
      → Makes K (Io.write be h offset count how bytes) m
  unfolding Io.write
  write-Makes h offset count how bytes f =
      search (rules, write_open-Makes, opened-Puts offset bytes) depth 24

  module _ {m : Handles} where
    to_dir_only-Makes : (h : ℕ) (a : _) → Makes K (Rename.to_dir_only h a) m
    unfolding Rename.to_dir_only
    to_dir_only-Makes h a = search rules depth 24

    from_dir_only-Makes : (h : ℕ) (dir : Text) (a : _) → Makes K (Rename.from_dir_only h dir a) m
    unfolding Rename.from_dir_only
    from_dir_only-Makes h dir a = search rules depth 24

    reset_silly-Makes :
        (to_name from to : Text) (a : _) → Makes K (Rename.reset_silly be to_name from to a) m
    unfolding Rename.reset_silly
    reset_silly-Makes to_name from to a = search rules depth 24

  module _ (r : Rename.Renaming) {m : Handles} where
    rename_failed-Makes : (p q : _) (s : _) → Makes K (Rename.rename_failed r p q s) m
    unfolding Rename.rename_failed
    rename_failed-Makes p q s = search rules depth 24

    rename_done-Makes : (p q : _) (a : _) → Makes K (Rename.rename_done be r p q a) m
    unfolding Rename.rename_done
    rename_done-Makes p q a = search (rules, reset_silly-Makes) depth 24

    rename_within-Makes :
        (a b : _)
        → K (Call.rename (join r.from_dir r.from_name) (join r.to_dir r.to_name))
        → Makes K (Rename.rename_within be r a b) m
    unfolding Rename.rename_within
    rename_within-Makes a b c = search (rules, rename_failed-Makes, rename_done-Makes) depth 24

  pub rename-Makes :
      (from_h : ℕ) (from_name : Text) (to_h : ℕ) (to_name : Text) {m : Handles}
      → ((d e : Text)
          → m from_h ≡ some d
          → m to_h ≡ some e
          → K (Call.rename (join d from_name) (join e to_name)))
      → Makes K (Rename.rename be from_h from_name to_h to_name) m
  unfolding Rename.rename
  rename-Makes from_h from_name to_h to_name f =
      search (rules, to_dir_only-Makes, from_dir_only-Makes, rename_within-Makes) depth 24

  module _ {m : Handles} where
    old_only-Makes : (h : ℕ) → Makes K (Link.old_only h) m
    unfolding Link.old_only
    old_only-Makes h = search rules depth 24

    link_dir_only-Makes : (h : ℕ) (dir : Text) (a : _) → Makes K (Link.link_dir_only h dir a) m
    unfolding Link.link_dir_only
    link_dir_only-Makes h dir a = search rules depth 24

  module _ (l : Link.Linking) {m : Handles} where
    link_post-Makes : Makes K (Link.link_post l) m
    unfolding Link.link_post
    link_post-Makes = search rules depth 24

    link_failed-Makes : (p : _) (s : _) → Makes K (Link.link_failed l p s) m
    unfolding Link.link_failed
    link_failed-Makes p s = search (rules, link_post-Makes) depth 24

    link_within-Makes :
        (a b : _)
        → K (Call.link l.old_name (join l.link_dir l.new_name))
        → Makes K (Link.link_within be l a b) m
    unfolding Link.link_within
    link_within-Makes a b c = search (rules, link_failed-Makes, link_post-Makes) depth 24

  pub link-Makes :
      (old_h dir_h : ℕ) (name : Text) {m : Handles}
      → ((d e : Text) → m old_h ≡ some d → m dir_h ≡ some e → K (Call.link d (join e name)))
      → Makes K (Link.link be old_h dir_h name) m
  unfolding Link.link
  link-Makes old_h dir_h name f =
      search (rules, old_only-Makes, link_dir_only-Makes, link_within-Makes) depth 24
