-- ===== src/Safety/Methods.antt =====
-- nfs3/allunix.go: the calls and the stores of the methods on one path.
use gonfs.Common.{ℕ, Text, ◌≡◌, true}
use gonfs.Prog.{Prog}
use gonfs.Prog.Respects.{Respects, Any}
use gonfs.Backend.Base.{Backend}
use gonfs.Backend.Mount.{mount, unmount}
use gonfs.Backend.Query
use gonfs.Backend.Lookup.{lookup}
use gonfs.Backend.NewObject
use gonfs.Backend.Remove
use gonfs.Backend.Setattr
use gonfs.Safety.Permitted.{Kept, Reached, Permitted, rules}

module _ (be : Backend) where
  abbrev V : Text → Type 0
  V = Reached be.export_path

  abbrev Keeps : {A : Type 0} → Prog A → Type 0
  Keeps p = Respects (Kept be) (Permitted be) Any p

  pub mount-Keeps : (p : Text) → Keeps (mount be p)
  unfolding mount
  mount-Keeps p = search rules depth 20

  pub unmount-Keeps : (p : Text) → Keeps (unmount be p)
  unfolding unmount
  unmount-Keeps p = search rules depth 20

  module _ (h : ℕ) where
    pub lookup-Keeps : (name : Text) → Keeps (lookup be h name)
    unfolding lookup
    lookup-Keeps name = search rules depth 20

    pub getattr-Keeps : Keeps (Query.get_file_attr h)
    unfolding Query.get_file_attr
    getattr-Keeps = search rules depth 20

    pub fsinfo-Keeps : Keeps (Query.get_file_sys_info h)
    unfolding Query.get_file_sys_info
    fsinfo-Keeps = search rules depth 20

    pub fsstat-Keeps : Keeps (Query.get_file_system_attr h)
    unfolding Query.get_file_system_attr
    fsstat-Keeps = search rules depth 20

    pub pathconf-Keeps : Keeps (Query.get_path_conf h)
    unfolding Query.get_path_conf
    pathconf-Keeps = search rules depth 20

    pub readdirplus-Keeps : Keeps (Query.read_dir_plus h)
    unfolding Query.read_dir_plus
    readdirplus-Keeps = search rules depth 20

    pub access-Keeps : Keeps (Query.access h)
    unfolding Query.access
    access-Keeps = search rules depth 20

    pub readlink-Keeps : Keeps (Query.read_link h)
    unfolding Query.read_link
    readlink-Keeps = search rules depth 20

    fail_in-Keeps :
        (dir : Text) → V dir → (s : _) (a : _) (pre : _) → Keeps (NewObject.fail_in h dir s a pre)
    unfolding NewObject.fail_in
    fail_in-Keeps dir r s a pre = search rules depth 20

    made-Keeps :
        (dir name : Text)
        → V dir
        → V name
        → (pre : _) (a : _) → Keeps (NewObject.made be h dir name pre a)
    unfolding NewObject.made
    made-Keeps dir name r n pre a = search rules depth 20

    pub mkdir-Keeps : (name : Text) (attr : _) → Keeps (NewObject.mkdir be h name attr)
    unfolding NewObject.mkdir
    mkdir-Keeps name attr = search (rules, fail_in-Keeps, made-Keeps) depth 24

    created-Keeps :
        (dir name : Text)
        → V dir
        → V name
        → (pre : _) (fd : ℕ) → Keeps (NewObject.created be h dir name pre fd)
    unfolding NewObject.created
    created-Keeps dir name r n pre fd = search (rules, fail_in-Keeps, made-Keeps) depth 24

    pub create-Keeps : (name : Text) (how : _) → Keeps (NewObject.create be h name how)
    unfolding NewObject.create
    create-Keeps name how = search (rules, fail_in-Keeps, created-Keeps) depth 24

    pub symlink-Keeps : (name target : Text) → Keeps (NewObject.symlink be h name target)
    unfolding NewObject.symlink
    symlink-Keeps name target = search (rules, fail_in-Keeps, made-Keeps) depth 24

    pub remove-Keeps : (name : Text) → Keeps (Remove.remove be h name)
    unfolding Remove.remove
    remove-Keeps name = search rules depth 24

    pub rmdir-Keeps : (name : Text) → Keeps (Remove.rmdir be h name)
    unfolding Remove.rmdir
    rmdir-Keeps name = search rules depth 24

    module _ (w : be.writeaccess ≡ true) (name : Text) (r : V name) (fattr : _) (new : _) where
      set_times-Keeps : Keeps (Setattr.set_times name fattr new)
      unfolding Setattr.set_times
      set_times-Keeps = search rules depth 24

      set_mode-Keeps : Keeps (Setattr.set_mode name fattr new)
      unfolding Setattr.set_mode
      set_mode-Keeps = search (rules, set_times-Keeps) depth 24

      set_attributes-Keeps : Keeps (Setattr.set_attributes name fattr new)
      unfolding Setattr.set_attributes
      set_attributes-Keeps = search (rules, set_mode-Keeps) depth 24

    pub setattr-Keeps : (new : _) (guard : _) → Keeps (Setattr.setattr be h new guard)
    unfolding Setattr.setattr
    setattr-Keeps new guard = search (rules, set_attributes-Keeps) depth 24
