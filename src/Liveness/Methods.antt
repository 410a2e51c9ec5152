-- ===== src/Liveness/Methods.antt =====
-- nfs3/allunix.go: panics in the methods on paths.
use gonfs.Common.{ℕ, Text}
use gonfs.Types.Status.{Nfsstat3}
use gonfs.Backend.Base.{Backend}
use gonfs.Backend.Mount.{mount, unmount}
use gonfs.Backend.Query
use gonfs.Backend.Lookup.{lookup}
use gonfs.Backend.NewObject
use gonfs.Backend.Remove
use gonfs.Backend.Setattr
use gonfs.Backend.Rename
use gonfs.Backend.Link
use gonfs.Liveness.Calm.{Calm, calm_rules}

module _ (be : Backend) where
  pub mount-Calm : (p : Text) → Calm (mount be p)
  unfolding mount
  mount-Calm p = search calm_rules depth 24

  pub unmount-Calm : (p : Text) → Calm (unmount be p)
  unfolding unmount
  unmount-Calm p = search calm_rules depth 24

  module _ (h : ℕ) where
    pub lookup-Calm : (name : Text) → Calm (lookup be h name)
    unfolding lookup
    lookup-Calm name = search calm_rules depth 24

    pub getattr-Calm : Calm (Query.get_file_attr h)
    unfolding Query.get_file_attr
    getattr-Calm = search calm_rules depth 24

    pub fsinfo-Calm : Calm (Query.get_file_sys_info h)
    unfolding Query.get_file_sys_info
    fsinfo-Calm = search calm_rules depth 24

    pub fsstat-Calm : Calm (Query.get_file_system_attr h)
    unfolding Query.get_file_system_attr
    fsstat-Calm = search calm_rules depth 24

    pub pathconf-Calm : Calm (Query.get_path_conf h)
    unfolding Query.get_path_conf
    pathconf-Calm = search calm_rules depth 24

    pub readdirplus-Calm : Calm (Query.read_dir_plus h)
    unfolding Query.read_dir_plus
    readdirplus-Calm = search calm_rules depth 24

    pub access-Calm : Calm (Query.access h)
    unfolding Query.access
    access-Calm = search calm_rules depth 24

    pub readlink-Calm : Calm (Query.read_link h)
    unfolding Query.read_link
    readlink-Calm = search calm_rules depth 24

    fail_in-Calm :
        (dir : Text) (s : Nfsstat3) (a : _) (pre : _) → Calm (NewObject.fail_in h dir s a pre)
    unfolding NewObject.fail_in
    fail_in-Calm dir s a pre = search calm_rules depth 20

    made-Calm : (dir name : Text) (pre : _) (a : _) → Calm (NewObject.made be h dir name pre a)
    unfolding NewObject.made
    made-Calm dir name pre a = search calm_rules depth 20

    created-Calm :
        (dir name : Text) (pre : _) (fd : ℕ) → Calm (NewObject.created be h dir name pre fd)
    unfolding NewObject.created
    created-Calm dir name pre fd = search (calm_rules, fail_in-Calm, made-Calm) depth 24

    pub mkdir-Calm : (name : Text) (attr : _) → Calm (NewObject.mkdir be h name attr)
    unfolding NewObject.mkdir
    mkdir-Calm name attr = search (calm_rules, fail_in-Calm, made-Calm) depth 24

    pub create-Calm : (name : Text) (how : _) → Calm (NewObject.create be h name how)
    unfolding NewObject.create
    create-Calm name how = search (calm_rules, fail_in-Calm, created-Calm) depth 24

    pub symlink-Calm : (name target : Text) → Calm (NewObject.symlink be h name target)
    unfolding NewObject.symlink
    symlink-Calm name target = search (calm_rules, fail_in-Calm, made-Calm) depth 24

    pub remove-Calm : (name : Text) → Calm (Remove.remove be h name)
    unfolding Remove.remove
    remove-Calm name = search calm_rules depth 24

    pub rmdir-Calm : (name : Text) → Calm (Remove.rmdir be h name)
    unfolding Remove.rmdir
    rmdir-Calm name = search calm_rules depth 24

    pub setattr-Calm : (new : _) (guard : _) → Calm (Setattr.setattr be h new guard)
    unfolding Setattr.setattr Setattr.set_attributes Setattr.set_mode Setattr.set_times
    setattr-Calm new guard = search calm_rules depth 40

  reset_silly-Calm :
      (to_name from to : Text) (a : _) → Calm (Rename.reset_silly be to_name from to a)
  unfolding Rename.reset_silly
  reset_silly-Calm to_name from to a = search calm_rules depth 24

  rename_within-Calm : (r : Rename.Renaming) (a b : _) → Calm (Rename.rename_within be r a b)
  unfolding Rename.rename_within Rename.rename_failed Rename.rename_done
  rename_within-Calm r a b = search (calm_rules, reset_silly-Calm) depth 30

  pub rename-Calm :
      (from_h : ℕ) (from_name : Text) (to_h : ℕ) (to_name : Text)
      → Calm (Rename.rename be from_h from_name to_h to_name)
  unfolding Rename.rename Rename.to_dir_only Rename.from_dir_only
  rename-Calm from_h from_name to_h to_name = search (calm_rules, rename_within-Calm) depth 30

  link_within-Calm : (l : Link.Linking) (a b : _) → Calm (Link.link_within be l a b)
  unfolding Link.link_within Link.link_failed Link.link_post
  link_within-Calm l a b = search calm_rules depth 30

  pub link-Calm : (old_h dir_h : ℕ) (name : Text) → Calm (Link.link be old_h dir_h name)
  unfolding Link.link Link.old_only Link.link_dir_only
  link-Calm old_h dir_h name = search (calm_rules, link_within-Calm) depth 30
