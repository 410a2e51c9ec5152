-- ===== src/Backend/Query.antt =====
-- nfs3/allunix.go: GetFileAttr, GetFileSysInfo, GetFileSystemAttr, GetPathConf, Access, ReadLink
-- and ReadDirPlus, which change no file.
use Prim.Native.Nat.{bit_and, bit_or}
use gonfs.Common.{ℕ, ◌-◌, ◌*◌, ◌%◌, ◌^◌, Bool, true, false, Text, [], ◌==◌, if◌then◌else◌}
use gonfs.Os.{StatfsT, statfs, geteuid, getegid, readlink}
use gonfs.Types.Flags.{
  access3_read, access3_lookup, access3_modify, access3_extend, access3_delete, access3_execute,
  fsf3_link, fsf3_symlink, fsf3_homogeneous, fsf3_cansettime,
}
use gonfs.Types.Status.{Nfsstat3, nfs3_ok, nfs3err_stale, nfs3err_notsupp}
use gonfs.Types.Attr.{Ftype3, nf3dir, Fattr3, PostOpAttr, zero_fattr, zero_time, no_post}
use gonfs.Types.Reply.{
  GetattrRes, FsinfoRes, FsstatRes, PathconfRes, AccessRes, ReaddirplusRes, ReadlinkRes,
}
use gonfs.Prog.{Prog, ret, ◌>>=◌, ◌>>◌, delete_handle, perform, with_path, attempt, errno_of}
use gonfs.Backend.Base.{stat_path, post_attr, followed}
use gonfs.Backend.Errors.{get_readlink_err}

abbrev pub tcp_max_data : ℕ
tcp_max_data = 524288

abbrev nfsmaxpathlen : ℕ
nfsmaxpathlen = 4096

-- A reply before anything is set, where only the attributes and the status are.
abbrev unfollowed : Fattr3 → PostOpAttr
unfollowed a = record { attributes_follow = false; attributes = a }

unfoldable pub get_file_attr : ℕ → Prog GetattrRes
get_file_attr h =
    with_path h (ret (record { status = nfs3err_stale; obj_attributes = zero_fattr })) λ name.
      stat_path name zero_fattr
        (λ e a. do delete_handle h; ret (record { status = nfs3err_stale; obj_attributes = a }))
        (λ a. ret (record { status = nfs3_ok; obj_attributes = a }))

abbrev fsinfo_stale : PostOpAttr → FsinfoRes
fsinfo_stale a = record {
  status = nfs3err_stale;
  resok = record {
    obj_attributes = a;
    rtmax = 0;
    rtpref = 0;
    rtmult = 0;
    wtmax = 0;
    wtpref = 0;
    wtmult = 0;
    dtpref = 0;
    maxfilesize = 0;
    time_delta = zero_time;
    properties = 0;
  };
  fail_obj_attributes = no_post;
}

abbrev fsinfo_ok : Fattr3 → FsinfoRes
fsinfo_ok a = record {
  status = nfs3_ok;
  resok = record {
    obj_attributes = followed a;
    rtmax = tcp_max_data;
    rtpref = tcp_max_data;
    rtmult = 4096;
    wtmax = tcp_max_data;
    wtpref = tcp_max_data;
    wtmult = 4096;
    dtpref = 4096;
    maxfilesize = 2 ^ 64 - 1;
    time_delta = record { seconds = 1; nseconds = 0 };
    properties = bit_or (bit_or (bit_or fsf3_link fsf3_homogeneous) fsf3_cansettime) fsf3_symlink;
  };
  fail_obj_attributes = no_post;
}

unfoldable pub get_file_sys_info : ℕ → Prog FsinfoRes
get_file_sys_info h = with_path h (ret (fsinfo_stale no_post)) λ dir_name.
    stat_path dir_name zero_fattr (λ e a. do delete_handle h; ret (fsinfo_stale (unfollowed a)))
      (λ a. ret (fsinfo_ok a))

abbrev fsstat_stale : PostOpAttr → PostOpAttr → FsstatRes
fsstat_stale a fail = record {
  status = nfs3err_stale;
  resok = record {
    obj_attributes = a;
    tbytes = 0;
    fbytes = 0;
    abytes = 0;
    tfiles = 0;
    ffiles = 0;
    afiles = 0;
    invarsec = 0;
  };
  fail_obj_attributes = fail;
}

-- The products are uint64.
abbrev fsstat_ok : Fattr3 → StatfsT → FsstatRes
fsstat_ok a st = record {
  status = nfs3_ok;
  resok = record {
    obj_attributes = followed a;
    tbytes = st.blocks * st.frsize % 2 ^ 64;
    fbytes = st.bfree * st.frsize % 2 ^ 64;
    abytes = st.bavail * st.frsize % 2 ^ 64;
    tfiles = st.files;
    ffiles = st.ffree;
    afiles = st.ffree;
    invarsec = 0;
  };
  fail_obj_attributes = no_post;
}

unfoldable pub get_file_system_attr : ℕ → Prog FsstatRes
get_file_system_attr h = with_path h (ret (fsstat_stale no_post no_post)) λ dir_name.
    stat_path dir_name zero_fattr
      (λ e a. do delete_handle h; ret (fsstat_stale (unfollowed a) no_post))
      (λ a.
        attempt (statfs dir_name)
          (λ e. do after ← post_attr h dir_name; ret (fsstat_stale (followed a) after))
          (λ st. ret (fsstat_ok a st)))

abbrev pathconf_stale : PostOpAttr → PathconfRes
pathconf_stale a = record {
  status = nfs3err_stale;
  resok = record {
    obj_attributes = a;
    linkmax = 0;
    name_max = 0;
    no_trunc = false;
    chown_restricted = false;
    case_insensitive = false;
    case_preserving = false;
  };
  fail_obj_attributes = no_post;
}

abbrev pathconf_ok : Fattr3 → PathconfRes
pathconf_ok a = record {
  status = nfs3_ok;
  resok = record {
    obj_attributes = followed a;
    linkmax = 2 ^ 32 - 1;
    name_max = nfsmaxpathlen;
    no_trunc = true;
    chown_restricted = false;
    case_insensitive = false;
    case_preserving = true;
  };
  fail_obj_attributes = no_post;
}

unfoldable pub get_path_conf : ℕ → Prog PathconfRes
get_path_conf h = with_path h (ret (pathconf_stale no_post)) λ dir_name.
    stat_path dir_name zero_fattr (λ e a. do delete_handle h; ret (pathconf_stale (unfollowed a)))
      (λ a. ret (pathconf_ok a))

unfoldable pub read_dir_plus : ℕ → Prog ReaddirplusRes
read_dir_plus h =
    with_path h (ret (record { status = nfs3err_stale; fail_dir_attributes = no_post })) λ dir_name.
      stat_path dir_name zero_fattr
        (λ e a. do
          delete_handle h
          ret (record { status = nfs3err_stale; fail_dir_attributes = unfollowed a }))
        (λ a. ret (record { status = nfs3err_notsupp; fail_dir_attributes = followed a }))

-- The bits of one class (user, group or other) whose r, w and x are at `r`, `w` and `x`.
unfoldable pub class_access : ℕ → ℕ → ℕ → ℕ → ℕ
class_access mode r w x =
    let a = if bit_and mode r == 0 then 0 else access3_read in
    let b = if bit_and mode w == 0 then a else bit_or a (bit_or access3_modify access3_extend) in
    if bit_and mode x == 0 then b else bit_or b access3_execute

abbrev pub is_dir : Ftype3 → Bool
is_dir nf3dir = true
is_dir _ = false

unfoldable pub dir_access : ℕ → ℕ
dir_access a =
    let b =
      if bit_and a (bit_or access3_read access3_execute) == 0 then a else bit_or a access3_lookup in
    let c = if bit_and b access3_modify == 0 then b else bit_or b access3_delete in
    bit_and c (2 ^ 32 - 1 - access3_execute)

unfoldable pub access_bits : ℕ → ℕ → Fattr3 → ℕ
unfolding class_access dir_access
access_bits euid egid a =
    let granted =
      if euid == a.uid
      then class_access a.mode 0o400 0o200 0o100
      else if egid == a.gid
      then class_access a.mode 0o40 0o20 0o10
      else class_access a.mode 4 2 1 in
    if is_dir a.ftype then dir_access granted else granted

abbrev access_reply : Nfsstat3 → PostOpAttr → ℕ → AccessRes
access_reply s a bits = record {
  status = s;
  obj_attributes = a;
  access = bits;
  fail_obj_attributes = no_post;
}

-- The requested bits are not looked at. Getegid is asked only where the user differs, which
-- changes nothing.
unfoldable pub access : ℕ → Prog AccessRes
access h = with_path h (ret (access_reply nfs3err_stale no_post 0)) λ file_name.
    stat_path file_name zero_fattr
      (λ e a. do delete_handle h; ret (access_reply nfs3err_stale (unfollowed a) 0))
      (λ a. do
        euid ← perform geteuid
        if euid == a.uid then ret (access_reply nfs3_ok (followed a) (access_bits euid 0 a)) else do
          egid ← perform getegid
          ret (access_reply nfs3_ok (followed a) (access_bits euid egid a)))

abbrev readlink_reply : Nfsstat3 → PostOpAttr → Text → PostOpAttr → ReadlinkRes
readlink_reply s a t f = record {
  status = s;
  symlink_attributes = a;
  target = t;
  fail_symlink_attributes = f;
}

unfoldable pub read_link : ℕ → Prog ReadlinkRes
read_link h = with_path h (ret (readlink_reply nfs3err_stale no_post [] no_post)) λ link_file.
    stat_path link_file zero_fattr
      (λ e a. do delete_handle h; ret (readlink_reply nfs3err_stale no_post [] no_post))
      (λ fattr.
        attempt (readlink link_file)
          (λ e. do
            n ← errno_of e
            after ← post_attr h link_file
            ret (readlink_reply (get_readlink_err n) no_post [] after))
          (λ target. do
            after ← post_attr h link_file
            ret (readlink_reply nfs3_ok after target no_post)))
