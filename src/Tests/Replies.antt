-- ===== src/Tests/Replies.antt =====
-- The theorems of Replies on the server of `Fixture`.
use gonfs.Common.{
  ◌≡◌, refl, true, false, Text, codes, none, some, [], text_eq, contains_slash, if◌then◌else◌, ◌==◌,
  arith,
}
use gonfs.Types.Status.{Nfsstat3, nfs3err_stale}
use gonfs.Types.Args.{Sattr3, Createhow3, Createmode3, TimeHow}
use gonfs.Types.Attr.{Fattr3, Ftype3, zero_fattr, zero_time, no_fh, no_post, no_post_fh, no_wcc}
use gonfs.Types.Reply.{LookupRes, NewObjectRes}
use gonfs.Prog.{◌>>=◌, with_path, attempt, errno_of, set_value_for_handle, delete_handle, perform}
use gonfs.Prog.Run.{Outcome, done, Server, run}
use gonfs.Backend.Base.{
  Backend, put_uint64, uint64, make_fhandle, join, is_component, is_entry_name, is_regular,
  file_type, set_stat, fill_attr, get_file_attr_from_path, stat_path, post_attr, enter_handle,
}
use gonfs.Backend.Lookup.{lookup, lookup_name}
use gonfs.Backend.NewObject.{mkdir, create, symlink, made, created, fail_in}
use gonfs.Backend.Remove.{remove}
use gonfs.Types.Status.{mnt3_ok}
use gonfs.Types.Reply.{Mountres3}
use gonfs.Backend.Mount.{mount, unmount, mount_dir_fhandle}
use gonfs.Replies.Mounted.{mount-export, unmount-export}
use gonfs.Backend.Query.{access_bits}
use gonfs.Replies.Access.{access_bits-granted}
use gonfs.Svc.{Request, Reply, serve, fhandle}
use gonfs.Replies.Named.{Named, lookup-finds}
use gonfs.Replies.Made.{Kept, mkdir-keeps, create-keeps, symlink-keeps}
use gonfs.Replies.ReadOnly.{Refused, change_status, serve-read_only}
use gonfs.Replies.Gone.{HasGone, handles_of}
use gonfs.Replies.Stale.{status_of, serve-stale}
use gonfs.Tests.Fixture.{backend, os, export, hash, hash-range}

-- The export is mounted with the handle 5.
abbrev pub server : Server os
server = record { handles = λ k. if k == 5 then some export else none; world = 0 }

abbrev pub dir_d : Text
dir_d = codes "d"

abbrev result {ℓ} : {A : Type ℓ} → A → A
result a = a

abbrev pub of : {A : Type 0} → A → Outcome A → A
of a (done b) = b
of a _ = a

abbrev pub nothing : LookupRes
nothing = record {
  status = Nfsstat3.nfs3err_io;
  object = no_fh;
  obj_attributes = no_post;
  dir_attributes = no_post;
  fail_dir_attributes = no_post;
}

abbrev pub looked : Outcome LookupRes × Server os
looked = run os (lookup backend 5 dir_d) server

lookup-finds_example :
    (dir : Text) × (server.handles 5 ≡ some dir)
    × Named looked.1.handles (lookup_name backend dir dir_d) (of nothing looked.0).object.bytes
unfolding run lookup lookup_name put_uint64 make_fhandle join is_component is_regular file_type
    set_stat fill_attr get_file_attr_from_path stat_path post_attr enter_handle with_path attempt
    errno_of set_value_for_handle delete_handle ◌>>=◌ text_eq contains_slash hash
lookup-finds_example =
    lookup-finds backend hash-range os server looked.1 5 dir_d (of nothing looked.0) refl refl

abbrev unmade : NewObjectRes
unmade = record {
  status = Nfsstat3.nfs3err_io;
  obj = no_post_fh;
  obj_attributes = no_post;
  dir_wcc = no_wcc;
  fail_dir_wcc = no_wcc;
}

abbrev unset : Sattr3
unset = record {
  mode = record { set_it = false; mode = 0 };
  uid = record { set_it = false; uid = 0 };
  gid = record { set_it = false; gid = 0 };
  size = record { set_it = false; size = 0 };
  atime = record { set_it = TimeHow.dont_change; atime = zero_time };
  mtime = record { set_it = TimeHow.dont_change; mtime = zero_time };
}

abbrev how : Createhow3
how = record { mode = Createmode3.guarded; verf = []; obj_attributes = unset }

abbrev making : Outcome NewObjectRes × Server os
making = run os (mkdir backend 5 dir_d unset) server

mkdir-keeps_example :
    (dir : Text) × (server.handles 5 ≡ some dir)
    × ((of unmade making.0).obj.handle_follows ≡ true)
    × Kept making.1.handles 5 (join dir dir_d) (of unmade making.0).obj.handle.bytes
unfolding run mkdir made fail_in put_uint64 make_fhandle join is_component is_entry_name is_regular
    file_type set_stat fill_attr get_file_attr_from_path stat_path post_attr enter_handle with_path
    attempt errno_of set_value_for_handle delete_handle perform ◌>>=◌ text_eq contains_slash hash
mkdir-keeps_example =
    mkdir-keeps os backend hash-range server making.1 5 dir_d unset (of unmade making.0) refl refl

abbrev creating : Outcome NewObjectRes × Server os
creating = run os (create backend 5 dir_d how) server

create-keeps_example :
    (dir : Text) × (server.handles 5 ≡ some dir)
    × ((of unmade creating.0).obj.handle_follows ≡ true)
    × Kept creating.1.handles 5 (join dir dir_d) (of unmade creating.0).obj.handle.bytes
unfolding run create created made fail_in put_uint64 make_fhandle join is_component is_entry_name
    is_regular file_type set_stat fill_attr get_file_attr_from_path stat_path post_attr enter_handle
    with_path attempt errno_of set_value_for_handle delete_handle perform ◌>>=◌ text_eq
    contains_slash hash
create-keeps_example =
    create-keeps os backend hash-range server creating.1 5 dir_d how (of unmade creating.0) refl
      refl

abbrev linking : Outcome NewObjectRes × Server os
linking = run os (symlink backend 5 dir_d dir_d) server

symlink-keeps_example :
    (dir : Text) × (server.handles 5 ≡ some dir)
    × ((of unmade linking.0).obj.handle_follows ≡ true)
    × Kept linking.1.handles 5 (join dir dir_d) (of unmade linking.0).obj.handle.bytes
unfolding run symlink made fail_in put_uint64 make_fhandle join is_component is_entry_name
    is_regular file_type set_stat fill_attr get_file_attr_from_path stat_path post_attr enter_handle
    with_path attempt errno_of set_value_for_handle delete_handle perform ◌>>=◌ text_eq
    contains_slash hash
symlink-keeps_example =
    symlink-keeps os backend hash-range server linking.1 5 dir_d dir_d (of unmade linking.0) refl
      refl

abbrev read_only : Backend
read_only = record backend { config = record backend.config { writeaccess = false } }

abbrev removal : Request
unfolding put_uint64
removal = Request.remove (put_uint64 5) dir_d

abbrev removing : Outcome Reply × Server os
removing = run os (serve read_only removal) server

serve-read_only_example :
    Refused
      (HasGone os server.handles (handles_of removal))
      (change_status (of Reply.void removing.0))
unfolding run serve fhandle uint64 remove put_uint64 make_fhandle join is_component is_entry_name
    is_regular file_type set_stat fill_attr get_file_attr_from_path stat_path post_attr enter_handle
    with_path attempt errno_of set_value_for_handle delete_handle perform ◌>>=◌ text_eq
    contains_slash hash
serve-read_only_example =
    serve-read_only os read_only server removing.1 removal (of Reply.void removing.0) refl refl refl

abbrev asking : Request
unfolding put_uint64
asking = Request.getattr (put_uint64 6)

serve-stale_example :
    (a : Reply) × (run os (serve backend asking) server ≡ (done a, server))
    × (status_of a ≡ some nfs3err_stale)
unfolding put_uint64 uint64
serve-stale_example = serve-stale os backend server asking 6 refl refl

abbrev shared : Fattr3
shared = record zero_fattr { ftype = Ftype3.nf3dir; mode = 0o750; uid = 1; gid = 2 }

-- A member of the group may read and look up.
access_bits-granted_example : access_bits 5 2 shared ≡ 3
access_bits-granted_example = access_bits-granted 5 2 shared (omega arith)

mount-export_example :
    (r : Mountres3) × (t : Server os) × (run os (mount backend export) server ≡ (done r, t))
    × (r.fhs_status ≡ mnt3_ok)
    × (uint64 r.fhandle ≡ some (mount_dir_fhandle backend export))
    × ((held : Text) × (t.handles (mount_dir_fhandle backend export) ≡ some held))
mount-export_example = mount-export backend hash-range os server

unmount-export_example :
    (t : Server os) × (run os (unmount backend export) server ≡ (done tt, t))
    × (t.handles (mount_dir_fhandle backend export) ≡ none)
unmount-export_example = unmount-export backend os server
