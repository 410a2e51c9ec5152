-- ===== src/Tests/Usable.antt =====
-- The theorems on handles that a client got by Lookup, on the server of `Fixture`.
use gonfs.Common.{
  ◌≡◌, refl, true, Text, codes, [], ◌∷◌, Option, some, none, text_eq, contains_slash,
}
use gonfs.Types.Status.{nfs3_ok}
use gonfs.Types.Attr.{Fattr3, zero_fattr}
use gonfs.Prog.{◌>>=◌, with_path, attempt, errno_of, set_value_for_handle, delete_handle}
use gonfs.Prog.Run.{done, Server, run}
use gonfs.Prog.Settled.{Gives}
use gonfs.Backend.Base.{
  put_uint64, uint64, make_fhandle, join, is_component, is_regular, file_type, set_stat, fill_attr,
  get_file_attr_from_path, stat_path, post_attr, enter_handle,
}
use gonfs.Backend.Lookup.{lookup, lookup_name}
use gonfs.Svc.{Request, Reply, serve, fhandle}
use gonfs.Replies.Named.{Named}
use gonfs.Replies.Usable.{HasAttr, lookup-getattr}
use gonfs.Replies.Resolve.{path_of, resolve, resolve-getattr}
use gonfs.Tests.Fixture.{backend, os, export, hash, hash-range, answer, info}
use gonfs.Tests.Replies.{server, dir_d, of, nothing, looked}

gives : Gives os answer
gives = record { given = λ c w. refl }

lookup-getattr_example :
    (dir : Text) × (server.handles 5 ≡ some dir)
    × HasAttr answer (lookup_name backend dir dir_d) (of nothing looked.0).obj_attributes.attributes
    × ((run os (serve backend (Request.getattr (of nothing looked.0).object.bytes)) looked.1).0
        ≡ done (
            Reply.attributes (record {
              status = nfs3_ok;
              obj_attributes = (of nothing looked.0).obj_attributes.attributes;
            })))
unfolding run lookup lookup_name put_uint64 make_fhandle join is_component is_regular file_type
    set_stat fill_attr get_file_attr_from_path stat_path post_attr enter_handle with_path attempt
    errno_of set_value_for_handle delete_handle ◌>>=◌ text_eq contains_slash hash
lookup-getattr_example =
    lookup-getattr answer backend hash-range os server looked.1 5 dir_d (of nothing looked.0) gives
      refl refl

abbrev resolved : Option (Text × Server os)
resolved = resolve backend os (dir_d ∷ []) (put_uint64 5) server

abbrev found : Option (Text × Server os) → Text × Server os
found none = ([], server)
found (some x) = x

abbrev attr_d : Fattr3
attr_d = (fill_attr (info true (codes "d") 11) zero_fattr).1

resolve-getattr_example :
    Named (found resolved).1.handles (path_of backend export (dir_d ∷ [])) (found resolved).0
    × ((run os (serve backend (Request.getattr (found resolved).0)) (found resolved).1).0
        ≡ done (Reply.attributes (record { status = nfs3_ok; obj_attributes = attr_d })))
unfolding run resolve serve fhandle lookup lookup_name put_uint64 uint64 make_fhandle join
    is_component is_regular file_type set_stat fill_attr get_file_attr_from_path stat_path post_attr
    enter_handle with_path attempt errno_of set_value_for_handle delete_handle ◌>>=◌ text_eq
    contains_slash hash
resolve-getattr_example =
    resolve-getattr backend os hash-range answer (dir_d ∷ []) export (put_uint64 5)
      (found resolved).0 server (found resolved).1 attr_d gives (5, refl, refl) refl
      (record { info = info true (codes "d") 11; stated = refl; filled = refl })
