-- ===== src/Backend/Lookup.antt =====
-- nfs3/allunix.go: Lookup.
use gonfs.Common.{ℕ, false, ◌&&◌, Text, text_eq, if◌then◌else◌}
use gonfs.Types.Status.{Nfsstat3, nfs3_ok, nfs3err_stale, nfs3err_acces}
use gonfs.Types.Attr.{Fattr3, PostOpAttr, zero_fattr, no_post, no_fh}
use gonfs.Types.Reply.{LookupRes}
use gonfs.Prog.{Prog, ret, ◌>>=◌, ◌>>◌, delete_handle, with_path}
use gonfs.Backend.Base.{
  Backend, put_uint64, join, dot, dotdot, is_component, stat_path, post_attr, followed,
  enter_handle,
}
use gonfs.Backend.Errors.{get_lookup_err}

-- A reply that is no success.
abbrev lookup_fail : Nfsstat3 → Fattr3 → PostOpAttr → PostOpAttr → LookupRes
lookup_fail s obj dir fail = record {
  status = s;
  object = no_fh;
  obj_attributes = record { attributes_follow = false; attributes = obj };
  dir_attributes = dir;
  fail_dir_attributes = fail;
}

abbrev lookup_ok : ℕ → Fattr3 → Fattr3 → LookupRes
lookup_ok h obj dir = record {
  status = nfs3_ok;
  object = record { bytes = put_uint64 h };
  obj_attributes = followed obj;
  dir_attributes = followed dir;
  fail_dir_attributes = no_post;
}

module _ (be : Backend) where
  -- At the exported directory ".." is ".".
  unfoldable pub lookup_name : Text → Text → Text
  lookup_name dir_name name =
      join dir_name (if text_eq dir_name be.export_path && text_eq name dotdot then dot else name)

  unfoldable pub lookup : ℕ → Text → Prog LookupRes
  lookup h name =
      with_path h (ret (lookup_fail nfs3err_stale zero_fattr no_post no_post)) λ dir_name.
        stat_path dir_name zero_fattr
          (λ e a. do
            delete_handle h
            ret (
                lookup_fail nfs3err_stale zero_fattr
                  (record { attributes_follow = false; attributes = a }) no_post))
          (λ dir.
            if is_component name
            then stat_path (lookup_name dir_name name) zero_fattr
                (λ e a. do
                  after ← post_attr h dir_name
                  ret (lookup_fail (get_lookup_err e) a (followed dir) after))
                (λ a. do
                  new ← enter_handle be (lookup_name dir_name name) a
                  ret (lookup_ok new a dir))
            else do
              after ← post_attr h dir_name
              ret (lookup_fail nfs3err_acces zero_fattr (followed dir) after))
