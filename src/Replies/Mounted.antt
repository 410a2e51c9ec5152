-- ===== src/Replies/Mounted.antt =====
-- nfs3/allunix.go: Mount and UnMount of the exported directory.
use gonfs.Common.{
  ℕ, ◌<◌, ◌^◌, ◌≡◌, refl, ap, Text, Option, none, some, Option-cases, [], ◌∷◌, inl, inr,
  text_eq_refl, arith,
}
use gonfs.Os.{Os}
use gonfs.Types.Status.{mnt3_ok}
use gonfs.Types.Reply.{Mountres3}
use gonfs.Prog
use gonfs.Prog.{Prog, ret, ◌>>=◌, ◌>>◌, with_path, set_value_for_handle, delete_handle}
use gonfs.Prog.Run.{Handles, put, remove, done, Server, run}
use gonfs.Backend.Base.{Backend, uint64, put_uint64, make_fhandle}
use gonfs.Backend.Mount.{mount, unmount, mount_dir_fhandle}
use gonfs.Replies.Handles.{uint64-put_uint64}

module _ (be : Backend) (range : (t : Text) → be.fnv64a t < 2 ^ 64) (os : Os) (s : Server os) where
  decoded :
      (path : Text)
      → uint64 (put_uint64 (mount_dir_fhandle be path)) ≡ some (mount_dir_fhandle be path)
  unfolding mount_dir_fhandle make_fhandle
  decoded path = uint64-put_uint64 _ (range _)

  put-same : (m : Handles) (h : ℕ) (p : Text) → put m h p h ≡ some p
  put-same m h p = ground arith

  abbrev h : ℕ
  h = mount_dir_fhandle be be.export_path

  abbrev reply : Mountres3
  reply = record { fhs_status = mnt3_ok; fhandle = put_uint64 h; auth_flavors = 1 ∷ [] }

  run-mount :
      (o : Option Text)
      → s.handles h ≡ o
      → run os (mount be be.export_path) s
        ≡ run os
            (do Prog.on_found (set_value_for_handle h be.export_path) (λ f. ret tt) o; ret reply)
            s
  unfolding mount run with_path ◌>>=◌
  run-mount o e = rw (text_eq_refl be.export_path) (
      ap
        (λ x.
          run os
            (do Prog.on_found (set_value_for_handle h be.export_path) (λ f. ret tt) x; ret reply) s)
        e)

  -- With 64-bit hash values, mounting the exported directory succeeds, whether or not it is mounted already, and its reply
  -- is the handle of the directory, which the map then holds.
  pub mount-export :
      (r : Mountres3) × (t : Server os) × (run os (mount be be.export_path) s ≡ (done r, t))
      × (r.fhs_status ≡ mnt3_ok)
      × (uint64 r.fhandle ≡ some (mount_dir_fhandle be be.export_path))
      × ((held : Text) × (t.handles (mount_dir_fhandle be be.export_path) ≡ some held))
  unfolding run set_value_for_handle ◌>>=◌
  mount-export = elim (Option-cases (s.handles h)) [
    | inl e ↦ (
      reply,
      record s { handles = put s.handles h be.export_path },
      run-mount none e,
      refl,
      decoded be.export_path,
      (be.export_path, put-same s.handles h be.export_path),
    )
    | inr (held, e) ↦ (reply, s, run-mount (some held) e, refl, decoded be.export_path, (held, e))
  ]

module _ (be : Backend) (os : Os) (s : Server os) where
  run-unmount :
      (o : Option Text)
      → s.handles (mount_dir_fhandle be be.export_path) ≡ o
      → run os (unmount be be.export_path) s
        ≡ run os
            (Prog.on_found (ret tt) (λ f. delete_handle (mount_dir_fhandle be be.export_path)) o)
            s
  unfolding unmount run with_path
  run-unmount o e = rw (text_eq_refl be.export_path) (
      ap
        (λ x.
          run os
            (Prog.on_found (ret tt) (λ f. delete_handle (mount_dir_fhandle be be.export_path)) x) s)
        e)

  remove-same : (m : Handles) (k : ℕ) → remove m k k ≡ none
  remove-same m k = ground arith

  -- Unmounting the exported directory, mounted or not, leaves the map without its handle.
  pub unmount-export :
      (t : Server os) × (run os (unmount be be.export_path) s ≡ (done tt, t))
      × (t.handles (mount_dir_fhandle be be.export_path) ≡ none)
  unfolding run delete_handle
  unmount-export = elim (Option-cases (s.handles (mount_dir_fhandle be be.export_path))) [
    | inl e ↦ (s, run-unmount none e, e)
    | inr (held, e) ↦ (
      record s { handles = remove s.handles (mount_dir_fhandle be be.export_path) },
      run-unmount (some held) e,
      remove-same s.handles _,
    )
  ]
