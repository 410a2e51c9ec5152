-- ===== src/Replies/Persisted.antt =====
-- nfs3/allunix.go: what Write puts in a file, and what Read then sends of it.
use gonfs.Common.{
  ℕ, zero, suc, ◌^◌, ◌<◌, ◌≤◌, ◌≡◌, refl, ap, ◌∙◌, Text, Option, none, some, length, take, arith,
}
use gonfs.Common.Int.{int64}
use gonfs.Os.{Errno, OsError, close, write_at, sync}
use gonfs.Types.Status.{is_ok}
use gonfs.Types.Attr.{PreOpAttr}
use gonfs.Types.Args.{StableHow}
use gonfs.Types.Reply.{WriteRes}
use gonfs.Prog.{ret, ◌>>◌, perform}
use gonfs.Prog.Run.{Handles}
use gonfs.Prog.Machine.{
  Final, Meets, Meets-bind, Meets-ret, Meets-attempt, Meets-found, Meets-perform_bind,
  Meets-errno_of, meets_rules,
}
use gonfs.Backend.Base.{Backend}
use gonfs.Backend.Io
use gonfs.Backend.Errors.{get_write_err}
use gonfs.Replies.Errors.{get_write_err-fails}
use gonfs.Replies.Named.{When, failed}
use gonfs.Replies.Contents.{int64-pos}
use gonfs.Replies.Filed.{
  FileState, file_machine, opened, moved, moved-pos, opened-is_open, splice, Meets-stat_path,
  Meets-post_attr, Meets-open_file,
}

module _ (be : Backend) (name : Text) (offset : ℕ) (small : offset < 2 ^ 63) (bytes : Text)
    (file : Text) where
  -- The file after a Write that was sent `bytes`, with the number that it counts.
  abbrev pub Kept : WriteRes → FileState → Type 0
  Kept r v =
      When (is_ok r.status)
        ((r.count ≤ length bytes) × (v.contents ≡ splice offset (take r.count bytes) file))

  abbrev Q : Final (file_machine name) WriteRes
  Q r n v = Kept r v

  write_refused : (e : Errno) (P : Type 0) → When (is_ok (get_write_err e)) P
  write_refused e P = failed _ P (get_write_err-fails e)

  close-Kept :
      (r : WriteRes) (fd : ℕ) (m : Handles) (v : FileState)
      → Kept r v
      → Meets (file_machine name) Q (do perform (close fd); ret r) m v
  close-Kept r fd m v k = Meets-perform_bind (close fd) _ refl (λ x e. Meets-ret r k)

  commit_level-Meets :
      {R : Final (file_machine name) StableHow} (how : StableHow) (fd : ℕ) (m : Handles)
      (v : FileState)
      → ((x : StableHow) → R x m v)
      → Meets (file_machine name) R (Io.commit_level how fd) m v
  unfolding Io.commit_level
  commit_level-Meets StableHow.unstable fd m v q = Meets-ret _ (q _)
  commit_level-Meets _ fd m v q =
      Meets-attempt (sync fd) _ _ refl (λ r e x. Meets-ret _ (q _)) (λ r b x y. Meets-ret _ (q _))

  abbrev MayKeep : ℕ → FileState → Option OsError → Type 0
  MayKeep n v none = (n ≤ length bytes) × (v.contents ≡ splice offset (take n bytes) file)
  MayKeep n v (some e) = Unit

  answer_write-Meets :
      (h : ℕ) (pre : PreOpAttr) (how : StableHow) (fd n : ℕ) (m : Handles) (v : FileState)
      (e : Option OsError)
      → MayKeep n v e
      → Meets
          (file_machine name)
          (λ r k u. Meets (file_machine name) Q (do perform (close fd); ret r) k u)
          (Io.answer_write be h name pre how fd n e)
          m
          v
  answer_write-Meets h pre how fd n m v none k = Meets-bind _ _ (
      commit_level-Meets how fd m v (λ c. Meets-bind _ _ (
        Meets-post_attr name h name (λ a. Meets-ret _ (close-Kept _ fd m v k))
          (λ a. Meets-ret _ (close-Kept _ fd _ v k)))))
  answer_write-Meets h pre how fd n m v (some e) k = Meets-bind _ _ (
      Meets-errno_of e (λ x. Meets-bind _ _ (
        Meets-post_attr name h name (λ a. Meets-ret _ (close-Kept _ fd m v (write_refused x _)))
          (λ a. Meets-ret _ (close-Kept _ fd _ v (write_refused x _))))))

  was :
      (n : ℕ) (v : FileState)
      → v.contents ≡ file
      → (moved (int64 offset) (take n bytes) v).contents ≡ splice offset (take n bytes) file
  was n v same =
      moved-pos (int64 offset) offset (take n bytes) v (int64-pos offset small)
      ∙ ap (splice offset (take n bytes)) same

  kept :
      (n : ℕ) (e : Option OsError) (v : FileState)
      → n ≤ length bytes
      → v.contents ≡ file
      → MayKeep n (moved (int64 offset) (take n bytes) v) (Io.write_error n e)
  kept zero none v le same = (omega arith, was zero v same)
  kept zero (some e) v le same = tt
  kept (suc n) e v le same = (le, was (suc n) v same)

  write_open-Meets :
      (h : ℕ) (pre : PreOpAttr) (how : StableHow) (fd : ℕ) (m : Handles) (v : FileState)
      → v.contents ≡ file
      → Meets
          (file_machine name)
          Q
          (Io.write_open be h name pre offset how bytes fd)
          m
          (opened fd v)
  unfolding Io.write_open
  write_open-Meets h pre how fd m v same =
      Meets-perform_bind (write_at fd bytes (int64 offset)) _ (opened-is_open fd v) (λ (n, e) le.
        Meets-bind _ _ (answer_write-Meets h pre how fd n m _ _ (kept n e (opened fd v) le same)))

  pub write-Meets :
      (h count : ℕ) (how : StableHow) (m : Handles) (v : FileState)
      → m h ≡ some name
      → v.contents ≡ file
      → Meets (file_machine name) Q (Io.write be h offset count how bytes) m v
  unfolding Io.write
  write-Meets h count how m v at same = Meets-found h _ _ name at (
      search
        (
          meets_rules, Meets-stat_path, Meets-post_attr, Meets-open_file, write_open-Meets,
          write_refused,
        )
        depth 24)
