-- ===== src/Replies/Reread.antt =====
-- nfs3/allunix.go: Read of what Write put in a file.
use gonfs.Common.{
  ℕ, zero, suc, ◌^◌, ◌<◌, ◌≤◌, ◌≡◌, refl, sym, ap, ◌∙◌, subst, true, Text, [], ◌∷◌, length, take,
  drop, arith, some, ltb, if◌then◌else◌,
}
use gonfs.Common.Int.{int64}
use gonfs.Os.{Os, Errno, Result, ok, err, close, read_at}
use gonfs.Types.Status.{is_ok}
use gonfs.Types.Args.{StableHow}
use gonfs.Types.Reply.{WriteRes, ReadRes}
use gonfs.Prog.{ret, ◌>>◌, perform}
use gonfs.Prog.Run.{Handles, done, Server, run}
use gonfs.Prog.Machine.{
  Models, Final, Meets, Reached, Meets-run, Meets-bind, Meets-ret, Meets-found, Meets-errno_of,
  Meets-perform_bind, meets_rules,
}
use gonfs.Backend.Base.{Backend}
use gonfs.Backend.Io
use gonfs.Backend.Errors.{get_read_err}
use gonfs.Replies.Errors.{get_read_err-fails}
use gonfs.Replies.Named.{When, failed, taken}
use gonfs.Replies.Contents.{Reads, part, IsPart, IsSent, int64-pos, read_at-IsSent}
use gonfs.Replies.Filed.{
  FileState, file_machine, opened, opened-is_open, splice, part-splice, Meets-stat_path,
  Meets-post_attr, Meets-open_read,
}
use gonfs.Replies.Persisted.{Kept, write-Meets}

module _ (name : Text) (offset count : ℕ) (small : offset < 2 ^ 63) (file : Text) where
  abbrev wanted : ℕ
  wanted = Io.clamp_count count

  abbrev pub Given : Final (file_machine name) ReadRes
  Given r n v =
      When (is_ok r.status) (IsPart (part file offset wanted) wanted r.contents r.count r.eof)

  read_refused : (e : Errno) (P : Type 0) → When (is_ok (get_read_err e)) P
  read_refused e P = failed _ P (get_read_err-fails e)

  close-Given :
      (r : ReadRes) (fd : ℕ) (m n : Handles) (v u : FileState)
      → Given r n u
      → Meets (file_machine name) Given (do perform (close fd); ret r) m v
  close-Given r fd m n v u k = Meets-perform_bind (close fd) _ refl (λ x e. Meets-ret r k)

  answer_read-Meets :
      (h fd : ℕ) (m : Handles) (v : FileState) (o : Result (Text × ℕ × _))
      → IsSent (part file offset wanted) wanted o
      → Meets
          (file_machine name)
          (λ r n u. Meets (file_machine name) Given (do perform (close fd); ret r) n u)
          (Io.answer_read h name wanted o)
          m
          v
  answer_read-Meets h fd m v (ok (c, n, e)) s = Meets-bind _ _ (
      Meets-post_attr name h name (λ a. Meets-ret _ (close-Given _ fd m m v v s))
        (λ a. Meets-ret _ (close-Given _ fd _ m v v s)))
  answer_read-Meets h fd m v (err e) s = Meets-bind _ _ (
      Meets-errno_of e (λ x. Meets-bind _ _ (
        Meets-post_attr name h name (λ a. Meets-ret _ (close-Given _ fd m m v v (read_refused x _)))
          (λ a. Meets-ret _ (close-Given _ fd _ m v v (read_refused x _))))))

  read_open-Meets :
      (h fd : ℕ) (m : Handles) (v : FileState)
      → v.contents ≡ file
      → Meets (file_machine name) Given (Io.read_open h name offset count fd) m (opened fd v)
  unfolding Io.read_open
  read_open-Meets h fd m v same =
      Meets-perform_bind (read_at fd wanted (int64 offset)) _ (opened-is_open fd v) (λ (bytes, e) d.
        Meets-bind _ _ (
          answer_read-Meets h fd m _ _ (
            read_at-IsSent file fd wanted offset (int64 offset) bytes e (int64-pos offset small)
              (subst (λ f. Reads f (read_at fd wanted (int64 offset)) (bytes, e)) same d))))

  read-Meets :
      (h : ℕ) (m : Handles) (v : FileState)
      → m h ≡ some name
      → v.contents ≡ file
      → Meets (file_machine name) Given (Io.read h offset count) m v
  unfolding Io.read
  read-Meets h m v at same = Meets-found h _ _ name at (
      search
        (
          meets_rules, Meets-stat_path, Meets-post_attr, Meets-open_read, read_open-Meets,
          read_refused,
        )
        depth 24)

taken_length : (n : ℕ) (bytes : Text) → n ≤ length bytes → length (take n bytes) ≡ n
taken_length zero bytes h = refl
taken_length (suc n) [] h = absurd (omega arith)
taken_length (suc n) (x ∷ bytes) h = ap suc (taken_length n bytes (omega arith))

take_less : (m n : ℕ) (bytes : Text) → m ≤ n → take m (take n bytes) ≡ take m bytes
take_less zero n bytes h = refl
take_less (suc m) zero bytes h = absurd (omega arith)
take_less (suc m) (suc n) [] h = refl
take_less (suc m) (suc n) (x ∷ bytes) h = ap (λ u. x ∷ u) (take_less m n bytes (omega arith))

clamp_count-le : (n : ℕ) → Io.clamp_count n ≤ n
unfolding Io.clamp_count
clamp_count-le n = ground arith

-- The first c bytes that are read back where n were written.
part-written :
    (offset n c : ℕ) (bytes file : Text)
    → n ≤ length bytes
    → c ≤ n
    → part (splice offset (take n bytes) file) offset c ≡ take c bytes
part-written offset n c bytes file le less =
    sym (take_less c n (drop offset (splice offset (take n bytes) file)) less)
    ∙ ap (take c) (
        ap (part (splice offset (take n bytes) file) offset) (sym (taken_length n bytes le))
        ∙ part-splice offset (take n bytes) file)
    ∙ take_less c n bytes less

module _ (os : Os) (be : Backend) (name : Text) (view : os.World → FileState)
    (models : Models os (file_machine name) view) where
  -- Where the calls treat the file as package os documents and nobody else changes it: after a Write
  -- that succeeds, at an offset of an int64, a Read that succeeds, of the bytes counted and at the
  -- same offset, by any handle that the map holds for the file, sends the bytes that were written:
  -- as many as were counted, or the first 524288 if they are more.
  pub write-read :
      (s t u : Server os) (h k offset count : ℕ) (how : StableHow) (bytes : Text) (r : WriteRes)
      (q : ReadRes)
      → offset < 2 ^ 63
      → s.handles h ≡ some name
      → run os (Io.write be h offset count how bytes) s ≡ (done r, t)
      → is_ok r.status ≡ true
      → t.handles k ≡ some name
      → run os (Io.read k offset r.count) t ≡ (done q, u)
      → is_ok q.status ≡ true
      → (q.count ≡ (if ltb 524288 r.count then 524288 else r.count))
        × (take q.count q.contents ≡ take q.count bytes)
  unfolding Io.clamp_count
  write-read s t u h k offset count how bytes r q small at wrote good there read fine =
      let (le, now) = taken _ _ good (
        subst
          (Reached os (file_machine name) view
            (λ x n v. Kept be name offset small bytes (view s.world).contents x v))
          wrote
          (Meets-run os (file_machine name) view _ models _ s (
            write-Meets be name offset small bytes (view s.world).contents h count how s.handles
              (view s.world) at refl))) in
      let (sent, counted, _, _) = taken _ _ fine (
        subst
          (Reached os (file_machine name) view
            (Given name offset r.count small (view t.world).contents))
          read
          (Meets-run os (file_machine name) view _ models _ t (
            read-Meets name offset r.count small (view t.world).contents k t.handles (view t.world)
              there refl))) in
      let c = Io.clamp_count r.count in
      let back =
        ap (λ f. part f offset c) now
        ∙ part-written offset r.count c bytes (view s.world).contents le (clamp_count-le r.count) in
      let all_c =
        counted
        ∙ ap length back
        ∙ taken_length c bytes (omega (arith, clamp_count-le r.count, le)) in
      (all_c, sent ∙ back ∙ ap (λ n. take n bytes) (sym all_c))
