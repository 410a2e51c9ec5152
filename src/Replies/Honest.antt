-- ===== src/Replies/Honest.antt =====
-- nfs3/allunix.go: the requests that make, remove or rename, where the operating system refuses.
use gonfs.Common.{ℕ, Text, ◌≡◌, Bool, true, false, subst}
use gonfs.Os.{Os, Call, Answer, Payload, Result, ok, err, OsError, to_result}
use gonfs.Types.Status.{is_ok}
use gonfs.Prog
use gonfs.Prog.{Prog, attempt}
use gonfs.Prog.Run.{Handles, done, Server, run}
use gonfs.Prog.Ends.{Ends, Post, Answers, Answering, Ended, Ends-run, After, ends_rules}
use gonfs.Backend.Base.{Backend}
use gonfs.Backend.Ends.{Ends-stat_path, Ends-post_attr}
use gonfs.Backend.NewObject
use gonfs.Backend.Remove
use gonfs.Backend.Io
use gonfs.Backend.Rename
use gonfs.Backend.Link
use gonfs.Svc.{Request, Reply, serve}
use gonfs.Replies.Errors.{
  get_mkdir_err-fails, get_rename_err-fails, get_create_err-fails, get_write_err-fails,
  get_remove_err-fails, get_rmdir_err-fails, get_link_err-fails, get_symlink_err-fails,
}
use gonfs.Replies.ReadOnly.{change_status, Ends-reply, Ends-refuted, Ends-fhandle}

abbrev Failing : {A : Type 0} → Result A → Type 0
Failing (ok a) = ⊥
Failing (err e) = Unit

-- The calls that make, remove or rename a file or open one to write fail.
abbrev pub Refusing : Answers
Refusing (Call.open_file p fs m) r = Failing r
Refusing (Call.mkdir p m) r = Failing r
Refusing (Call.rename p q) r = Failing r
Refusing (Call.link p q) r = Failing r
Refusing (Call.symlink p q) r = Failing r
Refusing (Call.unlink p) r = Failing r
Refusing (Call.rmdir p) r = Failing r
Refusing c r = Unit

-- The requests that need such a call.
abbrev pub needs_call : Request → Bool
needs_call (Request.write fh offset count how bytes) = true
needs_call (Request.create fh name how) = true
needs_call (Request.mkdir fh name attr) = true
needs_call (Request.symlink fh name path) = true
needs_call (Request.remove fh name) = true
needs_call (Request.rmdir fh name) = true
needs_call (Request.rename from from_name to to_name) = true
needs_call (Request.link old dir name) = true
needs_call _ = false

module _ {A : Type 0} {Q : Post A} {m : Handles} where
  Ends-refused :
      (c : Call) (failed : OsError → Prog A) (next : Payload c → Prog A)
      → ((r : Answer c) → Refusing c r → Failing (to_result c r))
      → ((e : OsError) → Ends Refusing (Unit {0}) Q (failed e) m)
      → Ends Refusing (Unit {0}) Q (attempt c failed next) m
  unfolding attempt After
  Ends-refused c failed next refuses h = record {
    after = λ r e. split (to_result c r) (refuses r e);
  }
    where
      split :
          (o : Result (Payload c))
          → Failing o
          → After Refusing (Unit {0}) Q (Prog.on_result failed next o) m
      split (ok b) f = absurd f
      split (err e) f = (h e).after

ruleset honest_rules = (
  Ends-refused, ends_rules, Ends-stat_path, Ends-post_attr, get_mkdir_err-fails,
  get_rename_err-fails, get_create_err-fails, get_write_err-fails, get_remove_err-fails,
  get_rmdir_err-fails, get_link_err-fails, get_symlink_err-fails,
)

module _ (be : Backend) (m : Handles) where
  abbrev Fails : {A : Type 0} → (A → Reply) → Prog A → Type 0
  Fails f p = Ends Refusing (Unit {0}) (λ r n. is_ok (change_status (f r)) ≡ false) p m

  remove-Fails : (h : ℕ) (name : Text) → Fails Reply.removed (Remove.remove be h name)
  unfolding Remove.remove
  remove-Fails h name = search honest_rules depth 24

  rmdir-Fails : (h : ℕ) (name : Text) → Fails Reply.removed (Remove.rmdir be h name)
  unfolding Remove.rmdir
  rmdir-Fails h name = search honest_rules depth 24

  mkdir-Fails : (h : ℕ) (name : Text) (attr : _) → Fails Reply.made (NewObject.mkdir be h name attr)
  unfolding NewObject.mkdir NewObject.fail_in
  mkdir-Fails h name attr = search honest_rules depth 24

  create-Fails : (h : ℕ) (name : Text) (how : _) → Fails Reply.made (NewObject.create be h name how)
  unfolding NewObject.create NewObject.fail_in
  create-Fails h name how = search honest_rules depth 24

  symlink-Fails :
      (h : ℕ) (name target : Text) → Fails Reply.made (NewObject.symlink be h name target)
  unfolding NewObject.symlink NewObject.fail_in
  symlink-Fails h name target = search honest_rules depth 24

  write-Fails :
      (h offset count : ℕ) (how : _) (bytes : Text)
      → Fails Reply.written (Io.write be h offset count how bytes)
  unfolding Io.write
  write-Fails h offset count how bytes = search honest_rules depth 24

  rename-Fails :
      (from_h : ℕ) (from_name : Text) (to_h : ℕ) (to_name : Text)
      → Fails Reply.renamed (Rename.rename be from_h from_name to_h to_name)
  unfolding Rename.rename Rename.rename_within Rename.from_dir_only Rename.to_dir_only
      Rename.rename_failed
  rename-Fails from_h from_name to_h to_name = search honest_rules depth 30

  link-Fails : (old_h dir_h : ℕ) (name : Text) → Fails Reply.linked (Link.link be old_h dir_h name)
  unfolding Link.link Link.link_within Link.link_dir_only Link.old_only Link.link_failed
      Link.link_post
  link-Fails old_h dir_h name = search honest_rules depth 30

ruleset need_rules = (
  Ends-refuted, Ends-reply, ends_rules, Ends-fhandle, remove-Fails, rmdir-Fails, mkdir-Fails,
  create-Fails, symlink-Fails, write-Fails, rename-Fails, link-Fails,
)

module _ (be : Backend) (m : Handles) where
  serve-Fails :
      (r : Request)
      → needs_call r ≡ true
      → Ends Refusing (Unit {0}) (λ a n. is_ok (change_status a) ≡ false) (serve be r) m
  unfolding serve
  serve-Fails (Request.mnt p) e = search need_rules depth 12
  serve-Fails _ e = search need_rules depth 12

-- Where the operating system refuses every call that makes, removes or renames a file or opens one
-- to write, no Write, Create, Mkdir, SymLink, Remove, Rmdir, Rename or Link is answered with
-- success.
pub serve-honest :
    (os : Os) (be : Backend) (s t : Server os) (r : Request) (a : Reply)
    → Answering os Refusing (Unit {0}) (λ x n. is_ok (change_status x) ≡ false)
    → needs_call r ≡ true
    → run os (serve be r) s ≡ (done a, t)
    → is_ok (change_status a) ≡ false
serve-honest os be s t r a answering c e =
    subst (Ended (Unit {0}) (λ x n. is_ok (change_status x) ≡ false)) e
      (Ends-run os Refusing (Unit {0}) _ answering (serve be r) s (serve-Fails be s.handles r c))
