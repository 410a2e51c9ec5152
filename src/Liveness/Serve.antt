-- ===== src/Liveness/Serve.antt =====
-- nfs3/nfsprocdef.go: panics in the requests.
use gonfs.Common.{ℕ, ◌^◌, ◌<◌, ◌≤◌, Text, [], ◌∷◌, length, arith}
use gonfs.Prog.{Prog}
use gonfs.Backend.Base.{Backend, uint64}
use gonfs.Svc.{Request, Reply, fhandle, serve}
use gonfs.Liveness.Calm.{Calm, calm_rules}
use gonfs.Liveness.Methods.{
  mount-Calm, unmount-Calm, lookup-Calm, getattr-Calm, fsinfo-Calm, fsstat-Calm, pathconf-Calm,
  readdirplus-Calm, access-Calm, readlink-Calm, mkdir-Calm, create-Calm, symlink-Calm, remove-Calm,
  rmdir-Calm, setattr-Calm, rename-Calm, link-Calm,
}
use gonfs.Liveness.Open.{read-Calm, write-Calm, commit-Calm}

-- A handle of at least 8 bytes.
abbrev pub IsHandle : Text → Type 0
IsHandle fh = 8 ≤ length fh

-- The handles of a request are of at least 8 bytes, and the offset of a Read or a Write is below
-- 2 ^ 63. Readdir is left out.
abbrev pub IsPlain : Request → Type 0
IsPlain (Request.getattr fh) = IsHandle fh
IsPlain (Request.readlink fh) = IsHandle fh
IsPlain (Request.fsstat fh) = IsHandle fh
IsPlain (Request.fsinfo fh) = IsHandle fh
IsPlain (Request.pathconf fh) = IsHandle fh
IsPlain (Request.commit fh) = IsHandle fh
IsPlain (Request.readdirplus fh) = IsHandle fh
IsPlain (Request.access fh) = IsHandle fh
IsPlain (Request.lookup fh name) = IsHandle fh
IsPlain (Request.remove fh name) = IsHandle fh
IsPlain (Request.rmdir fh name) = IsHandle fh
IsPlain (Request.setattr fh new guard) = IsHandle fh
IsPlain (Request.read fh offset count) = IsHandle fh × (offset < 2 ^ 63)
IsPlain (Request.write fh offset count how bytes) = IsHandle fh × (offset < 2 ^ 63)
IsPlain (Request.create fh name how) = IsHandle fh
IsPlain (Request.mkdir fh name attr) = IsHandle fh
IsPlain (Request.symlink fh name path) = IsHandle fh
IsPlain (Request.rename from from_name to to_name) = IsHandle from × IsHandle to
IsPlain (Request.link old dir name) = IsHandle old × IsHandle dir
IsPlain (Request.readdir fh cookie count) = ⊥
IsPlain r = Unit

fhandle-Calm :
    (fh : Text) (k : ℕ → Prog Reply)
    → IsHandle fh
    → ((h : ℕ) → Calm (k h))
    → Calm (fhandle (uint64 fh) k)
unfolding fhandle uint64
fhandle-Calm (a ∷ b ∷ c ∷ d ∷ e ∷ f ∷ g ∷ h ∷ rest) k long all = all _
fhandle-Calm [] k long all = absurd (omega arith)
fhandle-Calm (a ∷ []) k long all = absurd (omega arith)
fhandle-Calm (a ∷ b ∷ []) k long all = absurd (omega arith)
fhandle-Calm (a ∷ b ∷ c ∷ []) k long all = absurd (omega arith)
fhandle-Calm (a ∷ b ∷ c ∷ d ∷ []) k long all = absurd (omega arith)
fhandle-Calm (a ∷ b ∷ c ∷ d ∷ e ∷ []) k long all = absurd (omega arith)
fhandle-Calm (a ∷ b ∷ c ∷ d ∷ e ∷ f ∷ []) k long all = absurd (omega arith)
fhandle-Calm (a ∷ b ∷ c ∷ d ∷ e ∷ f ∷ g ∷ []) k long all = absurd (omega arith)

ruleset method_rules = (
  calm_rules, fhandle-Calm, mount-Calm, unmount-Calm, lookup-Calm, getattr-Calm, fsinfo-Calm,
  fsstat-Calm, pathconf-Calm, readdirplus-Calm, access-Calm, readlink-Calm, mkdir-Calm, create-Calm,
  symlink-Calm, remove-Calm, rmdir-Calm, setattr-Calm, rename-Calm, link-Calm, read-Calm,
  write-Calm, commit-Calm,
)

pub serve-Calm : (be : Backend) (r : Request) → IsPlain r → Calm (serve be r)
unfolding serve
serve-Calm be (Request.read fh offset count) (long, small) = search method_rules depth 12
serve-Calm be (Request.write fh offset count how bytes) (long, small) = search method_rules depth 12
serve-Calm be (Request.rename from from_name to to_name) (long, long_to) =
    search method_rules depth 12
serve-Calm be (Request.link old dir name) (long, long_dir) = search method_rules depth 12
serve-Calm be (Request.readdir fh cookie count) plain = absurd plain
serve-Calm be _ plain = search method_rules depth 12
