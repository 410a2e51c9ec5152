-- ===== src/Main/Ready.antt =====
-- main.go: what main needs to reach its loop.
use gonfs.Common.{
  ℕ, ◌%◌, ◌^◌, ◌≡◌, ◌≢◌, refl, ap, subst, Bool, true, false, Text, [], Option, none, some,
  has_prefix, ◌||◌, if◌then◌else◌,
}
use gonfs.Prog.Run.{Server, Outcome, done, exited, crashed, run}
use gonfs.Backend.Base.{ConfigOptions}
use gonfs.Backend.Mount.{Setup, configured, refused, backend_config_setup}
use gonfs.Types.Programs.{mount_program, mount_v3, nfs_program, nfs_v3}
use gonfs.Portmapper.{Registered, pmap_set, pmap_unset}
use gonfs.Main.Startup
use gonfs.Main.Startup.{
  Host, Flags, ExitReason, Started, serving, register, set_up, start, is_empty,
}

module _ (host : Host) where
  open host use {Network, getwd, parse_cidr, open_file, listen, current_user, rpcbind, os, State}

  -- A call of the portmapper without an error, from a state to another.
  abbrev Passes : (State → Registered × State) → State → State → Type 0
  Passes f s t = (result : Bool) × (f s ≡ ((result, none), t))

  -- The four calls of the portmapper, in their order.
  abbrev pub Registers : ℕ → State → State → Type 0
  Registers port s t =
      (s1 : State) × (s2 : State) × (s3 : State) × Passes
        (pmap_unset rpcbind mount_program mount_v3) s s1
      × Passes (pmap_set rpcbind mount_program mount_v3 port) s1 s2
      × Passes (pmap_unset rpcbind nfs_program nfs_v3) s2 s3
      × Passes (pmap_set rpcbind nfs_program nfs_v3 port) s3 t

  abbrev pub MaybeRegisters : Bool → ℕ → State → State → Type 0
  MaybeRegisters true port s t = Registers port s t
  MaybeRegisters false port s t = s ≡ t

  -- What is checked after the registration.
  abbrev pub IsSetUp : Flags → Server os → ConfigOptions → Type 0
  IsSetUp flags server config =
      ((is_empty flags.log_file || open_file flags.log_file) ≡ true)
      × ((run os (backend_config_setup flags.export_path flags.allow_addr flags.writeaccess)
            server).0
          ≡ done (configured config))
      × (listen flags.listen_addr flags.nfsport ≡ true)
      × (current_user ≡ true)

  abbrev pub IsReady : Flags → Server os → State → Network → ConfigOptions → State → Type 0
  IsReady flags server s network config t =
      (flags.export_path ≢ [])
      × ((cwd : Text) × (getwd ≡ some cwd) × (has_prefix cwd flags.export_path ≡ false))
      × (parse_cidr flags.allow_addr ≡ some network)
      × MaybeRegisters flags.pmapregister (flags.nfsport % 2 ^ 32) s t
      × IsSetUp flags server config

  open-serving :
      (l u : Bool) (n network : Network) (c config : ConfigOptions)
      → (if l
          then (if u then serving n c else Started.panicked)
          else Started.stopped Startup.listen_failed)
        ≡ serving network config
      → (n ≡ network) × (c ≡ config) × (l ≡ true) × (u ≡ true)
  open-serving true true n network c config h = (cc, cc, refl, refl)
  open-serving true false n network c config h = absurd (cc)
  open-serving false u n network c config h = absurd (cc)

  after_setup-serving :
      (flags : Flags) (o : Outcome Setup) (n network : Network) (config : ConfigOptions)
      → Startup.after_setup host flags n o ≡ serving network config
      → (n ≡ network)
        × (o ≡ done (configured config))
        × (listen flags.listen_addr flags.nfsport ≡ true)
        × (current_user ≡ true)
  after_setup-serving flags (done (configured c)) n network config h =
      let (a, b, l, u) = open-serving _ _ n network c config h in
      (a, ap (λ x. done (configured x)) b, l, u)
  after_setup-serving flags (done (refused e)) n network config h = absurd (cc)
  after_setup-serving flags exited n network config h = absurd (cc)
  after_setup-serving flags crashed n network config h = absurd (cc)

  if-serving :
      (b : Bool) (r : ExitReason) (x : Started Network) (network : Network) (config : ConfigOptions)
      → (if b then x else Started.stopped r) ≡ serving network config
      → (b ≡ true) × (x ≡ serving network config)
  if-serving true r x network config h = (refl, h)
  if-serving false r x network config h = absurd (cc)

  set_up-serving :
      (flags : Flags) (server : Server os) (n network : Network) (config : ConfigOptions)
      → set_up host flags server n ≡ serving network config
      → (n ≡ network) × IsSetUp flags server config
  unfolding set_up
  set_up-serving flags server n network config h =
      let (f, g) = if-serving _ _ _ network config h in
      let (a, o, l, u) = after_setup-serving flags _ n network config g in (a, (f, o, l, u))

  pmap-serving :
      (called : Registered × State) (next : State → Started Network × State) (t : State)
      (network : Network) (config : ConfigOptions)
      → Startup.then_pmap host next called ≡ (serving network config, t)
      → (result : Bool) × (u : State) × (called ≡ ((result, none), u))
        × (next u ≡ (serving network config, t))
  pmap-serving ((result, some e), s) next t network config h = absurd (cc)
  pmap-serving ((result, none), s) next t network config h = (result, s, refl, h)

  register-serving :
      (port : ℕ) (next : State → Started Network × State) (s t : State) (network : Network)
      (config : ConfigOptions)
      → register host port next s ≡ (serving network config, t)
      → (u : State) × Registers port s u × (next u ≡ (serving network config, t))
  unfolding register
  register-serving port next s t network config h =
      let (a, s1, p1, h1) = pmap-serving _ _ t network config h in
      let (b, s2, p2, h2) = pmap-serving _ _ t network config h1 in
      let (c, s3, p3, h3) = pmap-serving _ _ t network config h2 in
      let (d, u, p4, h4) = pmap-serving _ _ t network config h3 in
      (u, (s1, s2, s3, (a, p1), (b, p2), (c, p3), (d, p4)), h4)

  maybe-serving :
      (p : Bool) (flags : Flags) (server : Server os) (s t : State) (n network : Network)
      (config : ConfigOptions)
      → (if p
          then register host (flags.nfsport % 2 ^ 32) (λ u. (set_up host flags server n, u)) s
          else (set_up host flags server n, s))
        ≡ (serving network config, t)
      → (n ≡ network) × MaybeRegisters p (flags.nfsport % 2 ^ 32) s t × IsSetUp flags server config
  maybe-serving true flags server s t n network config h =
      let (u, calls, last) = register-serving _ _ s t network config h in
      let (a, ready) = set_up-serving flags server n network config (ap (λ x. x.0) last) in
      (a, subst (Registers _ s) (ap (λ x. x.1) last) calls, ready)
  maybe-serving false flags server s t n network config h =
      let (a, ready) = set_up-serving flags server n network config (ap (λ x. x.0) h) in
      (a, ap (λ x. x.1) h, ready)

  pub maybe-ready :
      (p : Bool) (flags : Flags) (server : Server os) (s t : State) (network : Network)
      (config : ConfigOptions)
      → MaybeRegisters p (flags.nfsport % 2 ^ 32) s t
      → IsSetUp flags server config
      → (if p
          then register host (flags.nfsport % 2 ^ 32) (λ u. (set_up host flags server network, u)) s
          else (set_up host flags server network, s))
        ≡ (serving network config, t)
  unfolding register set_up
  maybe-ready true flags server s t network config (s1, s2, s3, (a, p1), (b, p2), (c, p3), (d, p4))
        (f, o, l, u) =
      rw (p1, p2, p3, p4, f, o, l, u) refl
  maybe-ready false flags server s t network config same (f, o, l, u) =
      rw (f, o, l, u) (ap (λ x. (serving network config, x)) same)

  pub network-serving :
      (flags : Flags) (server : Server os) (s t : State) (o : Option Network) (network : Network)
      (config : ConfigOptions)
      → Startup.with_network host flags server o s ≡ (serving network config, t)
      → (o ≡ some network)
        × MaybeRegisters flags.pmapregister (flags.nfsport % 2 ^ 32) s t
        × IsSetUp flags server config
  network-serving flags server s t none network config h = absurd (cc)
  network-serving flags server s t (some n) network config h =
      let (a, calls, ready) =
        maybe-serving flags.pmapregister flags server s t n network config h in
      (ap some a, calls, ready)

  pub cwd-serving :
      (flags : Flags) (server : Server os) (s t : State) (o : Option Text) (network : Network)
      (config : ConfigOptions)
      → Startup.with_cwd host flags server o s ≡ (serving network config, t)
      → ((cwd : Text) × (o ≡ some cwd) × (has_prefix cwd flags.export_path ≡ false))
        × (Startup.with_network host flags server (parse_cidr flags.allow_addr) s
            ≡ (serving network config, t))
  cwd-serving flags server s t none network config h = absurd (cc)
  cwd-serving flags server s t (some cwd) network config h =
      let (outside, k) = split (has_prefix cwd flags.export_path) h in ((cwd, refl, outside), k)
    where
      split :
          (b : Bool)
          → (if b
              then (Started.stopped Startup.cwd_within_export_path, s)
              else Startup.with_network host flags server (parse_cidr flags.allow_addr) s)
            ≡ (serving network config, t)
          → (b ≡ false)
            × (Startup.with_network host flags server (parse_cidr flags.allow_addr) s
                ≡ (serving network config, t))
      split true k = absurd (cc)
      split false k = (refl, k)
