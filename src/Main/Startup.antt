-- ===== src/Main/Startup.antt =====
-- main.go: the steps of main up to its loop.
use gonfs.Common.{
  ℕ, ◌%◌, ◌^◌, Bool, Text, List, [], ◌∷◌, Option, none, some, has_prefix, text_eq, ◌||◌,
  if◌then◌else◌,
}
use gonfs.Os.{Os}
use gonfs.Prog.Run.{Server, Outcome, done, exited, crashed, run}
use gonfs.Backend.Base.{ConfigOptions}
use gonfs.Backend.Mount.{Setup, configured, refused, backend_config_setup}
use gonfs.Types.Programs.{
  mount_program, mount_v3, mount3_proc_list, nfs_program, nfs_v3, nfs3_proc_list,
}
use gonfs.Oncrpc.Message.{ProcEntry}
use gonfs.Portmapper.{Rpcbind, Registered, pmap_set, pmap_unset}

-- The command line. nfsport is a uint of 64 bits.
pub record Flags : Type 0 where
  pub nfsport : ℕ
  pub pmapregister : Bool
  pub listen_addr : Text
  pub allow_addr : Text
  pub writeaccess : Bool
  pub export_path : Text
  pub log_file : Text

abbrev pub proc_table_server : List ProcEntry
proc_table_server =
    record { program = nfs_program; version = nfs_v3; proc_list = nfs3_proc_list }
    ∷ record { program = mount_program; version = mount_v3; proc_list = mount3_proc_list }
    ∷ []

-- Packages os, net and os/user: the working directory, an address range and whether it contains an
-- address, whether the log file and the port can be opened, whether the user is found.
pub record Host : Type 1 where
  pub Network : Type 0
  pub Ip : Type 0
  pub getwd : Option Text
  pub parse_cidr : Text → Option Network
  pub contains : Network → Ip → Bool
  pub open_file : Text → Bool
  pub listen : Text → ℕ → Bool
  pub current_user : Bool
  pub rpcbind : Rpcbind
  pub open rpcbind use {State}
  pub os : Os

pub data ExitReason : Type 0 where
  incorrect_export_path cwd_within_export_path no_cwd incorrect_allow_addr : ExitReason
  pmap_failed log_not_opened config_setup_failed listen_failed fatal : ExitReason

-- os.Exit(1) or log.Fatalf, a panic, or the loop with what it uses. `fatal` is log.Fatalf.
pub data Started (Network : Type 0) : Type 0 where
  stopped : ExitReason → Started Network
  panicked : Started Network
  serving : Network → ConfigOptions → Started Network

abbrev pub is_empty : Text → Bool
is_empty s = text_eq s []

module _ (host : Host) where
  open host use {Network, getwd, parse_cidr, open_file, listen, current_user, rpcbind, os, State}

  -- `_, err := ...; err != nil` after a call of the portmapper: the result is not read.
  abbrev pub then_pmap :
      (State → Started Network × State) → Registered × State → Started Network × State
  then_pmap next ((result, some e), s) = (stopped pmap_failed, s)
  then_pmap next ((result, none), s) = next s

  unfoldable pub register : ℕ → (State → Started Network × State) → State → Started Network × State
  register port next s =
      then_pmap
        (λ s1.
          then_pmap
            (λ s2.
              then_pmap (λ s3. then_pmap next (pmap_set rpcbind nfs_program nfs_v3 port s3))
                (pmap_unset rpcbind nfs_program nfs_v3 s2))
            (pmap_set rpcbind mount_program mount_v3 port s1))
        (pmap_unset rpcbind mount_program mount_v3 s)

  -- net.Listen, and user.Current, whose missing user is read.
  abbrev pub open_server : Flags → Network → ConfigOptions → Started Network
  open_server flags network config =
      if listen flags.listen_addr flags.nfsport
      then (if current_user then serving network config else panicked)
      else stopped listen_failed

  abbrev pub after_setup : Flags → Network → Outcome Setup → Started Network
  after_setup flags network (done (configured config)) = open_server flags network config
  after_setup flags network (done (refused e)) = stopped config_setup_failed
  after_setup flags network exited = stopped fatal
  after_setup flags network crashed = panicked

  unfoldable pub set_up : Flags → Server os → Network → Started Network
  set_up flags server network =
      if is_empty flags.log_file || open_file flags.log_file
      then after_setup flags network
          (run os (backend_config_setup flags.export_path flags.allow_addr flags.writeaccess)
            server).0
      else stopped log_not_opened

  abbrev pub with_network : Flags → Server os → Option Network → State → Started Network × State
  with_network flags server none s = (stopped incorrect_allow_addr, s)
  with_network flags server (some network) s =
      if flags.pmapregister
      then register (flags.nfsport % 2 ^ 32) (λ t. (set_up flags server network, t)) s
      else (set_up flags server network, s)

  abbrev pub with_cwd : Flags → Server os → Option Text → State → Started Network × State
  with_cwd flags server none s = (stopped no_cwd, s)
  with_cwd flags server (some cwd) s =
      if has_prefix cwd flags.export_path
      then (stopped cwd_within_export_path, s)
      else with_network flags server (parse_cidr flags.allow_addr) s

  -- main, on the backend's first state
  unfoldable pub start : Flags → Server os → State → Started Network × State
  unfolding register set_up
  start flags server s =
      if is_empty flags.export_path
      then (stopped incorrect_export_path, s)
      else with_cwd flags server getwd s
