-- ===== src/Main/Serving.antt =====
-- main.go: when main reaches its loop.
use gonfs.Common.{
  ◌≡◌, ◌≢◌, ◌↔◌, refl, Bool, true, false, Text, [], text_eq_iff, if◌then◌else◌, arith,
}
use gonfs.Prog.Run.{Server}
use gonfs.Backend.Base.{ConfigOptions}
use gonfs.Main.Startup
use gonfs.Main.Startup.{Host, Flags, Started, serving, start, is_empty}
use gonfs.Main.Ready.{IsReady, cwd-serving, network-serving, maybe-ready}

not-empty : (s : Text) → s ≢ [] → is_empty s ≡ false
not-empty s ne = ground (arith, text_eq_iff s [])

empty-not : (s : Text) → is_empty s ≡ false → s ≢ []
empty-not s h = ground (arith, text_eq_iff s [])

module _ (host : Host) (flags : Flags) (server : Server host.os) (s t : host.State)
    (network : host.Network) (config : ConfigOptions) where
  if-serving :
      (b : Bool) (x : Started host.Network × host.State)
      → (if b then (Started.stopped Startup.incorrect_export_path, s) else x)
        ≡ (serving network config, t)
      → (b ≡ false) × (x ≡ (serving network config, t))
  if-serving true x h = absurd (cc)
  if-serving false x h = (refl, h)

  -- main reaches its loop, with this network and this configuration, exactly if the export path is
  -- given, the working directory does not begin with it, the allowed addresses are a range, the
  -- portmapper's four calls for the two programs pass in their order where registration is wanted,
  -- the log file opens where one is wanted, the backend takes the path, the port opens and the
  -- user is found.
  pub start-IsReady :
      (start host flags server s ≡ (serving network config, t))
      ↔ IsReady host flags server s network config t
  unfolding start
  start-IsReady = (forward, backward)
    where
      forward :
          start host flags server s ≡ (serving network config, t)
          → IsReady host flags server s network config t
      forward h =
          let (given, h1) = if-serving (is_empty flags.export_path) _ h in
          let (cwd, h2) = cwd-serving host flags server s t host.getwd network config h1 in
          let (net, calls, ready) =
            network-serving host flags server s t (host.parse_cidr flags.allow_addr) network config
              h2 in
          (empty-not flags.export_path given, cwd, net, calls, ready)

      backward :
          IsReady host flags server s network config t
          → start host flags server s ≡ (serving network config, t)
      backward (given, (cwd, found, outside), net, calls, ready) =
          rw (not-empty flags.export_path given, found, outside, net)
            (maybe-ready host flags.pmapregister flags server s t network config calls ready)
