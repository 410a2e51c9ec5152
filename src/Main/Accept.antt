-- ===== src/Main/Accept.antt =====
-- main.go: the loop that accepts connections.
use gonfs.Common.{List, [], ◌∷◌, if◌then◌else◌}
use gonfs.Oncrpc.ServerCodec.{ServerCodec, new_server_codec}
use gonfs.Main.Startup.{Host, proc_table_server}

-- What listener.Accept gives: a connection and the address of its client, or an error.
pub data Accepted (Conn Ip : Type 0) : Type 0 where
  accepted : Conn → Ip → Accepted Conn Ip
  accept_failed : Accepted Conn Ip

module _ (host : Host) {Conn : Type 0} where
  open host use {Network, Ip, contains}

  -- The connections that ServeCodec gets, in their order, of those that Accept gives up to its
  -- first error, where log.Fatal ends the process.
  unfoldable pub accept_loop : Network → List (Accepted Conn Ip) → List (Conn × ServerCodec)
  accept_loop network [] = []
  accept_loop network (accept_failed ∷ rest) = []
  accept_loop network (accepted conn ip ∷ rest) =
      let served = accept_loop network rest in
      if contains network ip then (conn, new_server_codec proc_table_server) ∷ served else served
