-- ===== src/Portmapper.antt =====
-- portmapper/portmapClient.go: the client of rpcbind.
use gonfs.Common.{ℕ, Bool, true, false, Text, codes, List, [], ◌∷◌, Option, none, some}
use gonfs.Oncrpc.Message.{ProcEntry}

abbrev pmap_port : ℕ
pmap_port = 111

abbrev pub pmap_program : ℕ
pmap_program = 100000

abbrev pub pmap_ver : ℕ
pmap_ver = 2

abbrev pmap_addr : Text
pmap_addr = codes "127.0.0.1"

abbrev pub ipproto_tcp : ℕ
ipproto_tcp = 6

abbrev ipproto_udp : ℕ
ipproto_udp = 17

-- A uint32 is given as its number.
pub record Mapping : Type 0 where
  pub program : ℕ
  pub version : ℕ
  pub protocol : ℕ
  pub port : ℕ

abbrev pub pmap_proc_list : List Text
pmap_proc_list =
    codes "PmapProc.PmapProc2_null"
    ∷ codes "PmapProc.PmapProc2_set"
    ∷ codes "PmapProc.PmapProc2_unset"
    ∷ codes "PmapProc.PmapProc2_getport"
    ∷ codes "PmapProc.PmapProc2_dump"
    ∷ codes "PmapProc.PmapProc2_callit"
    ∷ []

abbrev pub proc_table_client : List ProcEntry
proc_table_client =
    record { program = pmap_program; version = pmap_ver; proc_list = pmap_proc_list } ∷ []

abbrev pmapproc_null : ℕ
pmapproc_null = 0

abbrev pmapproc_set : ℕ
pmapproc_set = 1

abbrev pmapproc_unset : ℕ
pmapproc_unset = 2

abbrev pmapproc_getport : ℕ
pmapproc_getport = 3

abbrev pmapproc_dump : ℕ
pmapproc_dump = 4

abbrev pmapproc_callit : ℕ
pmapproc_callit = 5

-- rpcbind as package net/rpc reaches it: whether a connection is made, a call with its result and
-- whether it succeeded, and the end of the connection.
pub record Rpcbind : Type 1 where
  pub State : Type 0
  pub dial : State → Bool × State
  pub call : Text → Mapping → State → (Bool × Bool) × State
  pub close : State → State

pub data PmapError : Type 0 where
  not_connected call_failed : PmapError

-- result and err
abbrev pub Registered : Type 0
Registered = Bool × Option PmapError

abbrev pub registered : Bool × Bool → Registered
registered (result, true) = (result, none)
registered (result, false) = (result, some call_failed)

module _ (rpcbind : Rpcbind) where
  open rpcbind use {State, dial, call, close}

  -- client.Call, and client.Close as the function returns
  abbrev pub finish : (Bool × Bool) × State → Registered × State
  finish (result, s) = (registered result, close s)

  -- rpc.NewClientWithCodec always gives a client, so the test for nil never holds.
  abbrev pub with_client : Text → Mapping → Bool × State → Registered × State
  with_client service mapping (false, s) = ((false, some not_connected), s)
  with_client service mapping (true, s) = finish (call service mapping s)

  unfoldable pub pmap_set : ℕ → ℕ → ℕ → State → Registered × State
  pmap_set program version port s =
      with_client (codes "PmapProc.PmapProc2_set")
        (record { program = program; version = version; protocol = ipproto_tcp; port = port })
        (dial s)

  unfoldable pub pmap_unset : ℕ → ℕ → State → Registered × State
  pmap_unset program version s =
      with_client (codes "PmapProc.PmapProc2_unset")
        (record { program = program; version = version; protocol = 0; port = 0 }) (dial s)
