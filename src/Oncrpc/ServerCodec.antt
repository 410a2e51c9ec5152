-- ===== src/Oncrpc/ServerCodec.antt =====
-- oncrpc/servercodec.go: the header of a request and of its response.
use gonfs.Common.{
  ℕ, ◌+◌, Bool, true, false, not, ◌||◌, Text, List, [], ◌∷◌, Option, none, some, ◌==◌,
  if◌then◌else◌, get_elem?,
}
use gonfs.Oncrpc.Message.{ProcEntry, CallBody, RpcMsg, rpc_protocol_version}
use gonfs.Oncrpc.Fault
use gonfs.Oncrpc.Message.AuthFlavor
use gonfs.Oncrpc.Message.MsgType
use gonfs.Oncrpc.Record.{ReadFailure, Received, full, failed, read_full_record}

-- The loop over procTable: the first entry of the program, with its index.
unfoldable pub find_program : ℕ → List ProcEntry → ℕ → Option (ℕ × ProcEntry)
find_program program [] i = none
find_program program (e ∷ table) i =
    if program == e.program then some (i, e) else find_program program table (i + 1)

-- ProcList[Procedure], where there is one
abbrev pub or_unavailable : Option Text → Text
or_unavailable none = Fault.proc_unavail
or_unavailable (some name) = name

-- The service method and currentProgIndex, once the program has been looked for.
abbrev pub choose_procedure : CallBody → Option ℕ → Option (ℕ × ProcEntry) → Text × Option ℕ
choose_procedure call current none = (Fault.prog_unavail, current)
choose_procedure call current (some (i, e)) = (
  if call.version == e.version
      then or_unavailable (get_elem? e.proc_list call.procedure)
      else Fault.prog_mismatch,
  some i,
)

abbrev pub is_known_flavor : ℕ → Bool
is_known_flavor f = f == AuthFlavor.auth_none || f == AuthFlavor.auth_sys

-- The checks of ReadRequestHeader in their order. `current` is currentProgIndex, none for -1.
unfoldable pub select_method : List ProcEntry → CallBody → Option ℕ → Text × Option ℕ
unfolding find_program
select_method table call current =
    if not (call.rpc_version == rpc_protocol_version)
    then (Fault.rpc_mismatch, current)
    else if not (is_known_flavor call.cred.flavor)
    then (Fault.auth_error, current)
    else choose_procedure call current (find_program call.program table 0)

-- serverCodec. `is_open` is whether conn.Close has not been called.
pub record ServerCodec : Type 0 where
  pub proc_table : List ProcEntry
  pub current_prog_index : Option ℕ
  pub record_reader : Text
  pub is_open : Bool

abbrev pub new_server_codec : List ProcEntry → ServerCodec
new_server_codec table = record {
  proc_table = table;
  current_prog_index = none;
  record_reader = [];
  is_open = true;
}

-- How ReadRequestHeader ends: an error, or a request with its Seq and ServiceMethod. The text is
-- what the connection still gives.
pub data RequestHeader : Type 0 where
  record_failed : ReadFailure → RequestHeader
  unmarshal_failed : Text → RequestHeader
  invalid_message_type : ℕ → Text → RequestHeader
  request : ℕ → Text → Text → RequestHeader
  out_of_fuel : RequestHeader

abbrev pub take_call : ServerCodec → RpcMsg → Text → RequestHeader × ServerCodec
take_call codec call rest =
    if not (call.msg_type == MsgType.call)
    then (invalid_message_type call.msg_type rest, codec)
    else let selected = select_method codec.proc_table call.cbody codec.current_prog_index in
      (request call.xid selected.0 rest, record codec { current_prog_index = selected.1 })

-- xdr.Unmarshal of an RPCMsg: the message, none for an error, and the bytes left.
module _ (unmarshal : Text → Option RpcMsg × Text) where
  abbrev pub unmarshal_call :
      ServerCodec → Text → Option RpcMsg × Text → RequestHeader × ServerCodec
  unmarshal_call codec rest (none, left) =
      (unmarshal_failed rest, record codec { record_reader = left })
  unmarshal_call codec rest (some call, left) =
      take_call (record codec { record_reader = left }) call rest

  abbrev pub take_record : ServerCodec → Received → RequestHeader × ServerCodec
  take_record codec (full bytes rest) = unmarshal_call codec rest (unmarshal bytes)
  take_record codec (failed e) = (record_failed e, codec)
  take_record codec Received.out_of_fuel = (out_of_fuel, codec)

  unfoldable pub read_request_header :
      (ℕ → ℕ → ℕ → ℕ) → ServerCodec → Text → RequestHeader × ServerCodec
  unfolding select_method
  read_request_header grow codec bytes = take_record codec (read_full_record grow bytes)

unfoldable pub close : ServerCodec → ServerCodec
close codec = record codec { is_open = false }

-- xdr.Unmarshal into the arguments: what they hold then, whether it succeeded, and the bytes left.
module _ {A : Type 0} (unmarshal : Text → A → (A × Bool) × Text) where
  abbrev pub keep_args : ServerCodec → (A × Bool) × Text → A × ServerCodec
  keep_args codec ((args, true), left) = (args, record codec { record_reader = left })
  keep_args codec ((args, false), left) = (args, close (record codec { record_reader = left }))

  -- The error is nil in each case; without arguments nothing is read.
  unfoldable pub read_request_body : ServerCodec → Option A → Option A × ServerCodec
  unfolding close
  read_request_body codec none = (none, codec)
  read_request_body codec (some args) =
      let result = keep_args codec (unmarshal codec.record_reader args) in (some result.0, result.1)
