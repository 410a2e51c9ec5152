-- ===== src/Oncrpc/ClientCodec.antt =====
-- oncrpc/clientcodec.go: the calls of a client and the replies it takes.
use gonfs.Common.{
  ℕ, ◌+◌, ◌%◌, ◌^◌, not, Bool, true, Text, List, [], ◌∷◌, ◌++◌, Option, none, some, text_eq, ◌==◌,
  if◌then◌else◌,
}
use gonfs.Oncrpc.Message.AcceptStat
use gonfs.Oncrpc.Message.MsgType
use gonfs.Oncrpc.Message.RejectStat
use gonfs.Oncrpc.Message.ReplyStat
use gonfs.Oncrpc.Message.{
  ProcEntry, CallBody, RpcMsg, AcceptedReply, RejectedReply, zero_auth, zero_reply,
  rpc_protocol_version,
}
use gonfs.Oncrpc.Record.{
  ReadFailure, Received, read_full_record, Writer, Written, write_full_record,
}

-- The inner loop: the first index of a service method in a ProcList.
unfoldable pub find_proc : Text → List Text → ℕ → Option ℕ
find_proc service [] j = none
find_proc service (proc ∷ procs) j =
    if text_eq service proc then some j else find_proc service procs (j + 1)

-- Its break leaves the inner loop only.
abbrev pub note_entry : Option ℕ → ProcEntry → Option (ProcEntry × ℕ) → Option (ProcEntry × ℕ)
note_entry none e found = found
note_entry (some j) e found = some (e, j)

-- The loop over the table, with procTable[pentryIndex] and procIndex so far.
unfoldable pub find_entry : Text → List ProcEntry → Option (ProcEntry × ℕ) → Option (ProcEntry × ℕ)
unfolding find_proc
find_entry service [] found = found
find_entry service (e ∷ table) found =
    find_entry service table (note_entry (find_proc service e.proc_list 0) e found)

abbrev pub call_body : ProcEntry → ℕ → CallBody
call_body e n = record {
  rpc_version = rpc_protocol_version;
  program = e.program;
  version = e.version;
  procedure = n % 2 ^ 32;
  cred = zero_auth;
  verf = zero_auth;
}

abbrev pub call_message : ℕ → CallBody → RpcMsg
call_message seq body = record {
  xid = seq % 2 ^ 32;
  msg_type = MsgType.call;
  cbody = body;
  rbody = zero_reply;
}

-- What WriteRequest did. A param is given as what its Marshal appends, none for an error; without
-- one this is the empty text.
pub data Requested : Type 0 where
  procedure_unavailable : Text → Requested
  not_marshalled : Requested
  sent : Written → Requested

module _ (w : Writer) (marshal : RpcMsg → Option Text) where
  open w use {State}

  abbrev pub after_send : Written × State → Requested × State
  after_send (result, s) = (sent result, s)

  abbrev pub send : Option Text → Option Text → State → Requested × State
  send (some call) (some param) s = after_send (write_full_record w (call ++ param) s)
  send _ _ s = (not_marshalled, s)

  abbrev pub send_call : ℕ → Text → Option Text → Option (ProcEntry × ℕ) → State → Requested × State
  send_call seq service param none s = (procedure_unavailable service, s)
  send_call seq service param (some (e, n)) s =
      send (marshal (call_message seq (call_body e n))) param s

  unfoldable pub write_request : List ProcEntry → ℕ → Text → Option Text → State → Requested × State
  unfolding find_entry
  write_request table seq service param s =
      send_call seq service param (find_entry service table none) s

-- The errors of checkReplyForErr, with the bounds their texts print.
pub data ReplyError : Type 0 where
  invalid_message_type : ℕ → ReplyError
  prog_mismatch prog_unavail rpc_mismatch : ℕ → ℕ → ReplyError
  proc_unavail garbage_args system_err invalid_msg_accepted : ReplyError
  auth_error invalid_msg_denied_type invalid_rpc_reply_type : ReplyError

unfoldable pub check_accepted : AcceptedReply → Option ReplyError
check_accepted a =
    if a.stat == AcceptStat.success
    then none
    else if a.stat == AcceptStat.prog_mismatch
    then some (prog_mismatch a.mismatch_info_v.low a.mismatch_info_v.high)
    else if a.stat == AcceptStat.prog_unavail
    then some (prog_unavail a.mismatch_info_p.low a.mismatch_info_p.high)
    else if a.stat == AcceptStat.proc_unavail
    then some proc_unavail
    else if a.stat == AcceptStat.garbage_args
    then some garbage_args
    else if a.stat == AcceptStat.system_err
    then some system_err
    else some invalid_msg_accepted

unfoldable pub check_denied : RejectedReply → Option ReplyError
check_denied r =
    if r.stat == RejectStat.rpc_mismatch
    then some (rpc_mismatch r.mismatch_info.low r.mismatch_info.high)
    else if r.stat == RejectStat.auth_error
    then some auth_error
    else some invalid_msg_denied_type

unfoldable pub check_reply_for_err : RpcMsg → Option ReplyError
unfolding check_accepted check_denied
check_reply_for_err reply =
    if not (reply.msg_type == MsgType.reply)
    then some (invalid_message_type reply.msg_type)
    else if reply.rbody.stat == ReplyStat.msg_accepted
    then check_accepted reply.rbody.areply
    else if reply.rbody.stat == ReplyStat.msg_denied
    then check_denied reply.rbody.rreply
    else some invalid_rpc_reply_type

-- How ReadResponseHeader ends: resp.Seq, the error of the reply, recordReader, and what the
-- connection still gives.
pub data ResponseHeader : Type 0 where
  record_failed : ReadFailure → ResponseHeader
  unmarshal_failed : Text → Text → ResponseHeader
  response : ℕ → Option ReplyError → Text → Text → ResponseHeader
  out_of_fuel : ResponseHeader

-- xdr.Unmarshal of an RPCMsg: the message, none for an error, and the bytes left.
module _ (unmarshal : Text → Option RpcMsg × Text) where
  abbrev pub check_reply : Text → Option RpcMsg × Text → ResponseHeader
  check_reply rest (none, left) = unmarshal_failed left rest
  check_reply rest (some reply, left) = response reply.xid (check_reply_for_err reply) left rest

  abbrev pub take_record : Received → ResponseHeader
  take_record (Received.full bytes rest) = check_reply rest (unmarshal bytes)
  take_record (Received.failed e) = record_failed e
  take_record Received.out_of_fuel = out_of_fuel

  unfoldable pub read_response_header : (ℕ → ℕ → ℕ → ℕ) → Text → ResponseHeader
  unfolding check_reply_for_err
  read_response_header grow bytes = take_record (read_full_record grow bytes)

-- xdr.Unmarshal into the result: what it holds then, whether it succeeded, and the bytes left.
module _ {A : Type 0} (unmarshal : Text → A → (A × Bool) × Text) where
  -- ReadResponseBody of recordReader: the result, whether the error is nil, and recordReader.
  unfoldable pub read_response_body : Text → Option A → (Option A × Bool) × Text
  read_response_body reader none = ((none, true), reader)
  read_response_body reader (some result) =
      let taken = unmarshal reader result in ((some taken.0.0, taken.0.1), taken.1)
