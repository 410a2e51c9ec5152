-- ===== src/Oncrpc/Response.antt =====
-- oncrpc/servercodec.go: WriteResponse.
use gonfs.Common.{
  ℕ, ◌-◌, ◌%◌, ◌^◌, Text, List, ◌++◌, Option, none, some, length, get_elem?, text_eq, if◌then◌else◌,
}
use gonfs.Oncrpc.Fault
use gonfs.Oncrpc.Message.AcceptStat
use gonfs.Oncrpc.Message.AuthStat
use gonfs.Oncrpc.Message.MsgType
use gonfs.Oncrpc.Message.RejectStat
use gonfs.Oncrpc.Message.ReplyStat
use gonfs.Oncrpc.Message.{
  ProcEntry, RpcMsg, ReplyBody, MismatchReply, zero_call, zero_accepted, zero_rejected,
}
use gonfs.Oncrpc.Record.{Writer, Written, write_full_record}
use gonfs.Oncrpc.ServerCodec.{ServerCodec, close}

-- The reply's body before the switch, and with an AcceptStat.
abbrev pub success_reply : ReplyBody
success_reply = record {
  stat = ReplyStat.msg_accepted;
  areply = record zero_accepted { stat = AcceptStat.success };
  rreply = zero_rejected;
}

abbrev pub accept : ℕ → ReplyBody
accept stat = record success_reply { areply = record zero_accepted { stat = stat } }

abbrev pub range : ℕ → ℕ → MismatchReply
range low high = record { low = low; high = high }

abbrev pub program_range : ProcEntry → ProcEntry → ReplyBody
program_range first last = record success_reply {
  areply = record zero_accepted {
    stat = AcceptStat.prog_unavail;
    mismatch_info_p = range first.program last.program;
  };
}

abbrev pub version_range : ProcEntry → ReplyBody
version_range e = record success_reply {
  areply = record zero_accepted {
    stat = AcceptStat.prog_mismatch;
    mismatch_info_v = range e.version e.version;
  };
}

-- procTable[0] and procTable[len - 1], or none for a panic
abbrev pub programs : Option ProcEntry → Option ProcEntry → Option ReplyBody
programs (some first) (some last) = some (program_range first last)
programs _ _ = none

abbrev pub entry_at : List ProcEntry → Option ℕ → Option ProcEntry
entry_at table none = none
entry_at table (some i) = get_elem? table i

abbrev pub versions : Option ProcEntry → Option ReplyBody
versions none = none
versions (some e) = some (version_range e)

abbrev pub rpc_mismatch : ReplyBody
rpc_mismatch = record success_reply {
  rreply = record zero_rejected { stat = RejectStat.rpc_mismatch; mismatch_info = range 2 2 };
}

abbrev pub auth_error : ReplyBody
auth_error = record success_reply {
  rreply = record zero_rejected { stat = RejectStat.auth_error; auth_stat = AuthStat.auth_badcred };
}

-- The switch on the service method; none is an index out of range.
unfoldable pub reply_body : List ProcEntry → Option ℕ → Text → Option ReplyBody
reply_body table current service =
    if text_eq service Fault.prog_unavail
    then programs (get_elem? table 0) (get_elem? table (length table - 1))
    else if text_eq service Fault.prog_mismatch
    then versions (entry_at table current)
    else if text_eq service Fault.proc_unavail
    then some (accept AcceptStat.proc_unavail)
    else if text_eq service Fault.garbage_args
    then some (accept AcceptStat.garbage_args)
    else if text_eq service Fault.system_err
    then some (accept AcceptStat.system_err)
    else if text_eq service Fault.rpc_mismatch
    then some rpc_mismatch
    else if text_eq service Fault.auth_error
    then some auth_error
    else some success_reply

abbrev pub reply_message : ℕ → ReplyBody → RpcMsg
reply_message seq body = record {
  xid = seq % 2 ^ 32;
  msg_type = MsgType.reply;
  cbody = zero_call;
  rbody = body;
}

-- What WriteResponse did.
pub data Responded : Type 0 where
  panic not_marshalled : Responded
  sent : Written → Responded

-- xdr.Marshal of the reply, none for an error. A result is given as what its Marshal appends.
module _ (w : Writer) (marshal : RpcMsg → Option Text) where
  open w use {State}

  abbrev pub after_send : ServerCodec → Written × State → (Responded × ServerCodec) × State
  after_send codec (Written.write_failed n e, s) =
      ((sent (Written.write_failed n e), close codec), s)
  after_send codec (result, s) = ((sent result, codec), s)

  abbrev pub send :
      ServerCodec → Option Text → Option Text → State → (Responded × ServerCodec) × State
  send codec (some header) (some result) s =
      after_send codec (write_full_record w (header ++ result) s)
  send codec _ _ s = ((not_marshalled, close codec), s)

  abbrev pub send_reply :
      ServerCodec → ℕ → Option Text → Option ReplyBody → State → (Responded × ServerCodec) × State
  send_reply codec seq result none s = ((panic, codec), s)
  send_reply codec seq result (some body) s = send codec (marshal (reply_message seq body)) result s

  unfoldable pub write_response :
      ServerCodec → ℕ → Text → Option Text → State → (Responded × ServerCodec) × State
  unfolding reply_body
  write_response codec seq service result s =
      send_reply codec seq result (reply_body codec.proc_table codec.current_prog_index service) s
