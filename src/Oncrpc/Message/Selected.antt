-- ===== src/Oncrpc/Message/Selected.antt =====
-- oncrpc/rpctypes.go: the tags of the messages' unions.
use gonfs.Common.{ℕ, ◌==◌, if◌then◌else◌}
use gonfs.Oncrpc.Message.{
  RpcMsg, ReplyBody, AcceptedReply, RejectedReply, zero_call, zero_reply, zero_accepted,
  zero_rejected, zero_mismatch,
}

-- The tags `union` and `unioncase=n`: a field with such a case is sent only where the union's
-- value is n, and has its zero value after it was read otherwise.
abbrev case {ℓ} : {A : Type ℓ} → ℕ → ℕ → A → A → A
case tag n sent unsent = if tag == n then sent else unsent

abbrev pub accepted : AcceptedReply → AcceptedReply
accepted a = record {
  verf = a.verf;
  stat = a.stat;
  mismatch_info_p = case a.stat 1 a.mismatch_info_p zero_mismatch;
  mismatch_info_v = case a.stat 2 a.mismatch_info_v zero_mismatch;
}

abbrev pub rejected : RejectedReply → RejectedReply
rejected r = record {
  stat = r.stat;
  mismatch_info = case r.stat 0 r.mismatch_info zero_mismatch;
  auth_stat = case r.stat 1 r.auth_stat 0;
}

abbrev pub reply : ReplyBody → ReplyBody
reply b = record {
  stat = b.stat;
  areply = case b.stat 0 (accepted b.areply) zero_accepted;
  rreply = case b.stat 1 (rejected b.rreply) zero_rejected;
}

abbrev pub message : RpcMsg → RpcMsg
message m = record {
  xid = m.xid;
  msg_type = m.msg_type;
  cbody = case m.msg_type 0 m.cbody zero_call;
  rbody = case m.msg_type 1 (reply m.rbody) zero_reply;
}
