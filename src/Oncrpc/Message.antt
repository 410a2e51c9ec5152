-- ===== src/Oncrpc/Message.antt =====
-- oncrpc/rpctypes.go: the messages. An int32 is given as the number of its 32 bits.
pub mod MsgType
pub mod ReplyStat
pub mod AcceptStat
pub mod RejectStat
pub mod AuthStat
pub mod AuthFlavor
pub mod Selected
use gonfs.Common.{ℕ, Text, List, [], ◌∷◌, ◌==◌, if◌then◌else◌}

abbrev pub rpc_protocol_version : ℕ
rpc_protocol_version = 2

pub record OpaqueAuth : Type 0 where
  pub flavor : ℕ
  pub body : Text

pub record CallBody : Type 0 where
  pub rpc_version : ℕ
  pub program : ℕ
  pub version : ℕ
  pub procedure : ℕ
  pub cred : OpaqueAuth
  pub verf : OpaqueAuth

pub record MismatchReply : Type 0 where
  pub low : ℕ
  pub high : ℕ

pub record AcceptedReply : Type 0 where
  pub verf : OpaqueAuth
  pub stat : ℕ
  pub mismatch_info_p : MismatchReply
  pub mismatch_info_v : MismatchReply

pub record RejectedReply : Type 0 where
  pub stat : ℕ
  pub mismatch_info : MismatchReply
  pub auth_stat : ℕ

pub record ReplyBody : Type 0 where
  pub stat : ℕ
  pub areply : AcceptedReply
  pub rreply : RejectedReply

pub record RpcMsg : Type 0 where
  pub xid : ℕ
  pub msg_type : ℕ
  pub cbody : CallBody
  pub rbody : ReplyBody

pub record ProcEntry : Type 0 where
  pub program : ℕ
  pub version : ℕ
  pub proc_list : List Text

-- Go's zero values.
abbrev pub zero_auth : OpaqueAuth
zero_auth = record { flavor = 0; body = [] }

abbrev pub zero_call : CallBody
zero_call = record {
  rpc_version = 0;
  program = 0;
  version = 0;
  procedure = 0;
  cred = zero_auth;
  verf = zero_auth;
}

abbrev pub zero_mismatch : MismatchReply
zero_mismatch = record { low = 0; high = 0 }

abbrev pub zero_accepted : AcceptedReply
zero_accepted = record {
  verf = zero_auth;
  stat = 0;
  mismatch_info_p = zero_mismatch;
  mismatch_info_v = zero_mismatch;
}

abbrev pub zero_rejected : RejectedReply
zero_rejected = record { stat = 0; mismatch_info = zero_mismatch; auth_stat = 0 }

abbrev pub zero_reply : ReplyBody
zero_reply = record { stat = 0; areply = zero_accepted; rreply = zero_rejected }
