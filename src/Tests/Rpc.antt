-- ===== src/Tests/Rpc.antt =====
-- The theorems on calls and replies, for the table of main and a message written field by field.
use gonfs.Common.{
  ℕ, ◌≡◌, refl, sym, ap, ◌∙◌, Text, codes, [], ◌∷◌, ◌++◌, Option, none, some, ◌↔◌, text_eq, arith,
}
use gonfs.Oncrpc.Fault
use gonfs.Oncrpc.Message.{ProcEntry, ReplyBody, RpcMsg, CallBody, zero_auth}
use gonfs.Oncrpc.Message.Selected
use gonfs.Oncrpc.Framing.{encode}
use gonfs.Oncrpc.Writing.{returned}
use gonfs.Oncrpc.Verdicts.{Verdict, select_method-Verdict}
use gonfs.Oncrpc.Reports.{Reported, reply_body-Reported}
use gonfs.Oncrpc.Calls.{select_method-call_body}
use gonfs.Oncrpc.Wire.{
  fields, Fits, ReadsBack, read_request_header-write_request, read_response_header-write_response,
}
use gonfs.Oncrpc.ServerCodec.{
  ServerCodec, new_server_codec, select_method, request, read_request_header,
}
use gonfs.Oncrpc.ClientCodec
use gonfs.Oncrpc.ClientCodec.{
  find_entry, write_request, call_body, call_message, check_reply_for_err, response,
  read_response_header, proc_unavail,
}
use gonfs.Oncrpc.Response
use gonfs.Oncrpc.Response.{reply_body, reply_message, write_response, accept}
use gonfs.Types.Programs.{nfs_program, nfs_v3, nfs3_proc_list}
use gonfs.Main.Startup.{proc_table_server}
use gonfs.Main.Table.{proc_table_server-IsDistinct, proc_table_server-HasMethods}
use gonfs.Tests.Oncrpc.{connection, fixed_cap, fixed_cap-grows}

-- In place of xdr.Marshal and xdr.Unmarshal: the numbers of what is sent of a message.
abbrev pub marshal : RpcMsg → Option Text
marshal m = some (fields (Selected.message m))

abbrev pub message_of :
    ℕ
    → ℕ
    → ℕ
    → ℕ
    → ℕ
    → ℕ
    → ℕ
    → ℕ
    → ℕ
    → ℕ
    → ℕ
    → ℕ
    → ℕ
    → ℕ
    → ℕ
    → ℕ
    → ℕ
    → ℕ
    → ℕ
    → Text
    → Text
    → Text
    → RpcMsg
message_of x t v p n q c d s f a e g h i r l k u b1 b2 b3 = record {
  xid = x;
  msg_type = t;
  cbody = record {
    rpc_version = v;
    program = p;
    version = n;
    procedure = q;
    cred = record { flavor = c; body = b1 };
    verf = record { flavor = d; body = b2 };
  };
  rbody = record {
    stat = s;
    areply = record {
      verf = record { flavor = f; body = b3 };
      stat = a;
      mismatch_info_p = record { low = e; high = g };
      mismatch_info_v = record { low = h; high = i };
    };
    rreply = record { stat = r; mismatch_info = record { low = l; high = k }; auth_stat = u };
  };
}

abbrev pub unmarshal : Text → Option RpcMsg × Text
unmarshal (x ∷ t ∷ v ∷ p ∷ n ∷ q ∷ c ∷ d ∷ s ∷ f ∷ a ∷ e ∷ g ∷ h ∷ i ∷ r ∷ l ∷ k ∷ u ∷ rest) =
    (some (message_of x t v p n q c d s f a e g h i r l k u [] [] []), rest)
unmarshal bytes = (none, bytes)

abbrev bare : RpcMsg → Text → Text → Text → RpcMsg
bare m b1 b2 b3 =
    message_of m.xid m.msg_type m.cbody.rpc_version m.cbody.program m.cbody.version
      m.cbody.procedure m.cbody.cred.flavor m.cbody.verf.flavor m.rbody.stat
      m.rbody.areply.verf.flavor m.rbody.areply.stat m.rbody.areply.mismatch_info_p.low
      m.rbody.areply.mismatch_info_p.high m.rbody.areply.mismatch_info_v.low
      m.rbody.areply.mismatch_info_v.high m.rbody.rreply.stat m.rbody.rreply.mismatch_info.low
      m.rbody.rreply.mismatch_info.high m.rbody.rreply.auth_stat b1 b2 b3

read_fields :
    (m : RpcMsg) (rest : Text)
    → (m.cbody.cred.body ≡ []) × (m.cbody.verf.body ≡ []) × (m.rbody.areply.verf.body ≡ [])
    → unmarshal (fields m ++ rest) ≡ (some m, rest)
read_fields m rest (c, v, a) =
    ap (λ b. (some (bare m b [] []), rest)) (sym c)
    ∙ ap (λ b. (some (bare m m.cbody.cred.body b []), rest)) (sym v)
    ∙ ap (λ b. (some (bare m m.cbody.cred.body m.cbody.verf.body b), rest)) (sym a)

pub marshal-reads : ReadsBack marshal unmarshal
marshal-reads m bytes rest fits e =
    ap (λ b. unmarshal (b ++ rest)) (inner e)
    ∙ read_fields (Selected.message m) rest (fits.1, fits.2, fits.3)
  where
    inner : some (fields (Selected.message m)) ≡ some bytes → bytes ≡ fields (Selected.message m)
    inner h = cc

-- A call of program 100004, procedure 1 of the program 100003, and procedure 30 of it.
abbrev call_of : ℕ → ℕ → ℕ → CallBody
call_of program version procedure = record {
  rpc_version = 2;
  program = program;
  version = version;
  procedure = procedure;
  cred = zero_auth;
  verf = zero_auth;
}

select_method-Verdict_example :
    ((select_method proc_table_server (call_of 100003 3 1) none).0
      ≡ codes "NfsProc.Nfsproc3_getattr_3_svc")
    ↔ Verdict proc_table_server (call_of 100003 3 1) (codes "NfsProc.Nfsproc3_getattr_3_svc")
select_method-Verdict_example =
    select_method-Verdict proc_table_server (call_of 100003 3 1) none
      (codes "NfsProc.Nfsproc3_getattr_3_svc")

reply_body-Reported_example :
    (body : ReplyBody) × (reply_body proc_table_server
        (select_method proc_table_server (call_of 100004 3 1) none).1
        (select_method proc_table_server (call_of 100004 3 1) none).0
      ≡ some body)
    × Reported proc_table_server
        (call_of 100004 3 1)
        (check_reply_for_err (Selected.message (reply_message 7 body)))
reply_body-Reported_example =
    reply_body-Reported _ _ (call_of 100004 3 1) none 7 proc_table_server-HasMethods

-- The call of Getattr, procedure 1 of the table's first entry.
abbrev getattr : Text
getattr = codes "NfsProc.Nfsproc3_getattr_3_svc"

abbrev nfs : ProcEntry
nfs = record { program = nfs_program; version = nfs_v3; proc_list = nfs3_proc_list }

found-getattr : find_entry getattr proc_table_server none ≡ some (nfs, 1)
unfolding find_entry text_eq
found-getattr = refl

select_method-call_body_example :
    (select_method proc_table_server (call_body nfs 1) none).0 ≡ getattr
select_method-call_body_example =
    select_method-call_body proc_table_server getattr nfs 1 none proc_table_server-IsDistinct
      found-getattr (omega arith)

abbrev codec : ServerCodec
codec = new_server_codec proc_table_server

abbrev call : Text
call = fields (call_message 9 (call_body nfs 1)) ++ codes "file"

read_request_header-write_request_example :
    (write_request connection marshal proc_table_server 9 getattr (some (codes "file")) []
      ≡ ClientCodec.after_send connection marshal (returned (connection.write (encode call []) [])))
    × ((read_request_header unmarshal fixed_cap codec (encode call [] ++ codes "rest")).0
        ≡ request 9 getattr (codes "rest"))
    × ((read_request_header unmarshal fixed_cap codec
          (encode call [] ++ codes "rest")).1.record_reader
        ≡ codes "file")
read_request_header-write_request_example =
    read_request_header-write_request marshal unmarshal marshal-reads fixed_cap fixed_cap-grows
      connection [] codec 9 1 nfs getattr (fields (call_message 9 (call_body nfs 1))) (codes "file")
      (codes "rest") proc_table_server-IsDistinct found-getattr (omega arith) (omega arith)
      (omega arith) refl (omega arith)

abbrev answer : Text
answer = fields (reply_message 9 (accept 3))

found-answer : reply_body proc_table_server none Fault.proc_unavail ≡ some (accept 3)
unfolding reply_body text_eq
found-answer = refl

answer-Fits : Fits (Selected.message (reply_message 9 (accept 3)))
answer-Fits = (ground arith, refl, refl, refl)

read_response_header-write_response_example :
    (write_response connection marshal codec 9 Fault.proc_unavail (some []) []
      ≡ Response.after_send connection marshal codec
          (returned (connection.write (encode (answer ++ []) []) [])))
    × (read_response_header unmarshal fixed_cap (encode (answer ++ []) [] ++ codes "rest")
        ≡ response 9
            (check_reply_for_err (Selected.message (reply_message 9 (accept 3))))
            []
            (codes "rest"))
read_response_header-write_response_example =
    read_response_header-write_response marshal unmarshal marshal-reads fixed_cap fixed_cap-grows
      connection [] codec 9 (accept 3) Fault.proc_unavail answer [] (codes "rest") found-answer
      answer-Fits refl (omega arith)
