-- ===== src/Oncrpc/Wire.antt =====
-- oncrpc: a call and its response as records on a connection, with xdr.Marshal and xdr.Unmarshal of
-- an RPCMsg as parameters.
use gonfs.Common.{
  ℕ, ◌%◌, ◌^◌, ◌<◌, ◌≤◌, ◌≡◌, refl, ap, ◌∙◌, Text, List, [], ◌∷◌, ◌++◌, Option, none, some, length,
  All, arith,
}
use gonfs.Oncrpc.Message.{ProcEntry, CallBody, AcceptedReply, RejectedReply, RpcMsg, ReplyBody}
use gonfs.Oncrpc.Message.Selected
use gonfs.Oncrpc.Record.{Writer, max_record_size}
use gonfs.Oncrpc.Framing.{encode, read_full_record-encode}
use gonfs.Oncrpc.Writing.{returned, write_full_record-encode}
use gonfs.Oncrpc.Calls.{IsDistinct, select_method-call_body}
use gonfs.Oncrpc.ServerCodec
use gonfs.Oncrpc.ServerCodec.{ServerCodec, request, select_method, read_request_header}
use gonfs.Oncrpc.Response
use gonfs.Oncrpc.Response.{Responded, reply_body, reply_message, write_response}
use gonfs.Oncrpc.ClientCodec
use gonfs.Oncrpc.ClientCodec.{
  Requested, find_entry, call_body, call_message, write_request, response, read_response_header,
  check_reply_for_err,
}

-- The numbers of a message in the order of its fields.
abbrev call_fields : CallBody → List ℕ
call_fields c =
    c.rpc_version ∷ c.program ∷ c.version ∷ c.procedure ∷ c.cred.flavor ∷ c.verf.flavor ∷ []

abbrev accepted_fields : AcceptedReply → List ℕ
accepted_fields a =
    a.verf.flavor ∷ a.stat ∷ a.mismatch_info_p.low ∷ a.mismatch_info_p.high ∷ a.mismatch_info_v.low
    ∷ a.mismatch_info_v.high ∷ []

abbrev rejected_fields : RejectedReply → List ℕ
rejected_fields r = r.stat ∷ r.mismatch_info.low ∷ r.mismatch_info.high ∷ r.auth_stat ∷ []

abbrev pub fields : RpcMsg → List ℕ
fields m =
    m.xid ∷ m.msg_type ∷ call_fields m.cbody
    ++ m.rbody.stat ∷ accepted_fields m.rbody.areply
    ++ rejected_fields m.rbody.rreply

-- Every number fits 32 bits, and there are no credentials.
abbrev pub Fits : RpcMsg → Type 0
Fits m =
    All (λ v. v < 2 ^ 32) (fields m)
    × (m.cbody.cred.body ≡ [])
    × (m.cbody.verf.body ≡ [])
    × (m.rbody.areply.verf.body ≡ [])

-- What was sent of a message is read back, up to the end of its encoding.
abbrev pub ReadsBack : (RpcMsg → Option Text) → (Text → Option RpcMsg × Text) → Type 0
ReadsBack marshal unmarshal =
    (m : RpcMsg) (bytes rest : Text)
    → Fits (Selected.message m)
    → marshal m ≡ some bytes
    → unmarshal (bytes ++ rest) ≡ (some (Selected.message m), rest)

module _ (marshal : RpcMsg → Option Text) (unmarshal : Text → Option RpcMsg × Text)
    (reads : ReadsBack marshal unmarshal) (grow : ℕ → ℕ → ℕ → ℕ)
    (grows : (cap len n : ℕ) → cap ≤ grow cap len n) (w : Writer) (s : w.State) where
  -- A client writes the call of a service of its table as one record. A server with this table
  -- that reads the record takes the sequence number modulo 2 ^ 32, the same service, and the
  -- parameter's bytes as what the arguments are read from; what follows on the connection is left.
  -- The programs of the table are distinct, their numbers and versions and the procedure's index
  -- fit 32 bits, and the message has at most maxRecordSize bytes.
  pub read_request_header-write_request :
      (codec : ServerCodec) (seq n : ℕ) (e : ProcEntry) (service header param rest : Text)
      → IsDistinct codec.proc_table
      → find_entry service codec.proc_table none ≡ some (e, n)
      → n < 2 ^ 32
      → e.program < 2 ^ 32
      → e.version < 2 ^ 32
      → marshal (call_message seq (call_body e n)) ≡ some header
      → length (header ++ param) ≤ max_record_size
      → (write_request w marshal codec.proc_table seq service (some param) s
          ≡ ClientCodec.after_send w marshal (returned (w.write (encode (header ++ param) []) s)))
        × ((read_request_header unmarshal grow codec (encode (header ++ param) [] ++ rest)).0
            ≡ request (seq % 2 ^ 32) service rest)
        × ((read_request_header unmarshal grow codec
              (encode (header ++ param) [] ++ rest)).1.record_reader
            ≡ param)
  unfolding write_request read_request_header
  read_request_header-write_request codec seq n e service header param rest d found a b c m size = (
    rw (found, m)
        (ap (ClientCodec.after_send w marshal)
          (write_full_record-encode w (header ++ param) s (omega arith))),
    ap (λ r. r.0) heard
        ∙ ap (λ t. request (seq % 2 ^ 32) t rest)
            (select_method-call_body codec.proc_table service e n codec.current_prog_index d found
              a),
    ap (λ r. r.1.record_reader) heard,
  )
    where
      fits : Fits (call_message seq (call_body e n))
      fits = (ground arith, refl, refl, refl)

      heard :
          read_request_header unmarshal grow codec (encode (header ++ param) [] ++ rest)
          ≡ ServerCodec.take_call
              (record codec { record_reader = param })
              (call_message seq (call_body e n))
              rest
      heard =
          rw
            (
              read_full_record-encode grow grows (header ++ param) [] rest size,
              reads (call_message seq (call_body e n)) header param fits m,
            )
            refl

  -- The server writes the response for a service as one record. The client that reads it takes the
  -- sequence number modulo 2 ^ 32, the error that its check finds in the reply, and the result's
  -- bytes, and leaves what follows. The message's numbers fit 32 bits, and it has at most
  -- maxRecordSize bytes.
  pub read_response_header-write_response :
      (codec : ServerCodec) (seq : ℕ) (body : ReplyBody) (service header result rest : Text)
      → reply_body codec.proc_table codec.current_prog_index service ≡ some body
      → Fits (Selected.message (reply_message seq body))
      → marshal (reply_message seq body) ≡ some header
      → length (header ++ result) ≤ max_record_size
      → (write_response w marshal codec seq service (some result) s
          ≡ Response.after_send w marshal codec
              (returned (w.write (encode (header ++ result) []) s)))
        × (read_response_header unmarshal grow (encode (header ++ result) [] ++ rest)
            ≡ response
                (seq % 2 ^ 32)
                (check_reply_for_err (Selected.message (reply_message seq body)))
                result
                rest)
  unfolding write_response read_response_header
  read_response_header-write_response codec seq body service header result rest found fits m size =
      (
        rw (found, m)
            (ap (Response.after_send w marshal codec)
              (write_full_record-encode w (header ++ result) s (omega arith))),
        rw
            (
              read_full_record-encode grow grows (header ++ result) [] rest size,
              reads (reply_message seq body) header result fits m,
            )
            refl,
      )
