-- ===== src/Tests/Oncrpc.antt =====
-- The theorems on records, on a connection that accepts every write.
use gonfs.Common.{◌↔◌, ℕ, ◌≡◌, Text, codes, [], ◌∷◌, ◌++◌, ◌≤◌, none, length, arith}
use gonfs.Oncrpc.Record.{Writer, full, write_full_record, read_full_record}
use gonfs.Portmapper.{proc_table_client}
use gonfs.Oncrpc.ClientCodec.{write_request, procedure_unavailable}
use gonfs.Oncrpc.Unoffered.{IsUnoffered, write_request-IsUnoffered}
use gonfs.Oncrpc.Framing.{encode, read_full_record-encode}
use gonfs.Oncrpc.Writing.{returned, write_full_record-encode}

-- A buffer that keeps its capacity.
abbrev pub fixed_cap : ℕ → ℕ → ℕ → ℕ
fixed_cap cap len n = cap

pub fixed_cap-grows : (cap len n : ℕ) → cap ≤ fixed_cap cap len n
fixed_cap-grows cap len n = omega arith

-- The bytes written so far.
abbrev pub connection : Writer
connection = record { State = Text; write = λ b s. ((length b, none), s ++ b) }

read_full_record-encode_example :
    read_full_record fixed_cap (encode (codes "NFS") (codes "v" ∷ codes "3" ∷ []) ++ codes "rest")
    ≡ full (codes "NFSv3") (codes "rest")
read_full_record-encode_example =
    read_full_record-encode fixed_cap fixed_cap-grows (codes "NFS") (codes "v" ∷ codes "3" ∷ [])
      (codes "rest") (omega arith)

write_full_record-encode_example :
    write_full_record connection (codes "NFS") []
    ≡ returned (connection.write (encode (codes "NFS") []) [])
write_full_record-encode_example =
    write_full_record-encode connection (codes "NFS") [] (omega arith)

-- A client of rpcbind that is asked for a procedure of NFS.
write_request-IsUnoffered_example :
    (write_request connection (λ m. none) proc_table_client 4 (codes "NfsProc.Getattr") none []
      ≡ (procedure_unavailable (codes "NfsProc.Getattr"), []))
    ↔ IsUnoffered proc_table_client (codes "NfsProc.Getattr")
write_request-IsUnoffered_example =
    write_request-IsUnoffered connection (λ m. none) proc_table_client 4 (codes "NfsProc.Getattr")
      none []
