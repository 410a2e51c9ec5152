-- ===== src/Oncrpc/Fault.antt =====
-- oncrpc/servercodec.go: the service methods that stand for an error of the header.
use gonfs.Common.{Text, codes}

abbrev pub rpc_mismatch : Text
rpc_mismatch = codes "NfsProc.RPCMismatch"

abbrev pub auth_error : Text
auth_error = codes "NfsProc.AuthError"

abbrev pub prog_unavail : Text
prog_unavail = codes "NfsProc.ProgUnavail"

abbrev pub prog_mismatch : Text
prog_mismatch = codes "NfsProc.ProgMismatch"

abbrev pub proc_unavail : Text
proc_unavail = codes "NfsProc.ProcUnavail"

abbrev pub garbage_args : Text
garbage_args = codes "NfsProc.GarbageArgs"

abbrev pub system_err : Text
system_err = codes "NfsProc.SystemErr"
