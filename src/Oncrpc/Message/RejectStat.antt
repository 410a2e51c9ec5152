-- ===== src/Oncrpc/Message/RejectStat.antt =====
-- oncrpc/rpctypes.go: the values of RejectStat.
use gonfs.Common.{ℕ}

abbrev pub rpc_mismatch : ℕ
rpc_mismatch = 0

abbrev pub auth_error : ℕ
auth_error = 1
