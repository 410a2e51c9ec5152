-- ===== src/Oncrpc/Message/MsgType.antt =====
-- oncrpc/rpctypes.go: the values of MsgType.
use gonfs.Common.{ℕ}

abbrev pub call : ℕ
call = 0

abbrev pub reply : ℕ
reply = 1
