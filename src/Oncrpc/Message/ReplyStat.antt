-- ===== src/Oncrpc/Message/ReplyStat.antt =====
-- oncrpc/rpctypes.go: the values of ReplyStat.
use gonfs.Common.{ℕ}

abbrev pub msg_accepted : ℕ
msg_accepted = 0

abbrev pub msg_denied : ℕ
msg_denied = 1
