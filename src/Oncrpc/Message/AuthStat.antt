-- ===== src/Oncrpc/Message/AuthStat.antt =====
-- oncrpc/rpctypes.go: the values of AuthStat.
use gonfs.Common.{ℕ}

abbrev pub auth_ok : ℕ
auth_ok = 0

abbrev pub auth_badcred : ℕ
auth_badcred = 1

abbrev pub auth_rejectedcred : ℕ
auth_rejectedcred = 2

abbrev pub auth_badverf : ℕ
auth_badverf = 3

abbrev pub auth_rejected_verf : ℕ
auth_rejected_verf = 4

abbrev pub auth_tooweak : ℕ
auth_tooweak = 5

abbrev pub auth_invalidresp : ℕ
auth_invalidresp = 6

abbrev pub auth_failed : ℕ
auth_failed = 7
