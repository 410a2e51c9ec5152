-- ===== src/Oncrpc/Message/AcceptStat.antt =====
-- oncrpc/rpctypes.go: the values of AcceptStat.
use gonfs.Common.{ℕ}

abbrev pub success : ℕ
success = 0

abbrev pub prog_unavail : ℕ
prog_unavail = 1

abbrev pub prog_mismatch : ℕ
prog_mismatch = 2

abbrev pub proc_unavail : ℕ
proc_unavail = 3

abbrev pub garbage_args : ℕ
garbage_args = 4

abbrev pub system_err : ℕ
system_err = 5
