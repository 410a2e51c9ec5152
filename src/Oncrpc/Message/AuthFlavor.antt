-- ===== src/Oncrpc/Message/AuthFlavor.antt =====
-- oncrpc/rpctypes.go: the values of AuthFlavor.
use gonfs.Common.{ℕ}

abbrev pub auth_none : ℕ
auth_none = 0

abbrev pub auth_sys : ℕ
auth_sys = 1

abbrev pub auth_short : ℕ
auth_short = 2

abbrev pub auth_dh : ℕ
auth_dh = 3

abbrev pub auth_kerb : ℕ
auth_kerb = 4

abbrev pub auth_rsa : ℕ
auth_rsa = 5

abbrev pub rpcsec_gss : ℕ
rpcsec_gss = 6
