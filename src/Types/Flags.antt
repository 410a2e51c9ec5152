-- ===== src/Types/Flags.antt =====
-- The bits of ACCESS and of FSINFO in nfs3/nfstypdef.go.
use gonfs.Common.{ℕ}

abbrev pub access3_read : ℕ
access3_read = 1

abbrev pub access3_lookup : ℕ
access3_lookup = 2

abbrev pub access3_modify : ℕ
access3_modify = 4

abbrev pub access3_extend : ℕ
access3_extend = 8

abbrev pub access3_delete : ℕ
access3_delete = 16

abbrev pub access3_execute : ℕ
access3_execute = 32

abbrev pub fsf3_link : ℕ
fsf3_link = 1

abbrev pub fsf3_symlink : ℕ
fsf3_symlink = 2

abbrev pub fsf3_homogeneous : ℕ
fsf3_homogeneous = 4

abbrev pub fsf3_cansettime : ℕ
fsf3_cansettime = 8
