-- ===== src/Replies/Handles.antt =====
-- nfs3/allunix.go, nfs3/nfsprocdef.go: the eight bytes of a handle.
use gonfs.Common.{ℕ, ◌<◌, ◌^◌, ◌≡◌, ap, some, arith}
use gonfs.Backend.Base.{put_uint64, uint64}

-- The bytes of a 64-bit number, as a handle is sent, are read back as that number.
pub uint64-put_uint64 : (v : ℕ) → v < 2 ^ 64 → uint64 (put_uint64 v) ≡ some v
unfolding uint64 put_uint64
uint64-put_uint64 v h = ap some (omega arith)
