-- ===== src/Liveness.antt =====
-- Panics in the requests of nfs3/nfsprocdef.go.
pub mod Calm
pub mod Methods
pub mod Open
pub mod Serve
pub mod Interleave
