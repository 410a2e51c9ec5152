-- ===== src/Tests.antt =====
-- The theorems at concrete inputs, and runs of the procedures of nfs3/allunix.go on a small tree of
-- files.
mod Fixture
mod Safety
mod Replies
mod Paging
mod Listing
mod Usable
mod Silly
mod Oncrpc
mod Asked
pub mod Rpc
pub mod Main
pub mod Liveness
pub mod Contents
mod Reread
pub mod Honest
