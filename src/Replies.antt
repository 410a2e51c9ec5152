-- ===== src/Replies.antt =====
-- What the replies of nfs3/allunix.go say, and what is then in the handle map.
pub mod Errors
pub mod Handles
pub mod Named
pub mod Made
pub mod Gone
pub mod ReadOnly
pub mod Stale
pub mod Paging
pub mod Advance
pub mod Directory
pub mod Listing
pub mod TooSmall
pub mod Silly
pub mod Filed
pub mod Persisted
pub mod Reread
pub mod Usable
pub mod Resolve
pub mod PageSize
pub mod Access
pub mod Mounted
pub mod Contents
pub mod Written
pub mod Honest
