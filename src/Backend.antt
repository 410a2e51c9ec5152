-- ===== src/Backend.antt =====
-- nfs3/allunix.go: the backend of the server. Each method is a `Prog`, which the proofs below this
-- module follow step by step.
pub mod Base
pub mod Errors
pub mod Mount
pub mod Query
pub mod Lookup
pub mod NewObject
pub mod Remove
pub mod Setattr
pub mod Io
pub mod Rename
pub mod Link
pub mod ReadDir
pub mod Rules
pub mod Ends
