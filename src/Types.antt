-- ===== src/Types.antt =====
-- nfs3/nfstypdef.go: the types of the NFS version 3 and MOUNT version 3 protocols.
pub mod Status
pub mod Attr
pub mod Args
pub mod Reply
pub mod Programs
pub mod Flags
pub mod Operands
