-- ===== src/Nfs.antt =====
-- The NFSv3 data types and their XDR codecs: nfs3_rpc_tests/include/nfs3/nfs3_types.hpp.
-- An enumeration with the underlying type uint32_t is the number that it holds.
pub mod Attributes
pub mod SetAttributes
pub mod Lookup
pub mod Transfer
pub mod Create
pub mod Names
pub mod MakeNode
pub mod Volume
pub mod FsInfo
pub mod Directory
pub mod Replies
pub mod Procedure
pub mod Reply
pub mod Chain
pub mod Runs
