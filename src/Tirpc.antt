-- ===== src/Tirpc.antt =====
-- The TI-RPC build: the `xdr_*` functions of nfs3_rpc_tests/src/nfs3_xdr.cpp over the XDR streams
-- of libtirpc, which are a parameter.
pub mod Stream
pub mod Idioms
pub mod Attributes
pub mod SetAttributes
pub mod Listing
pub mod Args
pub mod NameArgs
pub mod FileReplies
pub mod NameReplies
pub mod VolumeReplies
pub mod Procedure
pub mod Layout
pub mod Agree
pub mod Ensures
pub mod Limits
pub mod Memory
pub mod Runs
