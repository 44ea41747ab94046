-- ===== src/Rpc.antt =====
-- The RPC library: simple_rpc/include/nfstest and simple_rpc/src.
pub mod Protocol
pub mod Reply
pub mod Call
pub mod Parse
pub mod Transport
pub mod Client
pub mod Runs
pub mod Exported
