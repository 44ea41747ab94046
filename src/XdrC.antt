-- ===== src/XdrC.antt =====
-- The buffer of the suite in C: nfs3_rpc_tests_c/src/xdr_codec.c.
pub mod Order
pub mod Growth
pub mod Codec
pub mod Capacity
pub mod Packing
pub mod Agree
pub mod Reading
pub mod Unpacking
pub mod Buffers
pub mod Runs
