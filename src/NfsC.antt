-- ===== src/NfsC.antt =====
-- The structures of the protocol in the suite in C, and how they are packed and unpacked:
-- nfs3_rpc_tests_c/include/nfs3_c/nfs3_types.h and src/nfs3_xdr.c.
pub mod Attributes
pub mod Packed
pub mod Taken
pub mod Unpacked
pub mod Handles
pub mod Handled
pub mod Requests
pub mod Runs
