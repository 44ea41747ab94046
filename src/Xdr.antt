-- ===== src/Xdr.antt =====
-- The XDR buffer codec: nfs3_rpc_tests/include/nfs3/xdr_codec.hpp, src/xdr_codec.cpp and
-- include/nfs3/detail/xdr_primitive.hpp.
pub mod Int
pub mod Word
pub mod Buffer
pub mod Wire
pub mod Words
pub mod Opaque
pub mod Encoding
pub mod Runs
pub mod Codec
pub mod Optional
pub mod Safety
