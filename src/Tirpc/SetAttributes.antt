-- ===== src/Tirpc/SetAttributes.antt =====
-- Attributes to set: nfs3_rpc_tests/src/nfs3_xdr.cpp, lines 123-231.
use nfstest.Xdr.Codec.{fresh}
use nfstest.Nfs.Attributes.{nfstime3_fresh}
use nfstest.Nfs.SetAttributes.{Sattr3}
use nfstest.Tirpc.Stream.{Op, M, pure, ◌>>=◌, XdrLib}
use nfstest.Tirpc.Idioms.{xdr_optional}
use nfstest.Tirpc.Attributes.{xdr_nfstime3}

module _ ⦃lib : XdrLib⦄ where
  unfoldable pub xdr_sattr3 : Op → Sattr3 → M lib.Stream Sattr3
  xdr_sattr3 op o = do
    mode ← xdr_optional lib.xdr_u_int 0 op o.mode
    uid ← xdr_optional lib.xdr_u_int 0 op o.uid
    gid ← xdr_optional lib.xdr_u_int 0 op o.gid
    size ← xdr_optional lib.xdr_u_hyper 0 op o.size
    atime ← xdr_optional xdr_nfstime3 fresh op o.atime
    mtime ← xdr_optional xdr_nfstime3 fresh op o.mtime
    pure (record { mode = mode; uid = uid; gid = gid; size = size; atime = atime; mtime = mtime })
