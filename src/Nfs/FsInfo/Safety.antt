-- ===== src/Nfs/FsInfo/Safety.antt =====
-- The FSINFO procedure: reading stays inside the buffer.
use nfstest.Xdr.Codec.{unpack}
use nfstest.Xdr.Safety.{Safe, safe_rules}
use nfstest.Nfs.Attributes.Safety.{Safe-nfs_fh3, Safe-post_op_attr}
use nfstest.Nfs.FsInfo.{
  Fsinfo3Args, fsinfo3_args_codec, Fsinfo3ResokProperty, fsinfo3_resok_property_codec, Fsinfo3Resok,
  fsinfo3_resok_codec,
}

pub Safe-fsinfo3_args : (old : Fsinfo3Args) → Safe (unpack old)
unfolding fsinfo3_args_codec
Safe-fsinfo3_args old = search (safe_rules, Safe-nfs_fh3)

pub Safe-fsinfo3_resok_property : (old : Fsinfo3ResokProperty) → Safe (unpack old)
unfolding fsinfo3_resok_property_codec
Safe-fsinfo3_resok_property old = search safe_rules depth 10

pub Safe-fsinfo3_resok : (old : Fsinfo3Resok) → Safe (unpack old)
unfolding fsinfo3_resok_codec
Safe-fsinfo3_resok old = search (safe_rules, Safe-post_op_attr) depth 16
