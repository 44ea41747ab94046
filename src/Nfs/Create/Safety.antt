-- ===== src/Nfs/Create/Safety.antt =====
-- The CREATE and MKDIR procedures: reading stays inside the buffer.
use nfstest.Xdr.Codec.{unpack}
use nfstest.Xdr.Safety.{Safe, safe_rules}
use nfstest.Nfs.Attributes.Safety.{Safe-nfs_fh3, Safe-post_op_attr, Safe-wcc_data}
use nfstest.Nfs.SetAttributes.Safety.{Safe-sattr3}
use nfstest.Nfs.Create.{
  Createverf3, createverf3_codec, Create3Args, create3_args_codec, Create3Resok,
  create3_resok_codec, Mkdir3Args, mkdir3_args_codec, Mkdir3Resok, mkdir3_resok_codec,
}

pub Safe-createverf3 : (old : Createverf3) → Safe (unpack old)
unfolding createverf3_codec
Safe-createverf3 old = search safe_rules

pub Safe-create3_args : (old : Create3Args) → Safe (unpack old)
unfolding create3_args_codec
Safe-create3_args old = search (safe_rules, Safe-nfs_fh3, Safe-sattr3, Safe-createverf3) depth 10

pub Safe-create3_resok : (old : Create3Resok) → Safe (unpack old)
unfolding create3_resok_codec
Safe-create3_resok old = search (safe_rules, Safe-post_op_attr, Safe-wcc_data, Safe-nfs_fh3) depth 7

pub Safe-mkdir3_args : (old : Mkdir3Args) → Safe (unpack old)
unfolding mkdir3_args_codec
Safe-mkdir3_args old = search (safe_rules, Safe-nfs_fh3, Safe-sattr3) depth 7

pub Safe-mkdir3_resok : (old : Mkdir3Resok) → Safe (unpack old)
unfolding mkdir3_resok_codec
Safe-mkdir3_resok old = search (safe_rules, Safe-post_op_attr, Safe-wcc_data, Safe-nfs_fh3) depth 7
