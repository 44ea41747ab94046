-- ===== src/Nfs/MakeNode/Safety.antt =====
-- The SYMLINK and MKNOD procedures: reading stays inside the buffer.
use nfstest.Xdr.Codec.{unpack}
use nfstest.Xdr.Safety.{Safe, safe_rules}
use nfstest.Nfs.Attributes.Safety.{Safe-nfs_fh3, Safe-post_op_attr, Safe-wcc_data}
use nfstest.Nfs.SetAttributes.Safety.{Safe-sattr3}
use nfstest.Nfs.MakeNode.{
  Symlink3Args, symlink3_args_codec, Symlink3Resok, symlink3_resok_codec, Mknod3Args,
  mknod3_args_codec, Mknod3Resok, mknod3_resok_codec,
}

pub Safe-symlink3_args : (old : Symlink3Args) → Safe (unpack old)
unfolding symlink3_args_codec
Safe-symlink3_args old = search (safe_rules, Safe-nfs_fh3, Safe-sattr3) depth 8

pub Safe-symlink3_resok : (old : Symlink3Resok) → Safe (unpack old)
unfolding symlink3_resok_codec
Safe-symlink3_resok old =
    search (safe_rules, Safe-post_op_attr, Safe-wcc_data, Safe-nfs_fh3) depth 7

pub Safe-mknod3_args : (old : Mknod3Args) → Safe (unpack old)
unfolding mknod3_args_codec
Safe-mknod3_args old = search (safe_rules, Safe-nfs_fh3, Safe-sattr3) depth 8

pub Safe-mknod3_resok : (old : Mknod3Resok) → Safe (unpack old)
unfolding mknod3_resok_codec
Safe-mknod3_resok old = search (safe_rules, Safe-post_op_attr, Safe-wcc_data, Safe-nfs_fh3) depth 7
