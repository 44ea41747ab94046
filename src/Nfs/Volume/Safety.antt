-- ===== src/Nfs/Volume/Safety.antt =====
-- The FSSTAT and PATHCONF procedures: reading stays inside the buffer.
use nfstest.Xdr.Codec.{unpack}
use nfstest.Xdr.Safety.{Safe, safe_rules}
use nfstest.Nfs.Attributes.Safety.{Safe-nfs_fh3, Safe-post_op_attr}
use nfstest.Nfs.Volume.{
  Fsstat3Args, fsstat3_args_codec, Fsstat3Resok, fsstat3_resok_codec, Pathconf3Args,
  pathconf3_args_codec, Pathconf3ResokInfo, pathconf3_resok_info_codec, Pathconf3Resok,
  pathconf3_resok_codec,
}

pub Safe-fsstat3_args : (old : Fsstat3Args) → Safe (unpack old)
unfolding fsstat3_args_codec
Safe-fsstat3_args old = search (safe_rules, Safe-nfs_fh3)

pub Safe-fsstat3_resok : (old : Fsstat3Resok) → Safe (unpack old)
unfolding fsstat3_resok_codec
Safe-fsstat3_resok old = search (safe_rules, Safe-post_op_attr) depth 12

pub Safe-pathconf3_args : (old : Pathconf3Args) → Safe (unpack old)
unfolding pathconf3_args_codec
Safe-pathconf3_args old = search (safe_rules, Safe-nfs_fh3)

pub Safe-pathconf3_resok_info : (old : Pathconf3ResokInfo) → Safe (unpack old)
unfolding pathconf3_resok_info_codec
Safe-pathconf3_resok_info old = search safe_rules depth 10

pub Safe-pathconf3_resok : (old : Pathconf3Resok) → Safe (unpack old)
unfolding pathconf3_resok_codec
Safe-pathconf3_resok old = search (safe_rules, Safe-post_op_attr, Safe-pathconf3_resok_info) depth 6
