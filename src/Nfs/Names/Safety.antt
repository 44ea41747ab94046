-- ===== src/Nfs/Names/Safety.antt =====
-- The REMOVE, RMDIR, RENAME and LINK procedures: reading stays inside the buffer.
use nfstest.Xdr.Codec.{unpack}
use nfstest.Xdr.Safety.{Safe, safe_rules}
use nfstest.Nfs.Attributes.Safety.{Safe-nfs_fh3, Safe-post_op_attr, Safe-wcc_data}
use nfstest.Nfs.Names.{
  Remove3Args, remove3_args_codec, Remove3Resok, remove3_resok_codec, Rmdir3Args, rmdir3_args_codec,
  Rmdir3Resok, rmdir3_resok_codec, Rename3Args, rename3_args_codec, Rename3Resok,
  rename3_resok_codec, Link3Args, link3_args_codec, Link3Resok, link3_resok_codec,
}

pub Safe-remove3_args : (old : Remove3Args) → Safe (unpack old)
unfolding remove3_args_codec
Safe-remove3_args old = search (safe_rules, Safe-nfs_fh3) depth 6

pub Safe-remove3_resok : (old : Remove3Resok) → Safe (unpack old)
unfolding remove3_resok_codec
Safe-remove3_resok old = search (safe_rules, Safe-wcc_data)

pub Safe-rmdir3_args : (old : Rmdir3Args) → Safe (unpack old)
unfolding rmdir3_args_codec
Safe-rmdir3_args old = search (safe_rules, Safe-nfs_fh3) depth 6

pub Safe-rmdir3_resok : (old : Rmdir3Resok) → Safe (unpack old)
unfolding rmdir3_resok_codec
Safe-rmdir3_resok old = search (safe_rules, Safe-wcc_data)

pub Safe-rename3_args : (old : Rename3Args) → Safe (unpack old)
unfolding rename3_args_codec
Safe-rename3_args old = search (safe_rules, Safe-nfs_fh3) depth 8

pub Safe-rename3_resok : (old : Rename3Resok) → Safe (unpack old)
unfolding rename3_resok_codec
Safe-rename3_resok old = search (safe_rules, Safe-wcc_data) depth 6

pub Safe-link3_args : (old : Link3Args) → Safe (unpack old)
unfolding link3_args_codec
Safe-link3_args old = search (safe_rules, Safe-nfs_fh3) depth 7

pub Safe-link3_resok : (old : Link3Resok) → Safe (unpack old)
unfolding link3_resok_codec
Safe-link3_resok old = search (safe_rules, Safe-post_op_attr, Safe-wcc_data) depth 6
