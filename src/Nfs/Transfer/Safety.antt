-- ===== src/Nfs/Transfer/Safety.antt =====
-- The READ, WRITE and COMMIT procedures: reading stays inside the buffer.
use nfstest.Xdr.Codec.{unpack}
use nfstest.Xdr.Safety.{Safe, safe_rules}
use nfstest.Nfs.Attributes.Safety.{Safe-nfs_fh3, Safe-post_op_attr}
use nfstest.Nfs.Transfer.{
  Writeverf3, writeverf3_codec, Read3Args, read3_args_codec, Read3Resok, read3_resok_codec,
  Write3Args, write3_args_codec, Write3Resok, write3_resok_codec, Commit3Args, commit3_args_codec,
  Commit3Resok, commit3_resok_codec,
}

pub Safe-writeverf3 : (old : Writeverf3) → Safe (unpack old)
unfolding writeverf3_codec
Safe-writeverf3 old = search safe_rules

pub Safe-read3_args : (old : Read3Args) → Safe (unpack old)
unfolding read3_args_codec
Safe-read3_args old = search (safe_rules, Safe-nfs_fh3) depth 7

pub Safe-read3_resok : (old : Read3Resok) → Safe (unpack old)
unfolding read3_resok_codec
Safe-read3_resok old = search (safe_rules, Safe-post_op_attr) depth 8

pub Safe-write3_args : (old : Write3Args) → Safe (unpack old)
unfolding write3_args_codec
Safe-write3_args old = search (safe_rules, Safe-nfs_fh3) depth 9

pub Safe-write3_resok : (old : Write3Resok) → Safe (unpack old)
unfolding write3_resok_codec
Safe-write3_resok old = search (safe_rules, Safe-post_op_attr, Safe-writeverf3) depth 8

pub Safe-commit3_args : (old : Commit3Args) → Safe (unpack old)
unfolding commit3_args_codec
Safe-commit3_args old = search (safe_rules, Safe-nfs_fh3) depth 7

pub Safe-commit3_resok : (old : Commit3Resok) → Safe (unpack old)
unfolding commit3_resok_codec
Safe-commit3_resok old = search (safe_rules, Safe-post_op_attr, Safe-writeverf3) depth 6
