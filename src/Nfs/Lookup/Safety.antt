-- ===== src/Nfs/Lookup/Safety.antt =====
-- The GETATTR, LOOKUP, ACCESS and READLINK procedures: reading stays inside the buffer.
use nfstest.Xdr.Codec.{unpack}
use nfstest.Xdr.Safety.{Safe, safe_rules}
use nfstest.Nfs.Attributes.Safety.{Safe-nfs_fh3, Safe-fattr3, Safe-post_op_attr}
use nfstest.Nfs.Lookup.{
  Getattr3Args, getattr3_args_codec, Getattr3Resok, getattr3_resok_codec, Lookup3Args,
  lookup3_args_codec, Lookup3Resok, lookup3_resok_codec, Access3Args, access3_args_codec,
  Access3Resok, access3_resok_codec, Readlink3Args, readlink3_args_codec, Readlink3Resok,
  readlink3_resok_codec,
}

pub Safe-getattr3_args : (old : Getattr3Args) → Safe (unpack old)
unfolding getattr3_args_codec
Safe-getattr3_args old = search (safe_rules, Safe-nfs_fh3)

pub Safe-getattr3_resok : (old : Getattr3Resok) → Safe (unpack old)
unfolding getattr3_resok_codec
Safe-getattr3_resok old = search (safe_rules, Safe-fattr3)

pub Safe-lookup3_args : (old : Lookup3Args) → Safe (unpack old)
unfolding lookup3_args_codec
Safe-lookup3_args old = search (safe_rules, Safe-nfs_fh3) depth 6

pub Safe-lookup3_resok : (old : Lookup3Resok) → Safe (unpack old)
unfolding lookup3_resok_codec
Safe-lookup3_resok old = search (safe_rules, Safe-nfs_fh3, Safe-post_op_attr) depth 7

pub Safe-access3_args : (old : Access3Args) → Safe (unpack old)
unfolding access3_args_codec
Safe-access3_args old = search (safe_rules, Safe-nfs_fh3) depth 6

pub Safe-access3_resok : (old : Access3Resok) → Safe (unpack old)
unfolding access3_resok_codec
Safe-access3_resok old = search (safe_rules, Safe-post_op_attr) depth 6

pub Safe-readlink3_args : (old : Readlink3Args) → Safe (unpack old)
unfolding readlink3_args_codec
Safe-readlink3_args old = search (safe_rules, Safe-nfs_fh3)

pub Safe-readlink3_resok : (old : Readlink3Resok) → Safe (unpack old)
unfolding readlink3_resok_codec
Safe-readlink3_resok old = search (safe_rules, Safe-post_op_attr) depth 6
