-- ===== src/Nfs/SetAttributes/Safety.antt =====
-- Setting attributes: sattr3 and the SETATTR procedure: reading stays inside the buffer.
use nfstest.Xdr.Codec.{unpack}
use nfstest.Xdr.Safety.{Safe, safe_rules}
use nfstest.Nfs.Attributes.Safety.{Safe-nfs_fh3, Safe-nfstime3, Safe-wcc_data}
use nfstest.Nfs.SetAttributes.{
  Sattr3, sattr3_codec, Setattr3Args, setattr3_args_codec, Setattr3Resok, setattr3_resok_codec,
}

pub Safe-sattr3 : (old : Sattr3) → Safe (unpack old)
unfolding sattr3_codec
Safe-sattr3 old = search (safe_rules, Safe-nfstime3) depth 14

pub Safe-setattr3_args : (old : Setattr3Args) → Safe (unpack old)
unfolding setattr3_args_codec
Safe-setattr3_args old = search (safe_rules, Safe-nfs_fh3, Safe-sattr3) depth 9

pub Safe-setattr3_resok : (old : Setattr3Resok) → Safe (unpack old)
unfolding setattr3_resok_codec
Safe-setattr3_resok old = search (safe_rules, Safe-wcc_data)
