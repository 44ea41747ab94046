-- ===== src/Nfs/Attributes/Safety.antt =====
-- File handles and attributes: reading stays inside the buffer.
use nfstest.Xdr.Codec.{unpack}
use nfstest.Xdr.Safety.{Safe, safe_rules}
use nfstest.Nfs.Attributes.{
  NfsFh3, nfs_fh3_codec, Nfstime3, nfstime3_codec, Specdata3, specdata3_codec, Fattr3, fattr3_codec,
  PostOpAttr, post_op_attr_codec, WccAttr, wcc_attr_codec, PreOpAttr, pre_op_attr_codec, WccData,
  wcc_data_codec,
}

pub Safe-nfs_fh3 : (old : NfsFh3) → Safe (unpack old)
unfolding nfs_fh3_codec
Safe-nfs_fh3 old = search safe_rules

pub Safe-nfstime3 : (old : Nfstime3) → Safe (unpack old)
unfolding nfstime3_codec
Safe-nfstime3 old = search safe_rules depth 6

pub Safe-specdata3 : (old : Specdata3) → Safe (unpack old)
unfolding specdata3_codec
Safe-specdata3 old = search safe_rules depth 6

pub Safe-fattr3 : (old : Fattr3) → Safe (unpack old)
unfolding fattr3_codec
Safe-fattr3 old = search (safe_rules, Safe-specdata3, Safe-nfstime3) depth 17

pub Safe-post_op_attr : (old : PostOpAttr) → Safe (unpack old)
unfolding post_op_attr_codec
Safe-post_op_attr old = search (safe_rules, Safe-fattr3)

pub Safe-wcc_attr : (old : WccAttr) → Safe (unpack old)
unfolding wcc_attr_codec
Safe-wcc_attr old = search (safe_rules, Safe-nfstime3) depth 7

pub Safe-pre_op_attr : (old : PreOpAttr) → Safe (unpack old)
unfolding pre_op_attr_codec
Safe-pre_op_attr old = search (safe_rules, Safe-wcc_attr)

pub Safe-wcc_data : (old : WccData) → Safe (unpack old)
unfolding wcc_data_codec
Safe-wcc_data old = search (safe_rules, Safe-pre_op_attr, Safe-post_op_attr) depth 6
