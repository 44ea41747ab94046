-- ===== src/Nfs/MakeNode/RoundTrip.antt =====
-- The SYMLINK and MKNOD procedures: read back as written.
use nfstest.Xdr.Word.{IsU32}
use nfstest.Xdr.Codec.{pack, unpack}
use nfstest.Xdr.Wire.{Wire, Wire-then, Wire-last}
use nfstest.Xdr.Words.{Wire-u32}
use nfstest.Xdr.Opaque.{IsShort, Wire-string}
use nfstest.Nfs.Attributes.RoundTrip.{
  Wire-nfs_fh3, NfsFh3Fits, Wire-post_op_attr, PostOpAttrFits, Wire-wcc_data, WccDataFits,
}
use nfstest.Nfs.SetAttributes.RoundTrip.{Wire-sattr3, Sattr3Fits}
use nfstest.Nfs.MakeNode.{
  Symlink3Args, symlink3_args_codec, Symlink3Resok, symlink3_resok_codec, Mknod3Args,
  mknod3_args_codec, Mknod3Resok, mknod3_resok_codec,
}

pub record Symlink3ArgsFits (old v : Symlink3Args) : Type 0 where
  pub where_dir : NfsFh3Fits v.where_dir
  pub where_name : IsShort v.where_name
  pub symlink_attributes : Sattr3Fits old.symlink_attributes v.symlink_attributes
  pub symlink_data : IsShort v.symlink_data

pub Wire-symlink3_args :
    (old v : Symlink3Args) → Symlink3ArgsFits old v → Wire (pack v) (unpack old) v
unfolding symlink3_args_codec
Wire-symlink3_args old v h = Wire-then _ (Wire-nfs_fh3 old.where_dir v.where_dir h.where_dir) (
    Wire-then _ (Wire-string v.where_name h.where_name) (
      Wire-then _ (Wire-sattr3 old.symlink_attributes v.symlink_attributes h.symlink_attributes)
        (Wire-last _ (Wire-string v.symlink_data h.symlink_data))))

pub record Symlink3ResokFits (old v : Symlink3Resok) : Type 0 where
  pub obj_attributes : PostOpAttrFits old.obj_attributes v.obj_attributes
  pub dir_wcc : WccDataFits old.dir_wcc v.dir_wcc
  pub object : NfsFh3Fits v.object

pub Wire-symlink3_resok :
    (old v : Symlink3Resok) → Symlink3ResokFits old v → Wire (pack v) (unpack old) v
unfolding symlink3_resok_codec
Wire-symlink3_resok old v h =
    Wire-then _ (Wire-post_op_attr old.obj_attributes v.obj_attributes h.obj_attributes) (
      Wire-then _ (Wire-wcc_data old.dir_wcc v.dir_wcc h.dir_wcc)
        (Wire-last _ (Wire-nfs_fh3 old.object v.object h.object)))

pub record Mknod3ArgsFits (old v : Mknod3Args) : Type 0 where
  pub where_dir : NfsFh3Fits v.where_dir
  pub where_name : IsShort v.where_name
  pub what_type : IsU32 v.what_type
  pub what_attributes : Sattr3Fits old.what_attributes v.what_attributes

pub Wire-mknod3_args : (old v : Mknod3Args) → Mknod3ArgsFits old v → Wire (pack v) (unpack old) v
unfolding mknod3_args_codec
Wire-mknod3_args old v h = Wire-then _ (Wire-nfs_fh3 old.where_dir v.where_dir h.where_dir) (
    Wire-then _ (Wire-string v.where_name h.where_name) (
      Wire-then _ (Wire-u32 v.what_type h.what_type)
        (Wire-last _ (Wire-sattr3 old.what_attributes v.what_attributes h.what_attributes))))

pub record Mknod3ResokFits (old v : Mknod3Resok) : Type 0 where
  pub obj_attributes : PostOpAttrFits old.obj_attributes v.obj_attributes
  pub dir_wcc : WccDataFits old.dir_wcc v.dir_wcc
  pub object : NfsFh3Fits v.object

pub Wire-mknod3_resok : (old v : Mknod3Resok) → Mknod3ResokFits old v → Wire (pack v) (unpack old) v
unfolding mknod3_resok_codec
Wire-mknod3_resok old v h =
    Wire-then _ (Wire-post_op_attr old.obj_attributes v.obj_attributes h.obj_attributes) (
      Wire-then _ (Wire-wcc_data old.dir_wcc v.dir_wcc h.dir_wcc)
        (Wire-last _ (Wire-nfs_fh3 old.object v.object h.object)))
