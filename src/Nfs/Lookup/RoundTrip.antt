-- ===== src/Nfs/Lookup/RoundTrip.antt =====
-- The GETATTR, LOOKUP, ACCESS and READLINK procedures: read back as written.
use nfstest.Xdr.Word.{IsU32}
use nfstest.Xdr.Codec.{pack, unpack}
use nfstest.Xdr.Wire.{Wire, Wire-then, Wire-last}
use nfstest.Xdr.Words.{Wire-u32}
use nfstest.Xdr.Opaque.{IsShort, Wire-string}
use nfstest.Nfs.Attributes.RoundTrip.{
  Wire-nfs_fh3, NfsFh3Fits, Wire-fattr3, Fattr3Fits, Wire-post_op_attr, PostOpAttrFits,
}
use nfstest.Nfs.Lookup.{
  Getattr3Args, getattr3_args_codec, Getattr3Resok, getattr3_resok_codec, Lookup3Args,
  lookup3_args_codec, Lookup3Resok, lookup3_resok_codec, Access3Args, access3_args_codec,
  Access3Resok, access3_resok_codec, Readlink3Args, readlink3_args_codec, Readlink3Resok,
  readlink3_resok_codec,
}

pub record Getattr3ArgsFits (v : Getattr3Args) : Type 0 where
  pub object : NfsFh3Fits v.object

pub Wire-getattr3_args : (old v : Getattr3Args) → Getattr3ArgsFits v → Wire (pack v) (unpack old) v
unfolding getattr3_args_codec
Wire-getattr3_args old v h = Wire-last _ (Wire-nfs_fh3 old.object v.object h.object)

pub record Getattr3ResokFits (v : Getattr3Resok) : Type 0 where
  pub obj_attributes : Fattr3Fits v.obj_attributes

pub Wire-getattr3_resok :
    (old v : Getattr3Resok) → Getattr3ResokFits v → Wire (pack v) (unpack old) v
unfolding getattr3_resok_codec
Wire-getattr3_resok old v h =
    Wire-last _ (Wire-fattr3 old.obj_attributes v.obj_attributes h.obj_attributes)

pub record Lookup3ArgsFits (v : Lookup3Args) : Type 0 where
  pub what_dir : NfsFh3Fits v.what_dir
  pub what_name : IsShort v.what_name

pub Wire-lookup3_args : (old v : Lookup3Args) → Lookup3ArgsFits v → Wire (pack v) (unpack old) v
unfolding lookup3_args_codec
Wire-lookup3_args old v h =
    Wire-then _ (Wire-nfs_fh3 old.what_dir v.what_dir h.what_dir)
      (Wire-last _ (Wire-string v.what_name h.what_name))

pub record Lookup3ResokFits (old v : Lookup3Resok) : Type 0 where
  pub object : NfsFh3Fits v.object
  pub obj_attributes : PostOpAttrFits old.obj_attributes v.obj_attributes
  pub dir_attributes : PostOpAttrFits old.dir_attributes v.dir_attributes

pub Wire-lookup3_resok :
    (old v : Lookup3Resok) → Lookup3ResokFits old v → Wire (pack v) (unpack old) v
unfolding lookup3_resok_codec
Wire-lookup3_resok old v h = Wire-then _ (Wire-nfs_fh3 old.object v.object h.object) (
    Wire-then _ (Wire-post_op_attr old.obj_attributes v.obj_attributes h.obj_attributes)
      (Wire-last _ (Wire-post_op_attr old.dir_attributes v.dir_attributes h.dir_attributes)))

pub record Access3ArgsFits (v : Access3Args) : Type 0 where
  pub object : NfsFh3Fits v.object
  pub access : IsU32 v.access

pub Wire-access3_args : (old v : Access3Args) → Access3ArgsFits v → Wire (pack v) (unpack old) v
unfolding access3_args_codec
Wire-access3_args old v h =
    Wire-then _ (Wire-nfs_fh3 old.object v.object h.object)
      (Wire-last _ (Wire-u32 v.access h.access))

pub record Access3ResokFits (old v : Access3Resok) : Type 0 where
  pub obj_attributes : PostOpAttrFits old.obj_attributes v.obj_attributes
  pub access : IsU32 v.access

pub Wire-access3_resok :
    (old v : Access3Resok) → Access3ResokFits old v → Wire (pack v) (unpack old) v
unfolding access3_resok_codec
Wire-access3_resok old v h =
    Wire-then _ (Wire-post_op_attr old.obj_attributes v.obj_attributes h.obj_attributes)
      (Wire-last _ (Wire-u32 v.access h.access))

pub record Readlink3ArgsFits (v : Readlink3Args) : Type 0 where
  pub symlink : NfsFh3Fits v.symlink

pub Wire-readlink3_args :
    (old v : Readlink3Args) → Readlink3ArgsFits v → Wire (pack v) (unpack old) v
unfolding readlink3_args_codec
Wire-readlink3_args old v h = Wire-last _ (Wire-nfs_fh3 old.symlink v.symlink h.symlink)

pub record Readlink3ResokFits (old v : Readlink3Resok) : Type 0 where
  pub symlink_attributes : PostOpAttrFits old.symlink_attributes v.symlink_attributes
  pub data_bytes : IsShort v.data_bytes

pub Wire-readlink3_resok :
    (old v : Readlink3Resok) → Readlink3ResokFits old v → Wire (pack v) (unpack old) v
unfolding readlink3_resok_codec
Wire-readlink3_resok old v h =
    Wire-then _ (Wire-post_op_attr old.symlink_attributes v.symlink_attributes h.symlink_attributes)
      (Wire-last _ (Wire-string v.data_bytes h.data_bytes))
