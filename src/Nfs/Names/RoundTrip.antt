-- ===== src/Nfs/Names/RoundTrip.antt =====
-- The REMOVE, RMDIR, RENAME and LINK procedures: read back as written.
use nfstest.Xdr.Codec.{pack, unpack}
use nfstest.Xdr.Wire.{Wire, Wire-then, Wire-last}
use nfstest.Xdr.Opaque.{IsShort, Wire-string}
use nfstest.Nfs.Attributes.RoundTrip.{
  Wire-nfs_fh3, NfsFh3Fits, Wire-post_op_attr, PostOpAttrFits, Wire-wcc_data, WccDataFits,
}
use nfstest.Nfs.Names.{
  Remove3Args, remove3_args_codec, Remove3Resok, remove3_resok_codec, Rmdir3Args, rmdir3_args_codec,
  Rmdir3Resok, rmdir3_resok_codec, Rename3Args, rename3_args_codec, Rename3Resok,
  rename3_resok_codec, Link3Args, link3_args_codec, Link3Resok, link3_resok_codec,
}

pub record Remove3ArgsFits (v : Remove3Args) : Type 0 where
  pub object_dir : NfsFh3Fits v.object_dir
  pub object_name : IsShort v.object_name

pub Wire-remove3_args : (old v : Remove3Args) → Remove3ArgsFits v → Wire (pack v) (unpack old) v
unfolding remove3_args_codec
Wire-remove3_args old v h =
    Wire-then _ (Wire-nfs_fh3 old.object_dir v.object_dir h.object_dir)
      (Wire-last _ (Wire-string v.object_name h.object_name))

pub record Remove3ResokFits (old v : Remove3Resok) : Type 0 where
  pub dir_wcc : WccDataFits old.dir_wcc v.dir_wcc

pub Wire-remove3_resok :
    (old v : Remove3Resok) → Remove3ResokFits old v → Wire (pack v) (unpack old) v
unfolding remove3_resok_codec
Wire-remove3_resok old v h = Wire-last _ (Wire-wcc_data old.dir_wcc v.dir_wcc h.dir_wcc)

pub record Rmdir3ArgsFits (v : Rmdir3Args) : Type 0 where
  pub object_dir : NfsFh3Fits v.object_dir
  pub object_name : IsShort v.object_name

pub Wire-rmdir3_args : (old v : Rmdir3Args) → Rmdir3ArgsFits v → Wire (pack v) (unpack old) v
unfolding rmdir3_args_codec
Wire-rmdir3_args old v h =
    Wire-then _ (Wire-nfs_fh3 old.object_dir v.object_dir h.object_dir)
      (Wire-last _ (Wire-string v.object_name h.object_name))

pub record Rmdir3ResokFits (old v : Rmdir3Resok) : Type 0 where
  pub dir_wcc : WccDataFits old.dir_wcc v.dir_wcc

pub Wire-rmdir3_resok : (old v : Rmdir3Resok) → Rmdir3ResokFits old v → Wire (pack v) (unpack old) v
unfolding rmdir3_resok_codec
Wire-rmdir3_resok old v h = Wire-last _ (Wire-wcc_data old.dir_wcc v.dir_wcc h.dir_wcc)

pub record Rename3ArgsFits (v : Rename3Args) : Type 0 where
  pub from_dir : NfsFh3Fits v.from_dir
  pub from_name : IsShort v.from_name
  pub to_dir : NfsFh3Fits v.to_dir
  pub to_name : IsShort v.to_name

pub Wire-rename3_args : (old v : Rename3Args) → Rename3ArgsFits v → Wire (pack v) (unpack old) v
unfolding rename3_args_codec
Wire-rename3_args old v h = Wire-then _ (Wire-nfs_fh3 old.from_dir v.from_dir h.from_dir) (
    Wire-then _ (Wire-string v.from_name h.from_name) (
      Wire-then _ (Wire-nfs_fh3 old.to_dir v.to_dir h.to_dir)
        (Wire-last _ (Wire-string v.to_name h.to_name))))

pub record Rename3ResokFits (old v : Rename3Resok) : Type 0 where
  pub fromdir_wcc : WccDataFits old.fromdir_wcc v.fromdir_wcc
  pub todir_wcc : WccDataFits old.todir_wcc v.todir_wcc

pub Wire-rename3_resok :
    (old v : Rename3Resok) → Rename3ResokFits old v → Wire (pack v) (unpack old) v
unfolding rename3_resok_codec
Wire-rename3_resok old v h =
    Wire-then _ (Wire-wcc_data old.fromdir_wcc v.fromdir_wcc h.fromdir_wcc)
      (Wire-last _ (Wire-wcc_data old.todir_wcc v.todir_wcc h.todir_wcc))

pub record Link3ArgsFits (v : Link3Args) : Type 0 where
  pub file : NfsFh3Fits v.file
  pub link_dir : NfsFh3Fits v.link_dir
  pub link_name : IsShort v.link_name

pub Wire-link3_args : (old v : Link3Args) → Link3ArgsFits v → Wire (pack v) (unpack old) v
unfolding link3_args_codec
Wire-link3_args old v h = Wire-then _ (Wire-nfs_fh3 old.file v.file h.file) (
    Wire-then _ (Wire-nfs_fh3 old.link_dir v.link_dir h.link_dir)
      (Wire-last _ (Wire-string v.link_name h.link_name)))

pub record Link3ResokFits (old v : Link3Resok) : Type 0 where
  pub file_attributes : PostOpAttrFits old.file_attributes v.file_attributes
  pub linkdir_wcc : WccDataFits old.linkdir_wcc v.linkdir_wcc

pub Wire-link3_resok : (old v : Link3Resok) → Link3ResokFits old v → Wire (pack v) (unpack old) v
unfolding link3_resok_codec
Wire-link3_resok old v h =
    Wire-then _ (Wire-post_op_attr old.file_attributes v.file_attributes h.file_attributes)
      (Wire-last _ (Wire-wcc_data old.linkdir_wcc v.linkdir_wcc h.linkdir_wcc))
