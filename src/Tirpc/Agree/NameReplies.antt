-- ===== src/Tirpc/Agree/NameReplies.antt =====
-- The results of the procedures on names: the bytes of their layout, which are read back.
use nfstest.Xdr.Codec.{pack, fresh}
use nfstest.Nfs.Attributes.{
  nfs_fh3_codec, nfs_fh3_fresh, post_op_attr_fresh, wcc_data_fresh, fattr3_fresh,
  post_op_attr_codec, wcc_data_codec, fattr3_codec,
}
use nfstest.Nfs.Attributes.RoundTrip.{PostOpAttrFits, WccDataFits}
use nfstest.Tirpc.Stream.{encode, decode, done, XdrLib, XdrLaws}
use nfstest.Tirpc.Agree.{Agrees, Agrees-then, Agrees-last}
use nfstest.Tirpc.Agree.Attributes.{IsHandle, Agrees-nfs_fh3, Agrees-post_op_attr, Agrees-wcc_data}
use nfstest.Nfs.Transfer.{writeverf3_fresh}
use nfstest.Nfs.Create.{
  Create3Resok, create3_resok_codec, create3_resok_fresh, Mkdir3Resok, mkdir3_resok_codec,
  mkdir3_resok_fresh,
}
use nfstest.Tirpc.NameReplies.{
  xdr_create3_resok, xdr_mkdir3_resok, xdr_symlink3_resok, xdr_mknod3_resok, xdr_remove3_resok,
  xdr_rmdir3_resok, xdr_rename3_resok, xdr_link3_resok,
}
use nfstest.Nfs.MakeNode.{
  Symlink3Resok, symlink3_resok_codec, symlink3_resok_fresh, Mknod3Resok, mknod3_resok_codec,
  mknod3_resok_fresh,
}
use nfstest.Nfs.Names.{
  Remove3Resok, remove3_resok_codec, remove3_resok_fresh, Rmdir3Resok, rmdir3_resok_codec,
  rmdir3_resok_fresh, Rename3Resok, rename3_resok_codec, rename3_resok_fresh, Link3Resok,
  link3_resok_codec, link3_resok_fresh,
}

pub record SendableCreate3Resok (v : Create3Resok) : Type 0 where
  pub obj_attributes : PostOpAttrFits fresh v.obj_attributes
  pub dir_wcc : WccDataFits fresh v.dir_wcc
  pub object : IsHandle v.object

pub record SendableMkdir3Resok (v : Mkdir3Resok) : Type 0 where
  pub obj_attributes : PostOpAttrFits fresh v.obj_attributes
  pub dir_wcc : WccDataFits fresh v.dir_wcc
  pub object : IsHandle v.object

pub record SendableSymlink3Resok (v : Symlink3Resok) : Type 0 where
  pub obj_attributes : PostOpAttrFits fresh v.obj_attributes
  pub dir_wcc : WccDataFits fresh v.dir_wcc
  pub object : IsHandle v.object

pub record SendableMknod3Resok (v : Mknod3Resok) : Type 0 where
  pub obj_attributes : PostOpAttrFits fresh v.obj_attributes
  pub dir_wcc : WccDataFits fresh v.dir_wcc
  pub object : IsHandle v.object

pub record SendableRemove3Resok (v : Remove3Resok) : Type 0 where
  pub dir_wcc : WccDataFits fresh v.dir_wcc

pub record SendableRmdir3Resok (v : Rmdir3Resok) : Type 0 where
  pub dir_wcc : WccDataFits fresh v.dir_wcc

pub record SendableRename3Resok (v : Rename3Resok) : Type 0 where
  pub fromdir_wcc : WccDataFits fresh v.fromdir_wcc
  pub todir_wcc : WccDataFits fresh v.todir_wcc

pub record SendableLink3Resok (v : Link3Resok) : Type 0 where
  pub file_attributes : PostOpAttrFits fresh v.file_attributes
  pub linkdir_wcc : WccDataFits fresh v.linkdir_wcc

module _ ⦃lib : XdrLib⦄ (laws : XdrLaws lib) where
  pub Agrees-create3_resok :
      (v : Create3Resok)
      → SendableCreate3Resok v
      → Agrees laws
          (pack v)
          (xdr_create3_resok encode v)
          (xdr_create3_resok decode fresh)
          v
          (done v)
  unfolding xdr_create3_resok create3_resok_codec
  Agrees-create3_resok v h =
      Agrees-then _ _ _ (Agrees-post_op_attr laws _ v.obj_attributes h.obj_attributes) (
        Agrees-then _ _ _ (Agrees-wcc_data laws _ v.dir_wcc h.dir_wcc)
          (Agrees-last _ _ (Agrees-nfs_fh3 laws _ v.object h.object)))

  pub Agrees-mkdir3_resok :
      (v : Mkdir3Resok)
      → SendableMkdir3Resok v
      → Agrees laws (pack v) (xdr_mkdir3_resok encode v) (xdr_mkdir3_resok decode fresh) v (done v)
  unfolding xdr_mkdir3_resok mkdir3_resok_codec
  Agrees-mkdir3_resok v h =
      Agrees-then _ _ _ (Agrees-post_op_attr laws _ v.obj_attributes h.obj_attributes) (
        Agrees-then _ _ _ (Agrees-wcc_data laws _ v.dir_wcc h.dir_wcc)
          (Agrees-last _ _ (Agrees-nfs_fh3 laws _ v.object h.object)))

  pub Agrees-symlink3_resok :
      (v : Symlink3Resok)
      → SendableSymlink3Resok v
      → Agrees laws
          (pack v)
          (xdr_symlink3_resok encode v)
          (xdr_symlink3_resok decode fresh)
          v
          (done v)
  unfolding xdr_symlink3_resok symlink3_resok_codec
  Agrees-symlink3_resok v h =
      Agrees-then _ _ _ (Agrees-post_op_attr laws _ v.obj_attributes h.obj_attributes) (
        Agrees-then _ _ _ (Agrees-wcc_data laws _ v.dir_wcc h.dir_wcc)
          (Agrees-last _ _ (Agrees-nfs_fh3 laws _ v.object h.object)))

  pub Agrees-mknod3_resok :
      (v : Mknod3Resok)
      → SendableMknod3Resok v
      → Agrees laws (pack v) (xdr_mknod3_resok encode v) (xdr_mknod3_resok decode fresh) v (done v)
  unfolding xdr_mknod3_resok mknod3_resok_codec
  Agrees-mknod3_resok v h =
      Agrees-then _ _ _ (Agrees-post_op_attr laws _ v.obj_attributes h.obj_attributes) (
        Agrees-then _ _ _ (Agrees-wcc_data laws _ v.dir_wcc h.dir_wcc)
          (Agrees-last _ _ (Agrees-nfs_fh3 laws _ v.object h.object)))

  pub Agrees-remove3_resok :
      (v : Remove3Resok)
      → SendableRemove3Resok v
      → Agrees laws
          (pack v)
          (xdr_remove3_resok encode v)
          (xdr_remove3_resok decode fresh)
          v
          (done v)
  unfolding xdr_remove3_resok remove3_resok_codec
  Agrees-remove3_resok v h = Agrees-last _ _ (Agrees-wcc_data laws _ v.dir_wcc h.dir_wcc)

  pub Agrees-rmdir3_resok :
      (v : Rmdir3Resok)
      → SendableRmdir3Resok v
      → Agrees laws (pack v) (xdr_rmdir3_resok encode v) (xdr_rmdir3_resok decode fresh) v (done v)
  unfolding xdr_rmdir3_resok rmdir3_resok_codec
  Agrees-rmdir3_resok v h = Agrees-last _ _ (Agrees-wcc_data laws _ v.dir_wcc h.dir_wcc)

  pub Agrees-rename3_resok :
      (v : Rename3Resok)
      → SendableRename3Resok v
      → Agrees laws
          (pack v)
          (xdr_rename3_resok encode v)
          (xdr_rename3_resok decode fresh)
          v
          (done v)
  unfolding xdr_rename3_resok rename3_resok_codec
  Agrees-rename3_resok v h =
      Agrees-then _ _ _ (Agrees-wcc_data laws _ v.fromdir_wcc h.fromdir_wcc)
        (Agrees-last _ _ (Agrees-wcc_data laws _ v.todir_wcc h.todir_wcc))

  pub Agrees-link3_resok :
      (v : Link3Resok)
      → SendableLink3Resok v
      → Agrees laws (pack v) (xdr_link3_resok encode v) (xdr_link3_resok decode fresh) v (done v)
  unfolding xdr_link3_resok link3_resok_codec
  Agrees-link3_resok v h =
      Agrees-then _ _ _ (Agrees-post_op_attr laws _ v.file_attributes h.file_attributes)
        (Agrees-last _ _ (Agrees-wcc_data laws _ v.linkdir_wcc h.linkdir_wcc))
