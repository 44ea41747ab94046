-- ===== src/Tirpc/Agree/FileReplies.antt =====
-- The results of the procedures on one file: the bytes of their layout, which are read back.
use nfstest.Prelude.{◌≤◌, ◌≡◌, length, arith}
use nfstest.Xdr.Word.{IsU32, IsU64}
use nfstest.Xdr.Codec.{pack, fresh}
use nfstest.Nfs.Attributes.{
  nfs_fh3_codec, nfs_fh3_fresh, post_op_attr_fresh, wcc_data_fresh, fattr3_fresh,
  post_op_attr_codec, wcc_data_codec, fattr3_codec,
}
use nfstest.Nfs.Attributes.RoundTrip.{Fattr3Fits, PostOpAttrFits, WccDataFits}
use nfstest.Tirpc.Stream.{encode, decode, done, XdrLib, XdrLaws}
use nfstest.Tirpc.Agree.{Agrees, Agrees-then, Agrees-last}
use nfstest.Tirpc.Agree.Values.{
  IsText, Agrees-u_int, Agrees-u_hyper, Agrees-enum, Agrees-flag, Agrees-text, Agrees-data,
}
use nfstest.Tirpc.Agree.Attributes.{
  IsHandle, Agrees-nfs_fh3, Agrees-fattr3, Agrees-post_op_attr, Agrees-wcc_data, Agrees-writeverf3,
}
use nfstest.Tirpc.Layout.{write3_resok_layout, commit3_resok_layout}
use nfstest.Nfs.Transfer.{
  writeverf3_fresh, Read3Resok, read3_resok_codec, read3_resok_fresh, Write3Resok,
  write3_resok_codec, write3_resok_fresh, Commit3Resok, commit3_resok_codec, commit3_resok_fresh,
}
use nfstest.Nfs.Lookup.{
  Getattr3Resok, getattr3_resok_codec, getattr3_resok_fresh, Lookup3Resok, lookup3_resok_codec,
  lookup3_resok_fresh, Access3Resok, access3_resok_codec, access3_resok_fresh, Readlink3Resok,
  readlink3_resok_codec, readlink3_resok_fresh,
}
use nfstest.Tirpc.FileReplies.{
  xdr_getattr3_resok, xdr_setattr3_resok, xdr_lookup3_resok, xdr_access3_resok, xdr_readlink3_resok,
  xdr_read3_resok, xdr_write3_resok, xdr_commit3_resok,
}
use nfstest.Nfs.SetAttributes.{Setattr3Resok, setattr3_resok_codec, setattr3_resok_fresh}

pub record SendableGetattr3Resok (v : Getattr3Resok) : Type 0 where
  pub obj_attributes : Fattr3Fits v.obj_attributes

pub record SendableSetattr3Resok (v : Setattr3Resok) : Type 0 where
  pub obj_wcc : WccDataFits fresh v.obj_wcc

pub record SendableLookup3Resok (v : Lookup3Resok) : Type 0 where
  pub object : IsHandle v.object
  pub obj_attributes : PostOpAttrFits fresh v.obj_attributes
  pub dir_attributes : PostOpAttrFits fresh v.dir_attributes

pub record SendableAccess3Resok (v : Access3Resok) : Type 0 where
  pub obj_attributes : PostOpAttrFits fresh v.obj_attributes
  pub access : IsU32 v.access

pub record SendableReadlink3Resok (v : Readlink3Resok) : Type 0 where
  pub symlink_attributes : PostOpAttrFits fresh v.symlink_attributes
  pub data_bytes : IsText 4096 v.data_bytes

pub record SendableRead3Resok (v : Read3Resok) : Type 0 where
  pub file_attributes : PostOpAttrFits fresh v.file_attributes
  pub count : IsU64 v.count
  pub data_bytes : length v.data_bytes ≤ 65536

pub record SendableWrite3Resok (v : Write3Resok) : Type 0 where
  pub file_attributes : PostOpAttrFits fresh v.file_attributes
  pub count : IsU32 v.count
  pub committed : IsU32 v.committed
  pub verf : length v.verf.data_bytes ≡ 8

pub record SendableCommit3Resok (v : Commit3Resok) : Type 0 where
  pub file_wcc : PostOpAttrFits fresh v.file_wcc
  pub verf : length v.verf.data_bytes ≡ 8

module _ ⦃lib : XdrLib⦄ (laws : XdrLaws lib) where
  pub Agrees-getattr3_resok :
      (v : Getattr3Resok)
      → SendableGetattr3Resok v
      → Agrees laws
          (pack v)
          (xdr_getattr3_resok encode v)
          (xdr_getattr3_resok decode fresh)
          v
          (done v)
  unfolding xdr_getattr3_resok getattr3_resok_codec
  Agrees-getattr3_resok v h =
      Agrees-last _ _ (Agrees-fattr3 laws _ v.obj_attributes h.obj_attributes)

  pub Agrees-setattr3_resok :
      (v : Setattr3Resok)
      → SendableSetattr3Resok v
      → Agrees laws
          (pack v)
          (xdr_setattr3_resok encode v)
          (xdr_setattr3_resok decode fresh)
          v
          (done v)
  unfolding xdr_setattr3_resok setattr3_resok_codec
  Agrees-setattr3_resok v h = Agrees-last _ _ (Agrees-wcc_data laws _ v.obj_wcc h.obj_wcc)

  pub Agrees-lookup3_resok :
      (v : Lookup3Resok)
      → SendableLookup3Resok v
      → Agrees laws
          (pack v)
          (xdr_lookup3_resok encode v)
          (xdr_lookup3_resok decode fresh)
          v
          (done v)
  unfolding xdr_lookup3_resok lookup3_resok_codec
  Agrees-lookup3_resok v h = Agrees-then _ _ _ (Agrees-nfs_fh3 laws _ v.object h.object) (
      Agrees-then _ _ _ (Agrees-post_op_attr laws _ v.obj_attributes h.obj_attributes)
        (Agrees-last _ _ (Agrees-post_op_attr laws _ v.dir_attributes h.dir_attributes)))

  pub Agrees-access3_resok :
      (v : Access3Resok)
      → SendableAccess3Resok v
      → Agrees laws
          (pack v)
          (xdr_access3_resok encode v)
          (xdr_access3_resok decode fresh)
          v
          (done v)
  unfolding xdr_access3_resok access3_resok_codec
  Agrees-access3_resok v h =
      Agrees-then _ _ _ (Agrees-post_op_attr laws _ v.obj_attributes h.obj_attributes)
        (Agrees-last _ _ (Agrees-u_int laws _ v.access h.access))

  pub Agrees-readlink3_resok :
      (v : Readlink3Resok)
      → SendableReadlink3Resok v
      → Agrees laws
          (pack v)
          (xdr_readlink3_resok encode v)
          (xdr_readlink3_resok decode fresh)
          v
          (done v)
  unfolding xdr_readlink3_resok readlink3_resok_codec
  Agrees-readlink3_resok v h =
      Agrees-then _ _ _ (Agrees-post_op_attr laws _ v.symlink_attributes h.symlink_attributes) (
        Agrees-last _ _
          (Agrees-text laws v.data_bytes 4096 h.data_bytes.0 h.data_bytes.1 (omega arith) _))

  pub Agrees-read3_resok :
      (v : Read3Resok)
      → SendableRead3Resok v
      → Agrees laws (pack v) (xdr_read3_resok encode v) (xdr_read3_resok decode fresh) v (done v)
  unfolding xdr_read3_resok read3_resok_codec
  Agrees-read3_resok v h =
      Agrees-then _ _ _ (Agrees-post_op_attr laws _ v.file_attributes h.file_attributes) (
        Agrees-then _ _ _ (Agrees-u_hyper laws _ v.count h.count) (
          Agrees-then _ _ _ (Agrees-flag laws _ v.eof)
            (Agrees-last _ _ (Agrees-data laws v.data_bytes 65536 h.data_bytes (omega arith) _))))

  pub Agrees-write3_resok :
      (v : Write3Resok)
      → SendableWrite3Resok v
      → Agrees laws
          (write3_resok_layout v)
          (xdr_write3_resok encode v)
          (xdr_write3_resok decode fresh)
          v
          (done v)
  unfolding xdr_write3_resok
  Agrees-write3_resok v h =
      Agrees-then _ _ _ (Agrees-post_op_attr laws _ v.file_attributes h.file_attributes) (
        Agrees-then _ _ _ (Agrees-u_int laws _ v.count h.count) (
          Agrees-then _ _ _ (Agrees-enum laws _ v.committed h.committed)
            (Agrees-last _ _ (Agrees-writeverf3 laws _ v.verf h.verf))))

  pub Agrees-commit3_resok :
      (v : Commit3Resok)
      → SendableCommit3Resok v
      → Agrees laws
          (commit3_resok_layout v)
          (xdr_commit3_resok encode v)
          (xdr_commit3_resok decode fresh)
          v
          (done v)
  unfolding xdr_commit3_resok
  Agrees-commit3_resok v h =
      Agrees-then _ _ _ (Agrees-post_op_attr laws _ v.file_wcc h.file_wcc)
        (Agrees-last _ _ (Agrees-writeverf3 laws _ v.verf h.verf))
