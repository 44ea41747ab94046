-- ===== src/Tirpc/Agree/VolumeReplies.antt =====
-- The results on file systems: the bytes of their layout, which are read back.
use nfstest.Xdr.Word.{IsU32, IsU64}
use nfstest.Xdr.Codec.{pack, fresh}
use nfstest.Nfs.Attributes.{
  nfs_fh3_codec, nfs_fh3_fresh, post_op_attr_fresh, wcc_data_fresh, fattr3_fresh,
  post_op_attr_codec, wcc_data_codec, fattr3_codec,
}
use nfstest.Nfs.Attributes.RoundTrip.{PostOpAttrFits}
use nfstest.Tirpc.Stream.{encode, decode, done, XdrLib, XdrLaws}
use nfstest.Tirpc.Agree.{Agrees, Agrees-then, Agrees-last}
use nfstest.Tirpc.Agree.Values.{Agrees-u_int, Agrees-u_hyper, Agrees-int, Agrees-flag}
use nfstest.Tirpc.Agree.Attributes.{Agrees-post_op_attr}
use nfstest.Nfs.Transfer.{writeverf3_fresh}
use nfstest.Nfs.Volume.{
  Fsstat3Resok, fsstat3_resok_codec, fsstat3_resok_fresh, Pathconf3Resok, pathconf3_resok_codec,
  pathconf3_resok_fresh, Pathconf3ResokInfo, pathconf3_resok_info_codec, pathconf3_resok_info_fresh,
}
use nfstest.Tirpc.VolumeReplies.{
  xdr_fsstat3_resok, xdr_fsinfo3_resok, xdr_pathconf3_resok, xdr_pathconf3_info,
}
use nfstest.Nfs.FsInfo.{Fsinfo3Resok, fsinfo3_resok_codec, fsinfo3_resok_fresh}
use nfstest.Nfs.Volume.RoundTrip.{Pathconf3ResokInfoFits}

pub record SendableFsstat3Resok (v : Fsstat3Resok) : Type 0 where
  pub obj_attributes : PostOpAttrFits fresh v.obj_attributes
  pub tbytes : IsU64 v.tbytes
  pub fbytes : IsU64 v.fbytes
  pub abytes : IsU64 v.abytes
  pub tfiles : IsU64 v.tfiles
  pub ffiles : IsU64 v.ffiles
  pub afiles : IsU64 v.afiles
  pub invarsec : IsU32 v.invarsec

pub record SendableFsinfo3Resok (v : Fsinfo3Resok) : Type 0 where
  pub obj_attributes : PostOpAttrFits fresh v.obj_attributes
  pub rtmax : IsU32 v.rtmax
  pub rtpref : IsU32 v.rtpref
  pub rtmult : IsU32 v.rtmult
  pub wtmax : IsU32 v.wtmax
  pub wtpref : IsU32 v.wtpref
  pub wtmult : IsU32 v.wtmult
  pub dtpref : IsU32 v.dtpref
  pub maxfilesize : IsU64 v.maxfilesize
  pub time_delta_seconds : IsU32 v.time_delta_seconds
  pub time_delta_nseconds : IsU32 v.time_delta_nseconds
  pub properties : IsU32 v.properties

pub record SendablePathconf3Resok (v : Pathconf3Resok) : Type 0 where
  pub obj_attributes : PostOpAttrFits fresh v.obj_attributes
  pub info : Pathconf3ResokInfoFits v.info

module _ ⦃lib : XdrLib⦄ (laws : XdrLaws lib) where
  pub Agrees-fsstat3_resok :
      (v : Fsstat3Resok)
      → SendableFsstat3Resok v
      → Agrees laws
          (pack v)
          (xdr_fsstat3_resok encode v)
          (xdr_fsstat3_resok decode fresh)
          v
          (done v)
  unfolding xdr_fsstat3_resok fsstat3_resok_codec
  Agrees-fsstat3_resok v h =
      Agrees-then _ _ _ (Agrees-post_op_attr laws _ v.obj_attributes h.obj_attributes) (
        Agrees-then _ _ _ (Agrees-u_hyper laws _ v.tbytes h.tbytes) (
          Agrees-then _ _ _ (Agrees-u_hyper laws _ v.fbytes h.fbytes) (
            Agrees-then _ _ _ (Agrees-u_hyper laws _ v.abytes h.abytes) (
              Agrees-then _ _ _ (Agrees-u_hyper laws _ v.tfiles h.tfiles) (
                Agrees-then _ _ _ (Agrees-u_hyper laws _ v.ffiles h.ffiles) (
                  Agrees-then _ _ _ (Agrees-u_hyper laws _ v.afiles h.afiles)
                    (Agrees-last _ _ (Agrees-u_int laws _ v.invarsec h.invarsec))))))))

  pub Agrees-fsinfo3_resok :
      (v : Fsinfo3Resok)
      → SendableFsinfo3Resok v
      → Agrees laws
          (pack v)
          (xdr_fsinfo3_resok encode v)
          (xdr_fsinfo3_resok decode fresh)
          v
          (done v)
  unfolding xdr_fsinfo3_resok fsinfo3_resok_codec
  Agrees-fsinfo3_resok v h =
      Agrees-then _ _ _ (Agrees-post_op_attr laws _ v.obj_attributes h.obj_attributes) (
        Agrees-then _ _ _ (Agrees-u_int laws _ v.rtmax h.rtmax) (
          Agrees-then _ _ _ (Agrees-u_int laws _ v.rtpref h.rtpref) (
            Agrees-then _ _ _ (Agrees-u_int laws _ v.rtmult h.rtmult) (
              Agrees-then _ _ _ (Agrees-u_int laws _ v.wtmax h.wtmax) (
                Agrees-then _ _ _ (Agrees-u_int laws _ v.wtpref h.wtpref) (
                  Agrees-then _ _ _ (Agrees-u_int laws _ v.wtmult h.wtmult) (
                    Agrees-then _ _ _ (Agrees-u_int laws _ v.dtpref h.dtpref) (
                      Agrees-then _ _ _ (Agrees-u_hyper laws _ v.maxfilesize h.maxfilesize) (
                        Agrees-then _ _ _
                          (Agrees-u_int laws _ v.time_delta_seconds h.time_delta_seconds)
                          (Agrees-then _ _ _
                            (Agrees-u_int laws _ v.time_delta_nseconds h.time_delta_nseconds)
                            (Agrees-last _ _
                              (Agrees-u_int laws _ v.properties h.properties))))))))))))

  Agrees-pathconf3_info :
      (old v : Pathconf3ResokInfo)
      → Pathconf3ResokInfoFits v
      → Agrees laws
          (pack v)
          (xdr_pathconf3_info encode v)
          (xdr_pathconf3_info decode old)
          v
          (done v)
  unfolding xdr_pathconf3_info pathconf3_resok_info_codec
  Agrees-pathconf3_info old v h =
      Agrees-then _ _ _ (Agrees-int laws old.linkmax v.linkmax h.linkmax) (
        Agrees-then _ _ _ (Agrees-int laws old.name_max v.name_max h.name_max) (
          Agrees-then _ _ _ (Agrees-flag laws old.no_trunc v.no_trunc) (
            Agrees-then _ _ _ (Agrees-flag laws old.chown_restricted v.chown_restricted) (
              Agrees-then _ _ _ (Agrees-flag laws old.case_insensitive v.case_insensitive)
                (Agrees-last _ _ (Agrees-flag laws old.case_preserving v.case_preserving))))))

  pub Agrees-pathconf3_resok :
      (v : Pathconf3Resok)
      → SendablePathconf3Resok v
      → Agrees laws
          (pack v)
          (xdr_pathconf3_resok encode v)
          (xdr_pathconf3_resok decode fresh)
          v
          (done v)
  unfolding xdr_pathconf3_resok pathconf3_resok_codec
  Agrees-pathconf3_resok v h =
      Agrees-then _ _ _ (Agrees-post_op_attr laws _ v.obj_attributes h.obj_attributes)
        (Agrees-last _ _ (Agrees-pathconf3_info _ v.info h.info))
