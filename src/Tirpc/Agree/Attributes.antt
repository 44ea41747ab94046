-- ===== src/Tirpc/Agree/Attributes.antt =====
-- Handles, verifiers and attributes: the same bytes as from XdrBuffer. The verifiers are eight
-- bytes here, and counted opaque data there.
use nfstest.Prelude.{◌≤◌, ◌≡◌, length, arith}
use nfstest.Xdr.Buffer.{insert}
use nfstest.Xdr.Codec.{pack}
use nfstest.Nfs.Attributes.{
  NfsFh3, nfs_fh3_codec, Nfstime3, nfstime3_codec, Specdata3, specdata3_codec, Fattr3, fattr3_codec,
  PostOpAttr, post_op_attr_codec, WccAttr, wcc_attr_codec, PreOpAttr, pre_op_attr_codec, WccData,
  wcc_data_codec,
}
use nfstest.Nfs.Attributes.RoundTrip.{
  Nfstime3Fits, Specdata3Fits, Fattr3Fits, PostOpAttrFits, WccAttrFits, PreOpAttrFits, WccDataFits,
}
use nfstest.Nfs.Transfer.{Writeverf3}
use nfstest.Nfs.Create.{Createverf3}
use nfstest.Tirpc.Stream.{encode, decode, done, ◌>>◌, XdrLib, XdrLaws}
use nfstest.Tirpc.Attributes.{
  xdr_specdata3, xdr_nfstime3, xdr_writeverf3, xdr_createverf3, xdr_nfs_fh3, xdr_fattr3,
  xdr_post_op_attr, xdr_wcc_attr, xdr_pre_op_attr, xdr_wcc_data,
}
use nfstest.Tirpc.Agree.{Agrees, Agrees-then, Agrees-last, Agrees-if, Agrees-skip}
use nfstest.Tirpc.Agree.Values.{
  Agrees-u_int, Agrees-u_hyper, Agrees-enum, Agrees-flag, Agrees-bytes, Agrees-opaque,
}

-- A handle within the limit of `xdr_nfs_fh3`.
abbrev pub IsHandle : NfsFh3 → Type 0
IsHandle v = length v.data_bytes ≤ 64

module _ ⦃lib : XdrLib⦄ (laws : XdrLaws lib) where
  pub Agrees-nfs_fh3 :
      (old v : NfsFh3)
      → IsHandle v
      → Agrees laws (pack v) (xdr_nfs_fh3 encode v) (xdr_nfs_fh3 decode old) v (done v)
  unfolding xdr_nfs_fh3 nfs_fh3_codec ◌>>◌
  Agrees-nfs_fh3 old v h = Agrees-last _ _ (Agrees-bytes laws v.data_bytes 64 h (omega arith))

  pub Agrees-nfstime3 :
      (old v : Nfstime3)
      → Nfstime3Fits v
      → Agrees laws (pack v) (xdr_nfstime3 encode v) (xdr_nfstime3 decode old) v (done v)
  unfolding xdr_nfstime3 nfstime3_codec
  Agrees-nfstime3 old v h =
      Agrees-then _ _ _ (Agrees-u_int laws old.seconds v.seconds h.seconds)
        (Agrees-last _ _ (Agrees-u_int laws old.nseconds v.nseconds h.nseconds))

  pub Agrees-specdata3 :
      (old v : Specdata3)
      → Specdata3Fits v
      → Agrees laws (pack v) (xdr_specdata3 encode v) (xdr_specdata3 decode old) v (done v)
  unfolding xdr_specdata3 specdata3_codec
  Agrees-specdata3 old v h =
      Agrees-then _ _ _ (Agrees-u_int laws old.specdata1 v.specdata1 h.specdata1)
        (Agrees-last _ _ (Agrees-u_int laws old.specdata2 v.specdata2 h.specdata2))

  pub Agrees-fattr3 :
      (old v : Fattr3)
      → Fattr3Fits v
      → Agrees laws (pack v) (xdr_fattr3 encode v) (xdr_fattr3 decode old) v (done v)
  unfolding xdr_fattr3 fattr3_codec
  Agrees-fattr3 old v h = Agrees-then _ _ _ (Agrees-enum laws old.type_ v.type_ h.type_) (
      Agrees-then _ _ _ (Agrees-u_int laws old.mode v.mode h.mode) (
        Agrees-then _ _ _ (Agrees-u_int laws old.nlink v.nlink h.nlink) (
          Agrees-then _ _ _ (Agrees-u_int laws old.uid v.uid h.uid) (
            Agrees-then _ _ _ (Agrees-u_int laws old.gid v.gid h.gid) (
              Agrees-then _ _ _ (Agrees-u_hyper laws old.size v.size h.size) (
                Agrees-then _ _ _ (Agrees-u_hyper laws old.used v.used h.used) (
                  Agrees-then _ _ _ (Agrees-specdata3 old.rdev v.rdev h.rdev) (
                    Agrees-then _ _ _ (Agrees-u_hyper laws old.fsid v.fsid h.fsid) (
                      Agrees-then _ _ _ (Agrees-u_hyper laws old.fileid v.fileid h.fileid) (
                        Agrees-then _ _ _ (Agrees-nfstime3 old.atime v.atime h.atime) (
                          Agrees-then _ _ _ (Agrees-nfstime3 old.mtime v.mtime h.mtime)
                            (Agrees-last _ _ (Agrees-nfstime3 old.ctime v.ctime h.ctime)))))))))))))

  pub Agrees-post_op_attr :
      (old v : PostOpAttr)
      → PostOpAttrFits old v
      → Agrees laws (pack v) (xdr_post_op_attr encode v) (xdr_post_op_attr decode old) v (done v)
  unfolding xdr_post_op_attr post_op_attr_codec
  Agrees-post_op_attr old v h = Agrees-then _ _ _ (Agrees-flag laws old.follow v.follow) (
      Agrees-if v.follow
        (λ e. Agrees-last _ _ (Agrees-fattr3 old.attributes v.attributes (rw e at h)))
        (λ e. let kept : v.attributes ≡ old.attributes = rw e at h in Agrees-skip (cc)))

  pub Agrees-wcc_attr :
      (old v : WccAttr)
      → WccAttrFits v
      → Agrees laws (pack v) (xdr_wcc_attr encode v) (xdr_wcc_attr decode old) v (done v)
  unfolding xdr_wcc_attr wcc_attr_codec
  Agrees-wcc_attr old v h = Agrees-then _ _ _ (Agrees-u_hyper laws old.size v.size h.size) (
      Agrees-then _ _ _ (Agrees-nfstime3 old.mtime v.mtime h.mtime)
        (Agrees-last _ _ (Agrees-nfstime3 old.ctime v.ctime h.ctime)))

  pub Agrees-pre_op_attr :
      (old v : PreOpAttr)
      → PreOpAttrFits old v
      → Agrees laws (pack v) (xdr_pre_op_attr encode v) (xdr_pre_op_attr decode old) v (done v)
  unfolding xdr_pre_op_attr pre_op_attr_codec
  Agrees-pre_op_attr old v h = Agrees-then _ _ _ (Agrees-flag laws old.check v.check) (
      Agrees-if v.check
        (λ e. Agrees-last _ _ (Agrees-wcc_attr old.attributes v.attributes (rw e at h)))
        (λ e. let kept : v.attributes ≡ old.attributes = rw e at h in Agrees-skip (cc)))

  pub Agrees-wcc_data :
      (old v : WccData)
      → WccDataFits old v
      → Agrees laws (pack v) (xdr_wcc_data encode v) (xdr_wcc_data decode old) v (done v)
  unfolding xdr_wcc_data wcc_data_codec
  Agrees-wcc_data old v h =
      Agrees-then _ _ _ (Agrees-pre_op_attr old.before v.before h.before)
        (Agrees-last _ _ (Agrees-post_op_attr old.after v.after h.after))

  pub Agrees-writeverf3 :
      (old v : Writeverf3)
      → length v.data_bytes ≡ 8
      → Agrees laws
          (insert v.data_bytes)
          (xdr_writeverf3 encode v)
          (xdr_writeverf3 decode old)
          v
          (done v)
  unfolding xdr_writeverf3
  Agrees-writeverf3 old v h = Agrees-last _ _ (Agrees-opaque laws old.data_bytes v.data_bytes h)

  pub Agrees-createverf3 :
      (old v : Createverf3)
      → length v.data_bytes ≡ 8
      → Agrees laws
          (insert v.data_bytes)
          (xdr_createverf3 encode v)
          (xdr_createverf3 decode old)
          v
          (done v)
  unfolding xdr_createverf3
  Agrees-createverf3 old v h = Agrees-last _ _ (Agrees-opaque laws old.data_bytes v.data_bytes h)
