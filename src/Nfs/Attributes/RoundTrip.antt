-- ===== src/Nfs/Attributes/RoundTrip.antt =====
-- File handles and attributes: read back as written.
use nfstest.Prelude.{◌≡◌, Cases}
use nfstest.Xdr.Word.{IsU32, IsU64}
use nfstest.Xdr.Codec.{pack, unpack}
use nfstest.Xdr.Wire.{Wire, Wire-then, Wire-last, Wire-skip, Wire-if}
use nfstest.Xdr.Words.{Wire-u32, Wire-u64, Wire-bool}
use nfstest.Xdr.Opaque.{IsShort, Wire-bytes}
use nfstest.Nfs.Attributes.{
  NfsFh3, nfs_fh3_codec, Nfstime3, nfstime3_codec, Specdata3, specdata3_codec, Fattr3, fattr3_codec,
  PostOpAttr, post_op_attr_codec, WccAttr, wcc_attr_codec, PreOpAttr, pre_op_attr_codec, WccData,
  wcc_data_codec,
}

abbrev pub NfsFh3Fits : NfsFh3 → Type 0
NfsFh3Fits v = IsShort v.data_bytes

pub Wire-nfs_fh3 : (old v : NfsFh3) → NfsFh3Fits v → Wire (pack v) (unpack old) v
unfolding nfs_fh3_codec
Wire-nfs_fh3 old v h = Wire-last _ (Wire-bytes v.data_bytes h)

pub record Nfstime3Fits (v : Nfstime3) : Type 0 where
  pub seconds : IsU32 v.seconds
  pub nseconds : IsU32 v.nseconds

pub Wire-nfstime3 : (old v : Nfstime3) → Nfstime3Fits v → Wire (pack v) (unpack old) v
unfolding nfstime3_codec
Wire-nfstime3 old v h =
    Wire-then _ (Wire-u32 v.seconds h.seconds) (Wire-last _ (Wire-u32 v.nseconds h.nseconds))

pub record Specdata3Fits (v : Specdata3) : Type 0 where
  pub specdata1 : IsU32 v.specdata1
  pub specdata2 : IsU32 v.specdata2

pub Wire-specdata3 : (old v : Specdata3) → Specdata3Fits v → Wire (pack v) (unpack old) v
unfolding specdata3_codec
Wire-specdata3 old v h =
    Wire-then _ (Wire-u32 v.specdata1 h.specdata1) (Wire-last _ (Wire-u32 v.specdata2 h.specdata2))

pub record Fattr3Fits (v : Fattr3) : Type 0 where
  pub type_ : IsU32 v.type_
  pub mode : IsU32 v.mode
  pub nlink : IsU32 v.nlink
  pub uid : IsU32 v.uid
  pub gid : IsU32 v.gid
  pub size : IsU64 v.size
  pub used : IsU64 v.used
  pub rdev : Specdata3Fits v.rdev
  pub fsid : IsU64 v.fsid
  pub fileid : IsU64 v.fileid
  pub atime : Nfstime3Fits v.atime
  pub mtime : Nfstime3Fits v.mtime
  pub ctime : Nfstime3Fits v.ctime

pub Wire-fattr3 : (old v : Fattr3) → Fattr3Fits v → Wire (pack v) (unpack old) v
unfolding fattr3_codec
Wire-fattr3 old v h = Wire-then _ (Wire-u32 v.type_ h.type_) (
    Wire-then _ (Wire-u32 v.mode h.mode) (
      Wire-then _ (Wire-u32 v.nlink h.nlink) (
        Wire-then _ (Wire-u32 v.uid h.uid) (
          Wire-then _ (Wire-u32 v.gid h.gid) (
            Wire-then _ (Wire-u64 v.size h.size) (
              Wire-then _ (Wire-u64 v.used h.used) (
                Wire-then _ (Wire-specdata3 old.rdev v.rdev h.rdev) (
                  Wire-then _ (Wire-u64 v.fsid h.fsid) (
                    Wire-then _ (Wire-u64 v.fileid h.fileid) (
                      Wire-then _ (Wire-nfstime3 old.atime v.atime h.atime) (
                        Wire-then _ (Wire-nfstime3 old.mtime v.mtime h.mtime)
                          (Wire-last _ (Wire-nfstime3 old.ctime v.ctime h.ctime)))))))))))))

abbrev pub PostOpAttrFits : (old v : PostOpAttr) → Type 0
PostOpAttrFits old v = Cases v.follow (Fattr3Fits v.attributes) (v.attributes ≡ old.attributes)

pub Wire-post_op_attr : (old v : PostOpAttr) → PostOpAttrFits old v → Wire (pack v) (unpack old) v
unfolding post_op_attr_codec
Wire-post_op_attr old v h = Wire-then _ (Wire-bool v.follow) (
    Wire-if v.follow (λ e. Wire-last _ (Wire-fattr3 old.attributes v.attributes (rw e at h)))
      (λ e. let kept : v.attributes ≡ old.attributes = rw e at h in Wire-skip (cc)))

pub record WccAttrFits (v : WccAttr) : Type 0 where
  pub size : IsU64 v.size
  pub mtime : Nfstime3Fits v.mtime
  pub ctime : Nfstime3Fits v.ctime

pub Wire-wcc_attr : (old v : WccAttr) → WccAttrFits v → Wire (pack v) (unpack old) v
unfolding wcc_attr_codec
Wire-wcc_attr old v h = Wire-then _ (Wire-u64 v.size h.size) (
    Wire-then _ (Wire-nfstime3 old.mtime v.mtime h.mtime)
      (Wire-last _ (Wire-nfstime3 old.ctime v.ctime h.ctime)))

abbrev pub PreOpAttrFits : (old v : PreOpAttr) → Type 0
PreOpAttrFits old v = Cases v.check (WccAttrFits v.attributes) (v.attributes ≡ old.attributes)

pub Wire-pre_op_attr : (old v : PreOpAttr) → PreOpAttrFits old v → Wire (pack v) (unpack old) v
unfolding pre_op_attr_codec
Wire-pre_op_attr old v h = Wire-then _ (Wire-bool v.check) (
    Wire-if v.check (λ e. Wire-last _ (Wire-wcc_attr old.attributes v.attributes (rw e at h)))
      (λ e. let kept : v.attributes ≡ old.attributes = rw e at h in Wire-skip (cc)))

pub record WccDataFits (old v : WccData) : Type 0 where
  pub before : PreOpAttrFits old.before v.before
  pub after : PostOpAttrFits old.after v.after

pub Wire-wcc_data : (old v : WccData) → WccDataFits old v → Wire (pack v) (unpack old) v
unfolding wcc_data_codec
Wire-wcc_data old v h =
    Wire-then _ (Wire-pre_op_attr old.before v.before h.before)
      (Wire-last _ (Wire-post_op_attr old.after v.after h.after))
