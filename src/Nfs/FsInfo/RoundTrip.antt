-- ===== src/Nfs/FsInfo/RoundTrip.antt =====
-- The FSINFO procedure: read back as written.
use nfstest.Xdr.Word.{IsU32, IsU64}
use nfstest.Xdr.Codec.{pack, unpack}
use nfstest.Xdr.Wire.{Wire, Wire-then, Wire-last}
use nfstest.Xdr.Words.{Wire-u32, Wire-u64}
use nfstest.Nfs.Attributes.RoundTrip.{Wire-nfs_fh3, NfsFh3Fits, Wire-post_op_attr, PostOpAttrFits}
use nfstest.Nfs.FsInfo.{Fsinfo3Args, fsinfo3_args_codec, Fsinfo3Resok, fsinfo3_resok_codec}

pub record Fsinfo3ArgsFits (v : Fsinfo3Args) : Type 0 where
  pub fsroot : NfsFh3Fits v.fsroot

pub Wire-fsinfo3_args : (old v : Fsinfo3Args) → Fsinfo3ArgsFits v → Wire (pack v) (unpack old) v
unfolding fsinfo3_args_codec
Wire-fsinfo3_args old v h = Wire-last _ (Wire-nfs_fh3 old.fsroot v.fsroot h.fsroot)

pub record Fsinfo3ResokFits (old v : Fsinfo3Resok) : Type 0 where
  pub obj_attributes : PostOpAttrFits old.obj_attributes v.obj_attributes
  pub rtmax : IsU32 v.rtmax
  pub rtpref : IsU32 v.rtpref
  pub rtmult : IsU32 v.rtmult
  pub wtmax : IsU32 v.wtmax
  pub wtpref : IsU32 v.wtpref
  pub wtmult : IsU32 v.wtmult
  pub dtpref : IsU32 v.dtpref
  pub maxfilesize : IsU64 v.maxfilesize
  pub time_delta_seconds : IsU32 v.time_delta_seconds
  pub time_delta_nseconds : IsU32 v.time_delta_nseconds
  pub properties : IsU32 v.properties

pub Wire-fsinfo3_resok :
    (old v : Fsinfo3Resok) → Fsinfo3ResokFits old v → Wire (pack v) (unpack old) v
unfolding fsinfo3_resok_codec
Wire-fsinfo3_resok old v h =
    Wire-then _ (Wire-post_op_attr old.obj_attributes v.obj_attributes h.obj_attributes) (
      Wire-then _ (Wire-u32 v.rtmax h.rtmax) (
        Wire-then _ (Wire-u32 v.rtpref h.rtpref) (
          Wire-then _ (Wire-u32 v.rtmult h.rtmult) (
            Wire-then _ (Wire-u32 v.wtmax h.wtmax) (
              Wire-then _ (Wire-u32 v.wtpref h.wtpref) (
                Wire-then _ (Wire-u32 v.wtmult h.wtmult) (
                  Wire-then _ (Wire-u32 v.dtpref h.dtpref) (
                    Wire-then _ (Wire-u64 v.maxfilesize h.maxfilesize) (
                      Wire-then _ (Wire-u32 v.time_delta_seconds h.time_delta_seconds) (
                        Wire-then _ (Wire-u32 v.time_delta_nseconds h.time_delta_nseconds)
                          (Wire-last _ (Wire-u32 v.properties h.properties))))))))))))
