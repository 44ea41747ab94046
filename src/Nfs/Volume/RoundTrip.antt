-- ===== src/Nfs/Volume/RoundTrip.antt =====
-- The FSSTAT and PATHCONF procedures: read back as written.
use nfstest.Xdr.Int.{IsI32}
use nfstest.Xdr.Word.{IsU32, IsU64}
use nfstest.Xdr.Codec.{pack, unpack}
use nfstest.Xdr.Wire.{Wire, Wire-then, Wire-last}
use nfstest.Xdr.Words.{Wire-u32, Wire-i32, Wire-u64, Wire-bool}
use nfstest.Nfs.Attributes.RoundTrip.{Wire-nfs_fh3, NfsFh3Fits, Wire-post_op_attr, PostOpAttrFits}
use nfstest.Nfs.Volume.{
  Fsstat3Args, fsstat3_args_codec, Fsstat3Resok, fsstat3_resok_codec, Pathconf3Args,
  pathconf3_args_codec, Pathconf3ResokInfo, pathconf3_resok_info_codec, Pathconf3Resok,
  pathconf3_resok_codec,
}

pub record Fsstat3ArgsFits (v : Fsstat3Args) : Type 0 where
  pub fsroot : NfsFh3Fits v.fsroot

pub Wire-fsstat3_args : (old v : Fsstat3Args) → Fsstat3ArgsFits v → Wire (pack v) (unpack old) v
unfolding fsstat3_args_codec
Wire-fsstat3_args old v h = Wire-last _ (Wire-nfs_fh3 old.fsroot v.fsroot h.fsroot)

pub record Fsstat3ResokFits (old v : Fsstat3Resok) : Type 0 where
  pub obj_attributes : PostOpAttrFits old.obj_attributes v.obj_attributes
  pub tbytes : IsU64 v.tbytes
  pub fbytes : IsU64 v.fbytes
  pub abytes : IsU64 v.abytes
  pub tfiles : IsU64 v.tfiles
  pub ffiles : IsU64 v.ffiles
  pub afiles : IsU64 v.afiles
  pub invarsec : IsU32 v.invarsec

pub Wire-fsstat3_resok :
    (old v : Fsstat3Resok) → Fsstat3ResokFits old v → Wire (pack v) (unpack old) v
unfolding fsstat3_resok_codec
Wire-fsstat3_resok old v h =
    Wire-then _ (Wire-post_op_attr old.obj_attributes v.obj_attributes h.obj_attributes) (
      Wire-then _ (Wire-u64 v.tbytes h.tbytes) (
        Wire-then _ (Wire-u64 v.fbytes h.fbytes) (
          Wire-then _ (Wire-u64 v.abytes h.abytes) (
            Wire-then _ (Wire-u64 v.tfiles h.tfiles) (
              Wire-then _ (Wire-u64 v.ffiles h.ffiles) (
                Wire-then _ (Wire-u64 v.afiles h.afiles)
                  (Wire-last _ (Wire-u32 v.invarsec h.invarsec))))))))

pub record Pathconf3ArgsFits (v : Pathconf3Args) : Type 0 where
  pub object : NfsFh3Fits v.object

pub Wire-pathconf3_args :
    (old v : Pathconf3Args) → Pathconf3ArgsFits v → Wire (pack v) (unpack old) v
unfolding pathconf3_args_codec
Wire-pathconf3_args old v h = Wire-last _ (Wire-nfs_fh3 old.object v.object h.object)

pub record Pathconf3ResokInfoFits (v : Pathconf3ResokInfo) : Type 0 where
  pub linkmax : IsI32 v.linkmax
  pub name_max : IsI32 v.name_max

pub Wire-pathconf3_resok_info :
    (old v : Pathconf3ResokInfo) → Pathconf3ResokInfoFits v → Wire (pack v) (unpack old) v
unfolding pathconf3_resok_info_codec
Wire-pathconf3_resok_info old v h = Wire-then _ (Wire-i32 v.linkmax h.linkmax) (
    Wire-then _ (Wire-i32 v.name_max h.name_max) (
      Wire-then _ (Wire-bool v.no_trunc) (
        Wire-then _ (Wire-bool v.chown_restricted) (
          Wire-then _ (Wire-bool v.case_insensitive) (Wire-last _ (Wire-bool v.case_preserving))))))

pub record Pathconf3ResokFits (old v : Pathconf3Resok) : Type 0 where
  pub obj_attributes : PostOpAttrFits old.obj_attributes v.obj_attributes
  pub info : Pathconf3ResokInfoFits v.info

pub Wire-pathconf3_resok :
    (old v : Pathconf3Resok) → Pathconf3ResokFits old v → Wire (pack v) (unpack old) v
unfolding pathconf3_resok_codec
Wire-pathconf3_resok old v h =
    Wire-then _ (Wire-post_op_attr old.obj_attributes v.obj_attributes h.obj_attributes)
      (Wire-last _ (Wire-pathconf3_resok_info old.info v.info h.info))
