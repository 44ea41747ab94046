-- ===== src/Nfs/Create/RoundTrip.antt =====
-- The CREATE and MKDIR procedures: read back as written.
use nfstest.Prelude.{◌≡◌, ◌==◌, if◌then◌else◌, Cases, take, leb, length, arith}
use nfstest.Xdr.Word.{IsU32}
use nfstest.Xdr.Codec.{pack, unpack}
use nfstest.Xdr.Wire.{Wire, Wire-then, Wire-last, Wire-skip, Wire-if}
use nfstest.Xdr.Words.{Wire-u32}
use nfstest.Xdr.Opaque.{IsShort, Wire-bytes, Wire-string}
use nfstest.Xdr.Wire.{Wire-eq}
use nfstest.Prelude.{take-length, le→leb}
use nfstest.Nfs.Attributes.RoundTrip.{
  Wire-nfs_fh3, NfsFh3Fits, Wire-post_op_attr, PostOpAttrFits, Wire-wcc_data, WccDataFits,
}
use nfstest.Nfs.SetAttributes.RoundTrip.{Wire-sattr3, Sattr3Fits}
use nfstest.Nfs.Create.{
  exclusive, Createverf3, createverf3_codec, Create3Args, create3_args_codec, Create3Resok,
  create3_resok_codec, Mkdir3Args, mkdir3_args_codec, Mkdir3Resok, mkdir3_resok_codec,
}

abbrev pub Createverf3Fits : Createverf3 → Type 0
Createverf3Fits v = length v.data_bytes ≡ 8

pub Wire-createverf3 : (old v : Createverf3) → Createverf3Fits v → Wire (pack v) (unpack old) v
unfolding createverf3_codec
Wire-createverf3 old v h = Wire-eq (whole v h) (Wire-last _ (Wire-bytes v.data_bytes (omega arith)))
  where
    whole :
        (v : Createverf3)
        → length v.data_bytes ≡ 8
        → (if leb 8 (length v.data_bytes) then record { data_bytes = take 8 v.data_bytes } else old)
          ≡ v
    whole v h = rw (le→leb 8 (length v.data_bytes) (omega arith), ← h, take-length v.data_bytes)

pub record Create3ArgsFits (old v : Create3Args) : Type 0 where
  pub where_dir : NfsFh3Fits v.where_dir
  pub where_name : IsShort v.where_name
  pub how_mode : IsU32 v.how_mode
  pub how_attributes : Sattr3Fits old.how_attributes v.how_attributes
  pub how_verf :
      Cases (v.how_mode == exclusive) (Createverf3Fits v.how_verf) (old.how_verf ≡ v.how_verf)

pub Wire-create3_args : (old v : Create3Args) → Create3ArgsFits old v → Wire (pack v) (unpack old) v
unfolding create3_args_codec
Wire-create3_args old v h = Wire-then _ (Wire-nfs_fh3 old.where_dir v.where_dir h.where_dir) (
    Wire-then _ (Wire-string v.where_name h.where_name) (
      Wire-then _ (Wire-u32 v.how_mode h.how_mode) (
        Wire-then _ (Wire-sattr3 old.how_attributes v.how_attributes h.how_attributes) (
          Wire-last _ (
            Wire-if (v.how_mode == exclusive)
              (λ e. Wire-createverf3 old.how_verf v.how_verf (rw e at h.how_verf))
              (λ e. Wire-skip (rw e at h.how_verf)))))))

pub record Create3ResokFits (old v : Create3Resok) : Type 0 where
  pub obj_attributes : PostOpAttrFits old.obj_attributes v.obj_attributes
  pub dir_wcc : WccDataFits old.dir_wcc v.dir_wcc
  pub object : NfsFh3Fits v.object

pub Wire-create3_resok :
    (old v : Create3Resok) → Create3ResokFits old v → Wire (pack v) (unpack old) v
unfolding create3_resok_codec
Wire-create3_resok old v h =
    Wire-then _ (Wire-post_op_attr old.obj_attributes v.obj_attributes h.obj_attributes) (
      Wire-then _ (Wire-wcc_data old.dir_wcc v.dir_wcc h.dir_wcc)
        (Wire-last _ (Wire-nfs_fh3 old.object v.object h.object)))

pub record Mkdir3ArgsFits (old v : Mkdir3Args) : Type 0 where
  pub where_dir : NfsFh3Fits v.where_dir
  pub where_name : IsShort v.where_name
  pub attributes : Sattr3Fits old.attributes v.attributes

pub Wire-mkdir3_args : (old v : Mkdir3Args) → Mkdir3ArgsFits old v → Wire (pack v) (unpack old) v
unfolding mkdir3_args_codec
Wire-mkdir3_args old v h = Wire-then _ (Wire-nfs_fh3 old.where_dir v.where_dir h.where_dir) (
    Wire-then _ (Wire-string v.where_name h.where_name)
      (Wire-last _ (Wire-sattr3 old.attributes v.attributes h.attributes)))

pub record Mkdir3ResokFits (old v : Mkdir3Resok) : Type 0 where
  pub obj_attributes : PostOpAttrFits old.obj_attributes v.obj_attributes
  pub dir_wcc : WccDataFits old.dir_wcc v.dir_wcc
  pub object : NfsFh3Fits v.object

pub Wire-mkdir3_resok : (old v : Mkdir3Resok) → Mkdir3ResokFits old v → Wire (pack v) (unpack old) v
unfolding mkdir3_resok_codec
Wire-mkdir3_resok old v h =
    Wire-then _ (Wire-post_op_attr old.obj_attributes v.obj_attributes h.obj_attributes) (
      Wire-then _ (Wire-wcc_data old.dir_wcc v.dir_wcc h.dir_wcc)
        (Wire-last _ (Wire-nfs_fh3 old.object v.object h.object)))
