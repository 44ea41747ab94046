-- ===== src/Nfs/Transfer/RoundTrip.antt =====
-- The READ, WRITE and COMMIT procedures: read back as written.
use nfstest.Prelude.{◌≡◌, if◌then◌else◌, take, leb, length, arith}
use nfstest.Xdr.Word.{IsU32, IsU64}
use nfstest.Xdr.Codec.{pack, unpack}
use nfstest.Xdr.Wire.{Wire, Wire-then, Wire-last}
use nfstest.Xdr.Words.{Wire-u32, Wire-u64, Wire-bool}
use nfstest.Xdr.Opaque.{IsShort, Wire-bytes}
use nfstest.Xdr.Wire.{Wire-eq}
use nfstest.Prelude.{take-length, le→leb}
use nfstest.Nfs.Attributes.RoundTrip.{Wire-nfs_fh3, NfsFh3Fits, Wire-post_op_attr, PostOpAttrFits}
use nfstest.Nfs.Transfer.{
  Writeverf3, writeverf3_codec, Read3Args, read3_args_codec, Read3Resok, read3_resok_codec,
  Write3Args, write3_args_codec, Write3Resok, write3_resok_codec, Commit3Args, commit3_args_codec,
  Commit3Resok, commit3_resok_codec,
}

abbrev pub Writeverf3Fits : Writeverf3 → Type 0
Writeverf3Fits v = length v.data_bytes ≡ 8

pub Wire-writeverf3 : (old v : Writeverf3) → Writeverf3Fits v → Wire (pack v) (unpack old) v
unfolding writeverf3_codec
Wire-writeverf3 old v h = Wire-eq (whole v h) (Wire-last _ (Wire-bytes v.data_bytes (omega arith)))
  where
    whole :
        (v : Writeverf3)
        → length v.data_bytes ≡ 8
        → (if leb 8 (length v.data_bytes) then record { data_bytes = take 8 v.data_bytes } else old)
          ≡ v
    whole v h = rw (le→leb 8 (length v.data_bytes) (omega arith), ← h, take-length v.data_bytes)

pub record Read3ArgsFits (v : Read3Args) : Type 0 where
  pub file : NfsFh3Fits v.file
  pub offset : IsU64 v.offset
  pub count : IsU32 v.count

pub Wire-read3_args : (old v : Read3Args) → Read3ArgsFits v → Wire (pack v) (unpack old) v
unfolding read3_args_codec
Wire-read3_args old v h =
    Wire-then _ (Wire-nfs_fh3 old.file v.file h.file)
      (Wire-then _ (Wire-u64 v.offset h.offset) (Wire-last _ (Wire-u32 v.count h.count)))

pub record Read3ResokFits (old v : Read3Resok) : Type 0 where
  pub file_attributes : PostOpAttrFits old.file_attributes v.file_attributes
  pub count : IsU64 v.count
  pub data_bytes : IsShort v.data_bytes

pub Wire-read3_resok : (old v : Read3Resok) → Read3ResokFits old v → Wire (pack v) (unpack old) v
unfolding read3_resok_codec
Wire-read3_resok old v h =
    Wire-then _ (Wire-post_op_attr old.file_attributes v.file_attributes h.file_attributes) (
      Wire-then _ (Wire-u64 v.count h.count)
        (Wire-then _ (Wire-bool v.eof) (Wire-last _ (Wire-bytes v.data_bytes h.data_bytes))))

pub record Write3ArgsFits (v : Write3Args) : Type 0 where
  pub file : NfsFh3Fits v.file
  pub offset : IsU64 v.offset
  pub count : IsU32 v.count
  pub stable : IsU32 v.stable
  pub data_bytes : IsShort v.data_bytes

pub Wire-write3_args : (old v : Write3Args) → Write3ArgsFits v → Wire (pack v) (unpack old) v
unfolding write3_args_codec
Wire-write3_args old v h = Wire-then _ (Wire-nfs_fh3 old.file v.file h.file) (
    Wire-then _ (Wire-u64 v.offset h.offset) (
      Wire-then _ (Wire-u32 v.count h.count) (
        Wire-then _ (Wire-u32 v.stable h.stable)
          (Wire-last _ (Wire-bytes v.data_bytes h.data_bytes)))))

pub record Write3ResokFits (old v : Write3Resok) : Type 0 where
  pub file_attributes : PostOpAttrFits old.file_attributes v.file_attributes
  pub count : IsU32 v.count
  pub committed : IsU32 v.committed
  pub verf : Writeverf3Fits v.verf

pub Wire-write3_resok : (old v : Write3Resok) → Write3ResokFits old v → Wire (pack v) (unpack old) v
unfolding write3_resok_codec
Wire-write3_resok old v h =
    Wire-then _ (Wire-post_op_attr old.file_attributes v.file_attributes h.file_attributes) (
      Wire-then _ (Wire-u32 v.count h.count) (
        Wire-then _ (Wire-u32 v.committed h.committed)
          (Wire-last _ (Wire-writeverf3 old.verf v.verf h.verf))))

pub record Commit3ArgsFits (v : Commit3Args) : Type 0 where
  pub file : NfsFh3Fits v.file
  pub offset : IsU64 v.offset
  pub count : IsU32 v.count

pub Wire-commit3_args : (old v : Commit3Args) → Commit3ArgsFits v → Wire (pack v) (unpack old) v
unfolding commit3_args_codec
Wire-commit3_args old v h =
    Wire-then _ (Wire-nfs_fh3 old.file v.file h.file)
      (Wire-then _ (Wire-u64 v.offset h.offset) (Wire-last _ (Wire-u32 v.count h.count)))

pub record Commit3ResokFits (old v : Commit3Resok) : Type 0 where
  pub file_wcc : PostOpAttrFits old.file_wcc v.file_wcc
  pub verf : Writeverf3Fits v.verf

pub Wire-commit3_resok :
    (old v : Commit3Resok) → Commit3ResokFits old v → Wire (pack v) (unpack old) v
unfolding commit3_resok_codec
Wire-commit3_resok old v h =
    Wire-then _ (Wire-post_op_attr old.file_wcc v.file_wcc h.file_wcc)
      (Wire-last _ (Wire-writeverf3 old.verf v.verf h.verf))
