-- ===== src/Nfs/SetAttributes/RoundTrip.antt =====
-- Setting attributes: sattr3 and the SETATTR procedure: read back as written.
use nfstest.Prelude.{ℕ, ◌<◌, ◌≡◌, Option, none, some, arith}
use nfstest.Xdr.Word.{IsU32, IsU64}
use nfstest.Xdr.Buffer.{unpack_u32}
use nfstest.Xdr.Codec.{pack, unpack, fresh}
use nfstest.Xdr.Wire.{Wire, Wire-then, Wire-last}
use nfstest.Xdr.Words.{Wire-u32, Wire-u64, Wire-bool}
use nfstest.Xdr.Codec.{has_value}
use nfstest.Xdr.Buffer.{pack_u32}
use nfstest.Xdr.Wire.{Wire-eq}
use nfstest.Xdr.Optional.{OptionFits, Wire-optional}
use nfstest.Nfs.Attributes.{
  NfsFh3, nfs_fh3_codec, nfs_fh3_fresh, Nfstime3, nfstime3_codec, nfstime3_fresh,
}
use nfstest.Nfs.Attributes.RoundTrip.{
  Wire-nfs_fh3, NfsFh3Fits, Wire-nfstime3, Nfstime3Fits, Wire-wcc_data, WccDataFits,
}
use nfstest.Nfs.SetAttributes.{
  unset, or_unset, set_unless_unset, Sattr3, sattr3_codec, sattr3_fresh, Setattr3Args,
  setattr3_args_codec, setattr3_args_fresh, Setattr3Resok, setattr3_resok_codec,
  setattr3_resok_fresh,
}

-- A member that is set must differ from the word that means "not set".
abbrev pub IsSettable : Option ℕ → Option ℕ → Type 0
IsSettable old v = OptionFits (λ val. val < unset) old v

pub record Sattr3Fits (old v : Sattr3) : Type 0 where
  pub mode : IsSettable old.mode v.mode
  pub uid : IsSettable old.uid v.uid
  pub gid : IsSettable old.gid v.gid
  pub size : OptionFits IsU64 old.size v.size
  pub atime : OptionFits Nfstime3Fits old.atime v.atime
  pub mtime : OptionFits Nfstime3Fits old.mtime v.mtime

or_unset-IsU32 : (old v : Option ℕ) → IsSettable old v → IsU32 (or_unset v)
or_unset-IsU32 old none h = omega arith
or_unset-IsU32 old (some val) h = omega arith

set_unless_unset-or_unset :
    (old v : Option ℕ) → IsSettable old v → set_unless_unset (or_unset v) old ≡ v
set_unless_unset-or_unset old none h = h
set_unless_unset-or_unset old (some val) h = ground arith

module _ (old v : Option ℕ) (h : IsSettable old v) where
  Wire-settable : Wire (pack_u32 (or_unset v)) unpack_u32 (or_unset v)
  Wire-settable = Wire-u32 (or_unset v) (or_unset-IsU32 old v h)

pub Wire-sattr3 : (old v : Sattr3) → Sattr3Fits old v → Wire (pack v) (unpack old) v
unfolding sattr3_codec
Wire-sattr3 old v h =
    let time = Wire-nfstime3 (fresh {A = Nfstime3}) in
    Wire-eq
      (rw (
        set_unless_unset-or_unset old.mode v.mode h.mode,
        set_unless_unset-or_unset old.uid v.uid h.uid,
        set_unless_unset-or_unset old.gid v.gid h.gid,
      ))
      (Wire-then _ (Wire-settable old.mode v.mode h.mode) (
        Wire-then _ (Wire-settable old.uid v.uid h.uid) (
          Wire-then _ (Wire-settable old.gid v.gid h.gid) (
            Wire-then _ (Wire-bool (has_value v.size)) (
              Wire-then _ (Wire-optional Wire-u64 old.size v.size h.size) (
                Wire-then _ (Wire-bool (has_value v.atime)) (
                  Wire-then _ (Wire-optional time old.atime v.atime h.atime) (
                    Wire-then _ (Wire-bool (has_value v.mtime))
                      (Wire-last _ (Wire-optional time old.mtime v.mtime h.mtime))))))))))

pub record Setattr3ArgsFits (old v : Setattr3Args) : Type 0 where
  pub object : NfsFh3Fits v.object
  pub new_attributes : Sattr3Fits old.new_attributes v.new_attributes
  pub guard : OptionFits NfsFh3Fits old.guard v.guard

pub Wire-setattr3_args :
    (old v : Setattr3Args) → Setattr3ArgsFits old v → Wire (pack v) (unpack old) v
unfolding setattr3_args_codec
Wire-setattr3_args old v h = Wire-then _ (Wire-nfs_fh3 old.object v.object h.object) (
    Wire-then _ (Wire-sattr3 old.new_attributes v.new_attributes h.new_attributes) (
      Wire-then _ (Wire-bool (has_value v.guard)) (
        Wire-last _ (Wire-optional (Wire-nfs_fh3 (fresh {A = NfsFh3})) old.guard v.guard h.guard))))

pub record Setattr3ResokFits (old v : Setattr3Resok) : Type 0 where
  pub obj_wcc : WccDataFits old.obj_wcc v.obj_wcc

pub Wire-setattr3_resok :
    (old v : Setattr3Resok) → Setattr3ResokFits old v → Wire (pack v) (unpack old) v
unfolding setattr3_resok_codec
Wire-setattr3_resok old v h = Wire-last _ (Wire-wcc_data old.obj_wcc v.obj_wcc h.obj_wcc)
