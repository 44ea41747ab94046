-- ===== src/Nfs/SetAttributes.antt =====
-- Setting attributes: sattr3 and the SETATTR procedure.
pub mod RoundTrip
pub mod Safety
use nfstest.Prelude.{
  ℕ, ◌+◌, ◌*◌, ◌≤◌, ◌<◌, ◌≡◌, refl, sym, ap, Bool, true, false, not, ◌&&◌, List, [], ◌∷◌, ◌++◌,
  Option, none, some, ◌==◌, if◌then◌else◌, Cases, take, leb, length, arith,
}
use nfstest.Xdr.Int.{ℤ, pos}
use nfstest.Xdr.Buffer.{
  M, pure, ◌>>=◌, ◌>>◌, pack_u32, pack_i32, pack_u64, pack_bool, pack_bytes, pack_string,
  unpack_u32, unpack_i32, unpack_u64, unpack_bool, unpack_bytes, unpack_string,
}
use nfstest.Xdr.Codec.{
  Codec, Fresh, pack, unpack, fresh, when, pack_present, unpack_present, has_value,
}
use nfstest.Nfs.Attributes.{
  NfsFh3, nfs_fh3_codec, nfs_fh3_fresh, Nfstime3, nfstime3_codec, nfstime3_fresh, WccData,
  wcc_data_codec, wcc_data_fresh,
}

-- `static_cast<uint32_t>(-1)` on the wire stands for a member that is not set.
abbrev pub unset : ℕ
unset = 0xffff_ffff

abbrev pub or_unset : Option ℕ → ℕ
or_unset none = unset
or_unset (some val) = val

-- `if (val != static_cast<uint32_t>(-1)) member = val;`
abbrev pub set_unless_unset : ℕ → Option ℕ → Option ℕ
set_unless_unset val old = if val == unset then old else some val

pub record Sattr3 : Type 0 where
  pub mode : Option ℕ
  pub uid : Option ℕ
  pub gid : Option ℕ
  pub size : Option ℕ
  pub atime : Option Nfstime3
  pub mtime : Option Nfstime3

instance unfoldable pub sattr3_codec : Codec Sattr3
sattr3_codec = record {
  serialize = λ o. do
    pack_u32 (or_unset o.mode)
    pack_u32 (or_unset o.uid)
    pack_u32 (or_unset o.gid)
    pack_bool (has_value o.size)
    pack_present pack_u64 o.size
    pack_bool (has_value o.atime)
    pack_present pack o.atime
    pack_bool (has_value o.mtime)
    pack_present pack o.mtime;
  deserialize = λ old. do
    mode ← unpack_u32
    uid ← unpack_u32
    gid ← unpack_u32
    size_set ← unpack_bool
    size ← unpack_present size_set unpack_u64 old.size
    atime_set ← unpack_bool
    atime ← unpack_present atime_set (unpack fresh) old.atime
    mtime_set ← unpack_bool
    mtime ← unpack_present mtime_set (unpack fresh) old.mtime
    pure (record {
      mode = set_unless_unset mode old.mode;
      uid = set_unless_unset uid old.uid;
      gid = set_unless_unset gid old.gid;
      size = size;
      atime = atime;
      mtime = mtime;
    });
}

instance abbrev pub sattr3_fresh : Fresh Sattr3
sattr3_fresh = record {
  fresh = record { mode = none; uid = none; gid = none; size = none; atime = none; mtime = none };
}

pub record Setattr3Args : Type 0 where
  pub object : NfsFh3
  pub new_attributes : Sattr3
  pub guard : Option NfsFh3

instance unfoldable pub setattr3_args_codec : Codec Setattr3Args
setattr3_args_codec = record {
  serialize = λ o. do
    pack o.object
    pack o.new_attributes
    pack_bool (has_value o.guard)
    pack_present pack o.guard;
  deserialize = λ old. do
    object ← unpack old.object
    new_attributes ← unpack old.new_attributes
    has_guard ← unpack_bool
    guard ← unpack_present has_guard (unpack fresh) old.guard
    pure (record { object = object; new_attributes = new_attributes; guard = guard });
}

instance abbrev pub setattr3_args_fresh : Fresh Setattr3Args
setattr3_args_fresh = record {
  fresh = record { object = fresh; new_attributes = fresh; guard = none };
}

pub record Setattr3Resok : Type 0 where
  pub obj_wcc : WccData

instance unfoldable pub setattr3_resok_codec : Codec Setattr3Resok
setattr3_resok_codec = record {
  serialize = λ o. pack o.obj_wcc;
  deserialize = λ old. do
    obj_wcc ← unpack old.obj_wcc
    pure (record { obj_wcc = obj_wcc });
}

instance abbrev pub setattr3_resok_fresh : Fresh Setattr3Resok
setattr3_resok_fresh = record { fresh = record { obj_wcc = fresh } }
