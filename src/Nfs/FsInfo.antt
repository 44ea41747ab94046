-- ===== src/Nfs/FsInfo.antt =====
-- The FSINFO procedure.
pub mod RoundTrip
pub mod Safety
pub mod Properties
use nfstest.Prelude.{
  ℕ, ◌+◌, ◌*◌, ◌≤◌, ◌<◌, ◌≡◌, refl, sym, ap, Bool, true, false, not, ◌&&◌, List, [], ◌∷◌, ◌++◌,
  Option, none, some, ◌==◌, if◌then◌else◌, Cases, take, leb, length, arith,
}
use nfstest.Xdr.Int.{ℤ, pos}
use nfstest.Xdr.Buffer.{
  M, pure, ◌>>=◌, ◌>>◌, pack_u32, pack_i32, pack_u64, pack_bool, pack_bytes, pack_string,
  unpack_u32, unpack_i32, unpack_u64, unpack_bool, unpack_bytes, unpack_string,
}
use nfstest.Xdr.Codec.{
  Codec, Fresh, pack, unpack, fresh, when, pack_present, unpack_present, has_value,
}
use nfstest.Nfs.Chain.{is_set, pack_chain, unpack_entries}
use nfstest.Nfs.Attributes.{
  NfsFh3, nfs_fh3_codec, nfs_fh3_fresh, PostOpAttr, post_op_attr_codec, post_op_attr_fresh,
}

pub record Fsinfo3Args : Type 0 where
  pub fsroot : NfsFh3

instance unfoldable pub fsinfo3_args_codec : Codec Fsinfo3Args
fsinfo3_args_codec = record {
  serialize = λ o. pack o.fsroot;
  deserialize = λ old. do
    fsroot ← unpack old.fsroot
    pure (record { fsroot = fsroot });
}

instance abbrev pub fsinfo3_args_fresh : Fresh Fsinfo3Args
fsinfo3_args_fresh = record { fresh = record { fsroot = fresh } }

-- `deserialize` calls the private member `unpack(uint32_t&)`, which does nothing, for `name_max`.
pub record Fsinfo3ResokProperty : Type 0 where
  pub linkmax : ℕ
  pub name_max : ℕ
  pub no_trunc : Bool
  pub chown_restricted : Bool
  pub case_insensitive : Bool
  pub case_preserving : Bool

instance unfoldable pub fsinfo3_resok_property_codec : Codec Fsinfo3ResokProperty
fsinfo3_resok_property_codec = record {
  serialize = λ o. do
    pack_u32 o.linkmax
    pack_u32 o.name_max
    pack_bool o.no_trunc
    pack_bool o.chown_restricted
    pack_bool o.case_insensitive
    pack_bool o.case_preserving;
  deserialize = λ old. do
    linkmax ← unpack_u32
    let name_max = old.name_max
    no_trunc ← unpack_bool
    chown_restricted ← unpack_bool
    case_insensitive ← unpack_bool
    case_preserving ← unpack_bool
    pure (record {
      linkmax = linkmax;
      name_max = name_max;
      no_trunc = no_trunc;
      chown_restricted = chown_restricted;
      case_insensitive = case_insensitive;
      case_preserving = case_preserving;
    });
}

instance abbrev pub fsinfo3_resok_property_fresh : Fresh Fsinfo3ResokProperty
fsinfo3_resok_property_fresh = record {
  fresh = record {
    linkmax = 0;
    name_max = 0;
    no_trunc = false;
    chown_restricted = false;
    case_insensitive = false;
    case_preserving = false;
  };
}

pub record Fsinfo3Resok : Type 0 where
  pub obj_attributes : PostOpAttr
  pub rtmax : ℕ
  pub rtpref : ℕ
  pub rtmult : ℕ
  pub wtmax : ℕ
  pub wtpref : ℕ
  pub wtmult : ℕ
  pub dtpref : ℕ
  pub maxfilesize : ℕ
  pub time_delta_seconds : ℕ
  pub time_delta_nseconds : ℕ
  pub properties : ℕ

instance unfoldable pub fsinfo3_resok_codec : Codec Fsinfo3Resok
fsinfo3_resok_codec = record {
  serialize = λ o. do
    pack o.obj_attributes
    pack_u32 o.rtmax
    pack_u32 o.rtpref
    pack_u32 o.rtmult
    pack_u32 o.wtmax
    pack_u32 o.wtpref
    pack_u32 o.wtmult
    pack_u32 o.dtpref
    pack_u64 o.maxfilesize
    pack_u32 o.time_delta_seconds
    pack_u32 o.time_delta_nseconds
    pack_u32 o.properties;
  deserialize = λ old. do
    obj_attributes ← unpack old.obj_attributes
    rtmax ← unpack_u32
    rtpref ← unpack_u32
    rtmult ← unpack_u32
    wtmax ← unpack_u32
    wtpref ← unpack_u32
    wtmult ← unpack_u32
    dtpref ← unpack_u32
    maxfilesize ← unpack_u64
    time_delta_seconds ← unpack_u32
    time_delta_nseconds ← unpack_u32
    properties ← unpack_u32
    pure (record {
      obj_attributes = obj_attributes;
      rtmax = rtmax;
      rtpref = rtpref;
      rtmult = rtmult;
      wtmax = wtmax;
      wtpref = wtpref;
      wtmult = wtmult;
      dtpref = dtpref;
      maxfilesize = maxfilesize;
      time_delta_seconds = time_delta_seconds;
      time_delta_nseconds = time_delta_nseconds;
      properties = properties;
    });
}

instance abbrev pub fsinfo3_resok_fresh : Fresh Fsinfo3Resok
fsinfo3_resok_fresh = record {
  fresh = record {
    obj_attributes = fresh;
    rtmax = 0;
    rtpref = 0;
    rtmult = 0;
    wtmax = 0;
    wtpref = 0;
    wtmult = 0;
    dtpref = 0;
    maxfilesize = 0;
    time_delta_seconds = 0;
    time_delta_nseconds = 0;
    properties = 0;
  };
}
