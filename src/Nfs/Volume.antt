-- ===== src/Nfs/Volume.antt =====
-- The FSSTAT and PATHCONF procedures.
pub mod RoundTrip
pub mod Safety
use nfstest.Prelude.{
  ℕ, ◌+◌, ◌*◌, ◌≤◌, ◌<◌, ◌≡◌, refl, sym, ap, Bool, true, false, not, ◌&&◌, List, [], ◌∷◌, ◌++◌,
  Option, none, some, ◌==◌, if◌then◌else◌, Cases, take, leb, length, arith,
}
use nfstest.Xdr.Int.{ℤ, pos}
use nfstest.Xdr.Buffer.{
  M, pure, ◌>>=◌, ◌>>◌, pack_u32, pack_i32, pack_u64, pack_bool, pack_bytes, pack_string,
  unpack_u32, unpack_i32, unpack_u64, unpack_bool, unpack_bytes, unpack_string,
}
use nfstest.Xdr.Codec.{
  Codec, Fresh, pack, unpack, fresh, when, pack_present, unpack_present, has_value,
}
use nfstest.Nfs.Chain.{is_set, pack_chain, unpack_entries}
use nfstest.Nfs.Attributes.{
  NfsFh3, nfs_fh3_codec, nfs_fh3_fresh, PostOpAttr, post_op_attr_codec, post_op_attr_fresh,
}

pub record Fsstat3Args : Type 0 where
  pub fsroot : NfsFh3

instance unfoldable pub fsstat3_args_codec : Codec Fsstat3Args
fsstat3_args_codec = record {
  serialize = λ o. pack o.fsroot;
  deserialize = λ old. do
    fsroot ← unpack old.fsroot
    pure (record { fsroot = fsroot });
}

instance abbrev pub fsstat3_args_fresh : Fresh Fsstat3Args
fsstat3_args_fresh = record { fresh = record { fsroot = fresh } }

pub record Fsstat3Resok : Type 0 where
  pub obj_attributes : PostOpAttr
  pub tbytes : ℕ
  pub fbytes : ℕ
  pub abytes : ℕ
  pub tfiles : ℕ
  pub ffiles : ℕ
  pub afiles : ℕ
  pub invarsec : ℕ

instance unfoldable pub fsstat3_resok_codec : Codec Fsstat3Resok
fsstat3_resok_codec = record {
  serialize = λ o. do
    pack o.obj_attributes
    pack_u64 o.tbytes
    pack_u64 o.fbytes
    pack_u64 o.abytes
    pack_u64 o.tfiles
    pack_u64 o.ffiles
    pack_u64 o.afiles
    pack_u32 o.invarsec;
  deserialize = λ old. do
    obj_attributes ← unpack old.obj_attributes
    tbytes ← unpack_u64
    fbytes ← unpack_u64
    abytes ← unpack_u64
    tfiles ← unpack_u64
    ffiles ← unpack_u64
    afiles ← unpack_u64
    invarsec ← unpack_u32
    pure (record {
      obj_attributes = obj_attributes;
      tbytes = tbytes;
      fbytes = fbytes;
      abytes = abytes;
      tfiles = tfiles;
      ffiles = ffiles;
      afiles = afiles;
      invarsec = invarsec;
    });
}

instance abbrev pub fsstat3_resok_fresh : Fresh Fsstat3Resok
fsstat3_resok_fresh = record {
  fresh = record {
    obj_attributes = fresh;
    tbytes = 0;
    fbytes = 0;
    abytes = 0;
    tfiles = 0;
    ffiles = 0;
    afiles = 0;
    invarsec = 0;
  };
}

pub record Pathconf3Args : Type 0 where
  pub object : NfsFh3

instance unfoldable pub pathconf3_args_codec : Codec Pathconf3Args
pathconf3_args_codec = record {
  serialize = λ o. pack o.object;
  deserialize = λ old. do
    object ← unpack old.object
    pure (record { object = object });
}

instance abbrev pub pathconf3_args_fresh : Fresh Pathconf3Args
pathconf3_args_fresh = record { fresh = record { object = fresh } }

pub record Pathconf3ResokInfo : Type 0 where
  pub linkmax : ℤ
  pub name_max : ℤ
  pub no_trunc : Bool
  pub chown_restricted : Bool
  pub case_insensitive : Bool
  pub case_preserving : Bool

instance unfoldable pub pathconf3_resok_info_codec : Codec Pathconf3ResokInfo
pathconf3_resok_info_codec = record {
  serialize = λ o. do
    pack_i32 o.linkmax
    pack_i32 o.name_max
    pack_bool o.no_trunc
    pack_bool o.chown_restricted
    pack_bool o.case_insensitive
    pack_bool o.case_preserving;
  deserialize = λ old. do
    linkmax ← unpack_i32
    name_max ← unpack_i32
    no_trunc ← unpack_bool
    chown_restricted ← unpack_bool
    case_insensitive ← unpack_bool
    case_preserving ← unpack_bool
    pure (record {
      linkmax = linkmax;
      name_max = name_max;
      no_trunc = no_trunc;
      chown_restricted = chown_restricted;
      case_insensitive = case_insensitive;
      case_preserving = case_preserving;
    });
}

instance abbrev pub pathconf3_resok_info_fresh : Fresh Pathconf3ResokInfo
pathconf3_resok_info_fresh = record {
  fresh = record {
    linkmax = pos 0;
    name_max = pos 0;
    no_trunc = false;
    chown_restricted = false;
    case_insensitive = false;
    case_preserving = false;
  };
}

pub record Pathconf3Resok : Type 0 where
  pub obj_attributes : PostOpAttr
  pub info : Pathconf3ResokInfo

instance unfoldable pub pathconf3_resok_codec : Codec Pathconf3Resok
pathconf3_resok_codec = record {
  serialize = λ o. do
    pack o.obj_attributes
    pack o.info;
  deserialize = λ old. do
    obj_attributes ← unpack old.obj_attributes
    info ← unpack old.info
    pure (record { obj_attributes = obj_attributes; info = info });
}

instance abbrev pub pathconf3_resok_fresh : Fresh Pathconf3Resok
pathconf3_resok_fresh = record { fresh = record { obj_attributes = fresh; info = fresh } }
