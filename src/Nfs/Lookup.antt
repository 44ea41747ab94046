-- ===== src/Nfs/Lookup.antt =====
-- The GETATTR, LOOKUP, ACCESS and READLINK procedures.
pub mod RoundTrip
pub mod Safety
use nfstest.Prelude.{
  ℕ, ◌+◌, ◌*◌, ◌≤◌, ◌<◌, ◌≡◌, refl, sym, ap, Bool, true, false, not, ◌&&◌, List, [], ◌∷◌, ◌++◌,
  Option, none, some, ◌==◌, if◌then◌else◌, Cases, take, leb, length, arith,
}
use nfstest.Xdr.Int.{ℤ, pos}
use nfstest.Xdr.Buffer.{
  M, pure, ◌>>=◌, ◌>>◌, pack_u32, pack_i32, pack_u64, pack_bool, pack_bytes, pack_string,
  unpack_u32, unpack_i32, unpack_u64, unpack_bool, unpack_bytes, unpack_string,
}
use nfstest.Xdr.Codec.{
  Codec, Fresh, pack, unpack, fresh, when, pack_present, unpack_present, has_value,
}
use nfstest.Nfs.Attributes.{
  NfsFh3, nfs_fh3_codec, nfs_fh3_fresh, Fattr3, fattr3_codec, fattr3_fresh, PostOpAttr,
  post_op_attr_codec, post_op_attr_fresh,
}

pub record Getattr3Args : Type 0 where
  pub object : NfsFh3

instance unfoldable pub getattr3_args_codec : Codec Getattr3Args
getattr3_args_codec = record {
  serialize = λ o. pack o.object;
  deserialize = λ old. do
    object ← unpack old.object
    pure (record { object = object });
}

instance abbrev pub getattr3_args_fresh : Fresh Getattr3Args
getattr3_args_fresh = record { fresh = record { object = fresh } }

pub record Getattr3Resok : Type 0 where
  pub obj_attributes : Fattr3

instance unfoldable pub getattr3_resok_codec : Codec Getattr3Resok
getattr3_resok_codec = record {
  serialize = λ o. pack o.obj_attributes;
  deserialize = λ old. do
    obj_attributes ← unpack old.obj_attributes
    pure (record { obj_attributes = obj_attributes });
}

instance abbrev pub getattr3_resok_fresh : Fresh Getattr3Resok
getattr3_resok_fresh = record { fresh = record { obj_attributes = fresh } }

pub record Lookup3Args : Type 0 where
  pub what_dir : NfsFh3
  pub what_name : List ℕ

instance unfoldable pub lookup3_args_codec : Codec Lookup3Args
lookup3_args_codec = record {
  serialize = λ o. do
    pack o.what_dir
    pack_string o.what_name;
  deserialize = λ old. do
    what_dir ← unpack old.what_dir
    what_name ← unpack_string
    pure (record { what_dir = what_dir; what_name = what_name });
}

instance abbrev pub lookup3_args_fresh : Fresh Lookup3Args
lookup3_args_fresh = record { fresh = record { what_dir = fresh; what_name = [] } }

pub record Lookup3Resok : Type 0 where
  pub object : NfsFh3
  pub obj_attributes : PostOpAttr
  pub dir_attributes : PostOpAttr

instance unfoldable pub lookup3_resok_codec : Codec Lookup3Resok
lookup3_resok_codec = record {
  serialize = λ o. do
    pack o.object
    pack o.obj_attributes
    pack o.dir_attributes;
  deserialize = λ old. do
    object ← unpack old.object
    obj_attributes ← unpack old.obj_attributes
    dir_attributes ← unpack old.dir_attributes
    pure (record {
      object = object;
      obj_attributes = obj_attributes;
      dir_attributes = dir_attributes;
    });
}

instance abbrev pub lookup3_resok_fresh : Fresh Lookup3Resok
lookup3_resok_fresh = record {
  fresh = record { object = fresh; obj_attributes = fresh; dir_attributes = fresh };
}

pub record Access3Args : Type 0 where
  pub object : NfsFh3
  pub access : ℕ

instance unfoldable pub access3_args_codec : Codec Access3Args
access3_args_codec = record {
  serialize = λ o. do
    pack o.object
    pack_u32 o.access;
  deserialize = λ old. do
    object ← unpack old.object
    access ← unpack_u32
    pure (record { object = object; access = access });
}

instance abbrev pub access3_args_fresh : Fresh Access3Args
access3_args_fresh = record { fresh = record { object = fresh; access = 0 } }

pub record Access3Resok : Type 0 where
  pub obj_attributes : PostOpAttr
  pub access : ℕ

instance unfoldable pub access3_resok_codec : Codec Access3Resok
access3_resok_codec = record {
  serialize = λ o. do
    pack o.obj_attributes
    pack_u32 o.access;
  deserialize = λ old. do
    obj_attributes ← unpack old.obj_attributes
    access ← unpack_u32
    pure (record { obj_attributes = obj_attributes; access = access });
}

instance abbrev pub access3_resok_fresh : Fresh Access3Resok
access3_resok_fresh = record { fresh = record { obj_attributes = fresh; access = 0 } }

pub record Readlink3Args : Type 0 where
  pub symlink : NfsFh3

instance unfoldable pub readlink3_args_codec : Codec Readlink3Args
readlink3_args_codec = record {
  serialize = λ o. pack o.symlink;
  deserialize = λ old. do
    symlink ← unpack old.symlink
    pure (record { symlink = symlink });
}

instance abbrev pub readlink3_args_fresh : Fresh Readlink3Args
readlink3_args_fresh = record { fresh = record { symlink = fresh } }

pub record Readlink3Resok : Type 0 where
  pub symlink_attributes : PostOpAttr
  pub data_bytes : List ℕ

instance unfoldable pub readlink3_resok_codec : Codec Readlink3Resok
readlink3_resok_codec = record {
  serialize = λ o. do
    pack o.symlink_attributes
    pack_string o.data_bytes;
  deserialize = λ old. do
    symlink_attributes ← unpack old.symlink_attributes
    data_bytes ← unpack_string
    pure (record { symlink_attributes = symlink_attributes; data_bytes = data_bytes });
}

instance abbrev pub readlink3_resok_fresh : Fresh Readlink3Resok
readlink3_resok_fresh = record { fresh = record { symlink_attributes = fresh; data_bytes = [] } }
