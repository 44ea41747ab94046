-- ===== src/Nfs/Create.antt =====
-- The CREATE and MKDIR procedures.
pub mod RoundTrip
pub mod Safety
use nfstest.Prelude.{
  ℕ, ◌+◌, ◌*◌, ◌≤◌, ◌<◌, ◌≡◌, refl, sym, ap, Bool, true, false, not, ◌&&◌, List, [], ◌∷◌, ◌++◌,
  Option, none, some, ◌==◌, if◌then◌else◌, Cases, take, leb, length, arith,
}
use nfstest.Xdr.Int.{ℤ, pos}
use nfstest.Xdr.Buffer.{
  M, pure, ◌>>=◌, ◌>>◌, pack_u32, pack_i32, pack_u64, pack_bool, pack_bytes, pack_string,
  unpack_u32, unpack_i32, unpack_u64, unpack_bool, unpack_bytes, unpack_string,
}
use nfstest.Xdr.Codec.{
  Codec, Fresh, pack, unpack, fresh, when, pack_present, unpack_present, has_value,
}
use nfstest.Nfs.Chain.{is_set, pack_chain, unpack_entries}
use nfstest.Nfs.Attributes.{
  NfsFh3, nfs_fh3_codec, nfs_fh3_fresh, PostOpAttr, post_op_attr_codec, post_op_attr_fresh, WccData,
  wcc_data_codec, wcc_data_fresh,
}
use nfstest.Nfs.SetAttributes.{Sattr3, sattr3_codec, sattr3_fresh}

-- The 8 bytes; none of them before the first write, since the array is not initialised.
pub record Createverf3 : Type 0 where
  pub data_bytes : List ℕ

instance unfoldable pub createverf3_codec : Codec Createverf3
createverf3_codec = record {
  serialize = λ o. pack_bytes o.data_bytes;
  deserialize = λ old. do
    v ← unpack_bytes
    pure (if leb 8 (length v) then record { data_bytes = take 8 v } else old);
}

instance abbrev pub createverf3_fresh : Fresh Createverf3
createverf3_fresh = record { fresh = record { data_bytes = [] } }

abbrev pub exclusive : ℕ
exclusive = 2

-- `how_mode` is a `createmode3`; the verifier is on the wire in the exclusive mode only.
pub record Create3Args : Type 0 where
  pub where_dir : NfsFh3
  pub where_name : List ℕ
  pub how_mode : ℕ
  pub how_attributes : Sattr3
  pub how_verf : Createverf3

instance unfoldable pub create3_args_codec : Codec Create3Args
create3_args_codec = record {
  serialize = λ o. do
    pack o.where_dir
    pack_string o.where_name
    pack_u32 o.how_mode
    pack o.how_attributes
    when (o.how_mode == exclusive) (pack o.how_verf);
  deserialize = λ old. do
    where_dir ← unpack old.where_dir
    where_name ← unpack_string
    how_mode ← unpack_u32
    how_attributes ← unpack old.how_attributes
    how_verf ← (if how_mode == exclusive then unpack old.how_verf else pure old.how_verf)
    pure (record {
      where_dir = where_dir;
      where_name = where_name;
      how_mode = how_mode;
      how_attributes = how_attributes;
      how_verf = how_verf;
    });
}

-- `how_mode` is not initialised; zero stands for it.
instance abbrev pub create3_args_fresh : Fresh Create3Args
create3_args_fresh = record {
  fresh = record {
    where_dir = fresh;
    where_name = [];
    how_mode = 0;
    how_attributes = fresh;
    how_verf = fresh;
  };
}

pub record Create3Resok : Type 0 where
  pub obj_attributes : PostOpAttr
  pub dir_wcc : WccData
  pub object : NfsFh3

instance unfoldable pub create3_resok_codec : Codec Create3Resok
create3_resok_codec = record {
  serialize = λ o. do
    pack o.obj_attributes
    pack o.dir_wcc
    pack o.object;
  deserialize = λ old. do
    obj_attributes ← unpack old.obj_attributes
    dir_wcc ← unpack old.dir_wcc
    object ← unpack old.object
    pure (record { obj_attributes = obj_attributes; dir_wcc = dir_wcc; object = object });
}

instance abbrev pub create3_resok_fresh : Fresh Create3Resok
create3_resok_fresh = record {
  fresh = record { obj_attributes = fresh; dir_wcc = fresh; object = fresh };
}

pub record Mkdir3Args : Type 0 where
  pub where_dir : NfsFh3
  pub where_name : List ℕ
  pub attributes : Sattr3

instance unfoldable pub mkdir3_args_codec : Codec Mkdir3Args
mkdir3_args_codec = record {
  serialize = λ o. do
    pack o.where_dir
    pack_string o.where_name
    pack o.attributes;
  deserialize = λ old. do
    where_dir ← unpack old.where_dir
    where_name ← unpack_string
    attributes ← unpack old.attributes
    pure (record { where_dir = where_dir; where_name = where_name; attributes = attributes });
}

instance abbrev pub mkdir3_args_fresh : Fresh Mkdir3Args
mkdir3_args_fresh = record {
  fresh = record { where_dir = fresh; where_name = []; attributes = fresh };
}

pub record Mkdir3Resok : Type 0 where
  pub obj_attributes : PostOpAttr
  pub dir_wcc : WccData
  pub object : NfsFh3

instance unfoldable pub mkdir3_resok_codec : Codec Mkdir3Resok
mkdir3_resok_codec = record {
  serialize = λ o. do
    pack o.obj_attributes
    pack o.dir_wcc
    pack o.object;
  deserialize = λ old. do
    obj_attributes ← unpack old.obj_attributes
    dir_wcc ← unpack old.dir_wcc
    object ← unpack old.object
    pure (record { obj_attributes = obj_attributes; dir_wcc = dir_wcc; object = object });
}

instance abbrev pub mkdir3_resok_fresh : Fresh Mkdir3Resok
mkdir3_resok_fresh = record {
  fresh = record { obj_attributes = fresh; dir_wcc = fresh; object = fresh };
}
