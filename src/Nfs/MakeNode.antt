-- ===== src/Nfs/MakeNode.antt =====
-- The SYMLINK and MKNOD procedures.
pub mod RoundTrip
pub mod Safety
use nfstest.Prelude.{
  ℕ, ◌+◌, ◌*◌, ◌≤◌, ◌<◌, ◌≡◌, refl, sym, ap, Bool, true, false, not, ◌&&◌, List, [], ◌∷◌, ◌++◌,
  Option, none, some, ◌==◌, if◌then◌else◌, Cases, take, leb, length, arith,
}
use nfstest.Xdr.Int.{ℤ, pos}
use nfstest.Xdr.Buffer.{
  M, pure, ◌>>=◌, ◌>>◌, pack_u32, pack_i32, pack_u64, pack_bool, pack_bytes, pack_string,
  unpack_u32, unpack_i32, unpack_u64, unpack_bool, unpack_bytes, unpack_string,
}
use nfstest.Xdr.Codec.{
  Codec, Fresh, pack, unpack, fresh, when, pack_present, unpack_present, has_value,
}
use nfstest.Nfs.Chain.{is_set, pack_chain, unpack_entries}
use nfstest.Nfs.Attributes.{
  NfsFh3, nfs_fh3_codec, nfs_fh3_fresh, PostOpAttr, post_op_attr_codec, post_op_attr_fresh, WccData,
  wcc_data_codec, wcc_data_fresh,
}
use nfstest.Nfs.SetAttributes.{Sattr3, sattr3_codec, sattr3_fresh}

pub record Symlink3Args : Type 0 where
  pub where_dir : NfsFh3
  pub where_name : List ℕ
  pub symlink_attributes : Sattr3
  pub symlink_data : List ℕ

instance unfoldable pub symlink3_args_codec : Codec Symlink3Args
symlink3_args_codec = record {
  serialize = λ o. do
    pack o.where_dir
    pack_string o.where_name
    pack o.symlink_attributes
    pack_string o.symlink_data;
  deserialize = λ old. do
    where_dir ← unpack old.where_dir
    where_name ← unpack_string
    symlink_attributes ← unpack old.symlink_attributes
    symlink_data ← unpack_string
    pure (record {
      where_dir = where_dir;
      where_name = where_name;
      symlink_attributes = symlink_attributes;
      symlink_data = symlink_data;
    });
}

instance abbrev pub symlink3_args_fresh : Fresh Symlink3Args
symlink3_args_fresh = record {
  fresh = record {
    where_dir = fresh;
    where_name = [];
    symlink_attributes = fresh;
    symlink_data = [];
  };
}

pub record Symlink3Resok : Type 0 where
  pub obj_attributes : PostOpAttr
  pub dir_wcc : WccData
  pub object : NfsFh3

instance unfoldable pub symlink3_resok_codec : Codec Symlink3Resok
symlink3_resok_codec = record {
  serialize = λ o. do
    pack o.obj_attributes
    pack o.dir_wcc
    pack o.object;
  deserialize = λ old. do
    obj_attributes ← unpack old.obj_attributes
    dir_wcc ← unpack old.dir_wcc
    object ← unpack old.object
    pure (record { obj_attributes = obj_attributes; dir_wcc = dir_wcc; object = object });
}

instance abbrev pub symlink3_resok_fresh : Fresh Symlink3Resok
symlink3_resok_fresh = record {
  fresh = record { obj_attributes = fresh; dir_wcc = fresh; object = fresh };
}

pub record Mknod3Args : Type 0 where
  pub where_dir : NfsFh3
  pub where_name : List ℕ
  pub what_type : ℕ
  pub what_attributes : Sattr3

instance unfoldable pub mknod3_args_codec : Codec Mknod3Args
mknod3_args_codec = record {
  serialize = λ o. do
    pack o.where_dir
    pack_string o.where_name
    pack_u32 o.what_type
    pack o.what_attributes;
  deserialize = λ old. do
    where_dir ← unpack old.where_dir
    where_name ← unpack_string
    what_type ← unpack_u32
    what_attributes ← unpack old.what_attributes
    pure (record {
      where_dir = where_dir;
      where_name = where_name;
      what_type = what_type;
      what_attributes = what_attributes;
    });
}

instance abbrev pub mknod3_args_fresh : Fresh Mknod3Args
mknod3_args_fresh = record {
  fresh = record { where_dir = fresh; where_name = []; what_type = 0; what_attributes = fresh };
}

pub record Mknod3Resok : Type 0 where
  pub obj_attributes : PostOpAttr
  pub dir_wcc : WccData
  pub object : NfsFh3

instance unfoldable pub mknod3_resok_codec : Codec Mknod3Resok
mknod3_resok_codec = record {
  serialize = λ o. do
    pack o.obj_attributes
    pack o.dir_wcc
    pack o.object;
  deserialize = λ old. do
    obj_attributes ← unpack old.obj_attributes
    dir_wcc ← unpack old.dir_wcc
    object ← unpack old.object
    pure (record { obj_attributes = obj_attributes; dir_wcc = dir_wcc; object = object });
}

instance abbrev pub mknod3_resok_fresh : Fresh Mknod3Resok
mknod3_resok_fresh = record {
  fresh = record { obj_attributes = fresh; dir_wcc = fresh; object = fresh };
}
