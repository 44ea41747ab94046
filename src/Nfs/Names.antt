-- ===== src/Nfs/Names.antt =====
-- The REMOVE, RMDIR, RENAME and LINK procedures.
pub mod RoundTrip
pub mod Safety
use nfstest.Prelude.{
  ℕ, ◌+◌, ◌*◌, ◌≤◌, ◌<◌, ◌≡◌, refl, sym, ap, Bool, true, false, not, ◌&&◌, List, [], ◌∷◌, ◌++◌,
  Option, none, some, ◌==◌, if◌then◌else◌, Cases, take, leb, length, arith,
}
use nfstest.Xdr.Int.{ℤ, pos}
use nfstest.Xdr.Buffer.{
  M, pure, ◌>>=◌, ◌>>◌, pack_u32, pack_i32, pack_u64, pack_bool, pack_bytes, pack_string,
  unpack_u32, unpack_i32, unpack_u64, unpack_bool, unpack_bytes, unpack_string,
}
use nfstest.Xdr.Codec.{
  Codec, Fresh, pack, unpack, fresh, when, pack_present, unpack_present, has_value,
}
use nfstest.Nfs.Attributes.{
  NfsFh3, nfs_fh3_codec, nfs_fh3_fresh, PostOpAttr, post_op_attr_codec, post_op_attr_fresh, WccData,
  wcc_data_codec, wcc_data_fresh,
}

pub record Remove3Args : Type 0 where
  pub object_dir : NfsFh3
  pub object_name : List ℕ

instance unfoldable pub remove3_args_codec : Codec Remove3Args
remove3_args_codec = record {
  serialize = λ o. do
    pack o.object_dir
    pack_string o.object_name;
  deserialize = λ old. do
    object_dir ← unpack old.object_dir
    object_name ← unpack_string
    pure (record { object_dir = object_dir; object_name = object_name });
}

instance abbrev pub remove3_args_fresh : Fresh Remove3Args
remove3_args_fresh = record { fresh = record { object_dir = fresh; object_name = [] } }

pub record Remove3Resok : Type 0 where
  pub dir_wcc : WccData

instance unfoldable pub remove3_resok_codec : Codec Remove3Resok
remove3_resok_codec = record {
  serialize = λ o. pack o.dir_wcc;
  deserialize = λ old. do
    dir_wcc ← unpack old.dir_wcc
    pure (record { dir_wcc = dir_wcc });
}

instance abbrev pub remove3_resok_fresh : Fresh Remove3Resok
remove3_resok_fresh = record { fresh = record { dir_wcc = fresh } }

pub record Rmdir3Args : Type 0 where
  pub object_dir : NfsFh3
  pub object_name : List ℕ

instance unfoldable pub rmdir3_args_codec : Codec Rmdir3Args
rmdir3_args_codec = record {
  serialize = λ o. do
    pack o.object_dir
    pack_string o.object_name;
  deserialize = λ old. do
    object_dir ← unpack old.object_dir
    object_name ← unpack_string
    pure (record { object_dir = object_dir; object_name = object_name });
}

instance abbrev pub rmdir3_args_fresh : Fresh Rmdir3Args
rmdir3_args_fresh = record { fresh = record { object_dir = fresh; object_name = [] } }

pub record Rmdir3Resok : Type 0 where
  pub dir_wcc : WccData

instance unfoldable pub rmdir3_resok_codec : Codec Rmdir3Resok
rmdir3_resok_codec = record {
  serialize = λ o. pack o.dir_wcc;
  deserialize = λ old. do
    dir_wcc ← unpack old.dir_wcc
    pure (record { dir_wcc = dir_wcc });
}

instance abbrev pub rmdir3_resok_fresh : Fresh Rmdir3Resok
rmdir3_resok_fresh = record { fresh = record { dir_wcc = fresh } }

pub record Rename3Args : Type 0 where
  pub from_dir : NfsFh3
  pub from_name : List ℕ
  pub to_dir : NfsFh3
  pub to_name : List ℕ

instance unfoldable pub rename3_args_codec : Codec Rename3Args
rename3_args_codec = record {
  serialize = λ o. do
    pack o.from_dir
    pack_string o.from_name
    pack o.to_dir
    pack_string o.to_name;
  deserialize = λ old. do
    from_dir ← unpack old.from_dir
    from_name ← unpack_string
    to_dir ← unpack old.to_dir
    to_name ← unpack_string
    pure
        (record { from_dir = from_dir; from_name = from_name; to_dir = to_dir; to_name = to_name });
}

instance abbrev pub rename3_args_fresh : Fresh Rename3Args
rename3_args_fresh = record {
  fresh = record { from_dir = fresh; from_name = []; to_dir = fresh; to_name = [] };
}

pub record Rename3Resok : Type 0 where
  pub fromdir_wcc : WccData
  pub todir_wcc : WccData

instance unfoldable pub rename3_resok_codec : Codec Rename3Resok
rename3_resok_codec = record {
  serialize = λ o. do
    pack o.fromdir_wcc
    pack o.todir_wcc;
  deserialize = λ old. do
    fromdir_wcc ← unpack old.fromdir_wcc
    todir_wcc ← unpack old.todir_wcc
    pure (record { fromdir_wcc = fromdir_wcc; todir_wcc = todir_wcc });
}

instance abbrev pub rename3_resok_fresh : Fresh Rename3Resok
rename3_resok_fresh = record { fresh = record { fromdir_wcc = fresh; todir_wcc = fresh } }

pub record Link3Args : Type 0 where
  pub file : NfsFh3
  pub link_dir : NfsFh3
  pub link_name : List ℕ

instance unfoldable pub link3_args_codec : Codec Link3Args
link3_args_codec = record {
  serialize = λ o. do
    pack o.file
    pack o.link_dir
    pack_string o.link_name;
  deserialize = λ old. do
    file ← unpack old.file
    link_dir ← unpack old.link_dir
    link_name ← unpack_string
    pure (record { file = file; link_dir = link_dir; link_name = link_name });
}

instance abbrev pub link3_args_fresh : Fresh Link3Args
link3_args_fresh = record { fresh = record { file = fresh; link_dir = fresh; link_name = [] } }

pub record Link3Resok : Type 0 where
  pub file_attributes : PostOpAttr
  pub linkdir_wcc : WccData

instance unfoldable pub link3_resok_codec : Codec Link3Resok
link3_resok_codec = record {
  serialize = λ o. do
    pack o.file_attributes
    pack o.linkdir_wcc;
  deserialize = λ old. do
    file_attributes ← unpack old.file_attributes
    linkdir_wcc ← unpack old.linkdir_wcc
    pure (record { file_attributes = file_attributes; linkdir_wcc = linkdir_wcc });
}

instance abbrev pub link3_resok_fresh : Fresh Link3Resok
link3_resok_fresh = record { fresh = record { file_attributes = fresh; linkdir_wcc = fresh } }
