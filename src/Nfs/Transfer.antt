-- ===== src/Nfs/Transfer.antt =====
-- The READ, WRITE and COMMIT procedures.
pub mod RoundTrip
pub mod Safety
use nfstest.Prelude.{
  ℕ, ◌+◌, ◌*◌, ◌≤◌, ◌<◌, ◌≡◌, refl, sym, ap, Bool, true, false, not, ◌&&◌, List, [], ◌∷◌, ◌++◌,
  Option, none, some, ◌==◌, if◌then◌else◌, Cases, take, leb, length, arith,
}
use nfstest.Xdr.Int.{ℤ, pos}
use nfstest.Xdr.Buffer.{
  M, pure, ◌>>=◌, ◌>>◌, pack_u32, pack_i32, pack_u64, pack_bool, pack_bytes, pack_string,
  unpack_u32, unpack_i32, unpack_u64, unpack_bool, unpack_bytes, unpack_string,
}
use nfstest.Xdr.Codec.{
  Codec, Fresh, pack, unpack, fresh, when, pack_present, unpack_present, has_value,
}
use nfstest.Nfs.Attributes.{
  NfsFh3, nfs_fh3_codec, nfs_fh3_fresh, PostOpAttr, post_op_attr_codec, post_op_attr_fresh,
}

-- The 8 bytes; none of them before the first write, since the array is not initialised.
pub record Writeverf3 : Type 0 where
  pub data_bytes : List ℕ

instance unfoldable pub writeverf3_codec : Codec Writeverf3
writeverf3_codec = record {
  serialize = λ o. pack_bytes o.data_bytes;
  deserialize = λ old. do
    v ← unpack_bytes
    pure (if leb 8 (length v) then record { data_bytes = take 8 v } else old);
}

instance abbrev pub writeverf3_fresh : Fresh Writeverf3
writeverf3_fresh = record { fresh = record { data_bytes = [] } }

pub record Read3Args : Type 0 where
  pub file : NfsFh3
  pub offset : ℕ
  pub count : ℕ

instance unfoldable pub read3_args_codec : Codec Read3Args
read3_args_codec = record {
  serialize = λ o. do
    pack o.file
    pack_u64 o.offset
    pack_u32 o.count;
  deserialize = λ old. do
    file ← unpack old.file
    offset ← unpack_u64
    count ← unpack_u32
    pure (record { file = file; offset = offset; count = count });
}

instance abbrev pub read3_args_fresh : Fresh Read3Args
read3_args_fresh = record { fresh = record { file = fresh; offset = 0; count = 0 } }

pub record Read3Resok : Type 0 where
  pub file_attributes : PostOpAttr
  pub count : ℕ
  pub eof : Bool
  pub data_bytes : List ℕ

instance unfoldable pub read3_resok_codec : Codec Read3Resok
read3_resok_codec = record {
  serialize = λ o. do
    pack o.file_attributes
    pack_u64 o.count
    pack_bool o.eof
    pack_bytes o.data_bytes;
  deserialize = λ old. do
    file_attributes ← unpack old.file_attributes
    count ← unpack_u64
    eof ← unpack_bool
    data_bytes ← unpack_bytes
    pure (record {
      file_attributes = file_attributes;
      count = count;
      eof = eof;
      data_bytes = data_bytes;
    });
}

instance abbrev pub read3_resok_fresh : Fresh Read3Resok
read3_resok_fresh = record {
  fresh = record { file_attributes = fresh; count = 0; eof = false; data_bytes = [] };
}

pub record Write3Args : Type 0 where
  pub file : NfsFh3
  pub offset : ℕ
  pub count : ℕ
  pub stable : ℕ
  pub data_bytes : List ℕ

instance unfoldable pub write3_args_codec : Codec Write3Args
write3_args_codec = record {
  serialize = λ o. do
    pack o.file
    pack_u64 o.offset
    pack_u32 o.count
    pack_u32 o.stable
    pack_bytes o.data_bytes;
  deserialize = λ old. do
    file ← unpack old.file
    offset ← unpack_u64
    count ← unpack_u32
    stable ← unpack_u32
    data_bytes ← unpack_bytes
    pure (record {
      file = file;
      offset = offset;
      count = count;
      stable = stable;
      data_bytes = data_bytes;
    });
}

instance abbrev pub write3_args_fresh : Fresh Write3Args
write3_args_fresh = record {
  fresh = record { file = fresh; offset = 0; count = 0; stable = 0; data_bytes = [] };
}

pub record Write3Resok : Type 0 where
  pub file_attributes : PostOpAttr
  pub count : ℕ
  pub committed : ℕ
  pub verf : Writeverf3

instance unfoldable pub write3_resok_codec : Codec Write3Resok
write3_resok_codec = record {
  serialize = λ o. do
    pack o.file_attributes
    pack_u32 o.count
    pack_u32 o.committed
    pack o.verf;
  deserialize = λ old. do
    file_attributes ← unpack old.file_attributes
    count ← unpack_u32
    committed ← unpack_u32
    verf ← unpack old.verf
    pure (record {
      file_attributes = file_attributes;
      count = count;
      committed = committed;
      verf = verf;
    });
}

instance abbrev pub write3_resok_fresh : Fresh Write3Resok
write3_resok_fresh = record {
  fresh = record { file_attributes = fresh; count = 0; committed = 2; verf = fresh };
}

pub record Commit3Args : Type 0 where
  pub file : NfsFh3
  pub offset : ℕ
  pub count : ℕ

instance unfoldable pub commit3_args_codec : Codec Commit3Args
commit3_args_codec = record {
  serialize = λ o. do
    pack o.file
    pack_u64 o.offset
    pack_u32 o.count;
  deserialize = λ old. do
    file ← unpack old.file
    offset ← unpack_u64
    count ← unpack_u32
    pure (record { file = file; offset = offset; count = count });
}

instance abbrev pub commit3_args_fresh : Fresh Commit3Args
commit3_args_fresh = record { fresh = record { file = fresh; offset = 0; count = 0 } }

pub record Commit3Resok : Type 0 where
  pub file_wcc : PostOpAttr
  pub verf : Writeverf3

instance unfoldable pub commit3_resok_codec : Codec Commit3Resok
commit3_resok_codec = record {
  serialize = λ o. do
    pack o.file_wcc
    pack o.verf;
  deserialize = λ old. do
    file_wcc ← unpack old.file_wcc
    verf ← unpack old.verf
    pure (record { file_wcc = file_wcc; verf = verf });
}

instance abbrev pub commit3_resok_fresh : Fresh Commit3Resok
commit3_resok_fresh = record { fresh = record { file_wcc = fresh; verf = fresh } }
