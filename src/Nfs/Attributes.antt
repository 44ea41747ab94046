-- ===== src/Nfs/Attributes.antt =====
-- File handles and attributes: nfs3_rpc_tests/include/nfs3/nfs3_types.hpp, lines 27-240.
pub mod RoundTrip
pub mod Safety
use nfstest.Prelude.{ℕ, Bool, false, List, [], if◌then◌else◌}
use nfstest.Xdr.Buffer.{
  pure, ◌>>=◌, ◌>>◌, pack_u32, pack_u64, pack_bool, pack_bytes, unpack_u32, unpack_u64, unpack_bool,
  unpack_bytes,
}
use nfstest.Xdr.Codec.{Codec, Fresh, pack, unpack, fresh, when}

pub record NfsFh3 : Type 0 where
  pub data_bytes : List ℕ

instance unfoldable pub nfs_fh3_codec : Codec NfsFh3
nfs_fh3_codec = record {
  serialize = λ o. pack_bytes o.data_bytes;
  deserialize = λ old. do
    data_bytes ← unpack_bytes
    pure (record { data_bytes = data_bytes });
}

instance abbrev pub nfs_fh3_fresh : Fresh NfsFh3
nfs_fh3_fresh = record { fresh = record { data_bytes = [] } }

pub record Nfstime3 : Type 0 where
  pub seconds : ℕ
  pub nseconds : ℕ

instance unfoldable pub nfstime3_codec : Codec Nfstime3
nfstime3_codec = record {
  serialize = λ o. do
    pack_u32 o.seconds
    pack_u32 o.nseconds;
  deserialize = λ old. do
    seconds ← unpack_u32
    nseconds ← unpack_u32
    pure (record { seconds = seconds; nseconds = nseconds });
}

instance abbrev pub nfstime3_fresh : Fresh Nfstime3
nfstime3_fresh = record { fresh = record { seconds = 0; nseconds = 0 } }

pub record Specdata3 : Type 0 where
  pub specdata1 : ℕ
  pub specdata2 : ℕ

instance unfoldable pub specdata3_codec : Codec Specdata3
specdata3_codec = record {
  serialize = λ o. do
    pack_u32 o.specdata1
    pack_u32 o.specdata2;
  deserialize = λ old. do
    specdata1 ← unpack_u32
    specdata2 ← unpack_u32
    pure (record { specdata1 = specdata1; specdata2 = specdata2 });
}

instance abbrev pub specdata3_fresh : Fresh Specdata3
specdata3_fresh = record { fresh = record { specdata1 = 0; specdata2 = 0 } }

-- `type_` is a `ftype3`.
pub record Fattr3 : Type 0 where
  pub type_ : ℕ
  pub mode : ℕ
  pub nlink : ℕ
  pub uid : ℕ
  pub gid : ℕ
  pub size : ℕ
  pub used : ℕ
  pub rdev : Specdata3
  pub fsid : ℕ
  pub fileid : ℕ
  pub atime : Nfstime3
  pub mtime : Nfstime3
  pub ctime : Nfstime3

instance unfoldable pub fattr3_codec : Codec Fattr3
fattr3_codec = record {
  serialize = λ o. do
    pack_u32 o.type_
    pack_u32 o.mode
    pack_u32 o.nlink
    pack_u32 o.uid
    pack_u32 o.gid
    pack_u64 o.size
    pack_u64 o.used
    pack o.rdev
    pack_u64 o.fsid
    pack_u64 o.fileid
    pack o.atime
    pack o.mtime
    pack o.ctime;
  deserialize = λ old. do
    type_ ← unpack_u32
    mode ← unpack_u32
    nlink ← unpack_u32
    uid ← unpack_u32
    gid ← unpack_u32
    size ← unpack_u64
    used ← unpack_u64
    rdev ← unpack old.rdev
    fsid ← unpack_u64
    fileid ← unpack_u64
    atime ← unpack old.atime
    mtime ← unpack old.mtime
    ctime ← unpack old.ctime
    pure (record {
      type_ = type_;
      mode = mode;
      nlink = nlink;
      uid = uid;
      gid = gid;
      size = size;
      used = used;
      rdev = rdev;
      fsid = fsid;
      fileid = fileid;
      atime = atime;
      mtime = mtime;
      ctime = ctime;
    });
}

instance abbrev pub fattr3_fresh : Fresh Fattr3
fattr3_fresh = record {
  fresh = record {
    type_ = 0;
    mode = 0;
    nlink = 0;
    uid = 0;
    gid = 0;
    size = 0;
    used = 0;
    rdev = fresh;
    fsid = 0;
    fileid = 0;
    atime = fresh;
    mtime = fresh;
    ctime = fresh;
  };
}

pub record PostOpAttr : Type 0 where
  pub follow : Bool
  pub attributes : Fattr3

instance unfoldable pub post_op_attr_codec : Codec PostOpAttr
post_op_attr_codec = record {
  serialize = λ o. do
    pack_bool o.follow
    when o.follow (pack o.attributes);
  deserialize = λ old. do
    follow ← unpack_bool
    if follow
        then (do
          attributes ← unpack old.attributes
          pure (record { follow = follow; attributes = attributes }))
        else pure (record old { follow = follow });
}

instance abbrev pub post_op_attr_fresh : Fresh PostOpAttr
post_op_attr_fresh = record { fresh = record { follow = false; attributes = fresh } }

pub record WccAttr : Type 0 where
  pub size : ℕ
  pub mtime : Nfstime3
  pub ctime : Nfstime3

instance unfoldable pub wcc_attr_codec : Codec WccAttr
wcc_attr_codec = record {
  serialize = λ o. do
    pack_u64 o.size
    pack o.mtime
    pack o.ctime;
  deserialize = λ old. do
    size ← unpack_u64
    mtime ← unpack old.mtime
    ctime ← unpack old.ctime
    pure (record { size = size; mtime = mtime; ctime = ctime });
}

instance abbrev pub wcc_attr_fresh : Fresh WccAttr
wcc_attr_fresh = record { fresh = record { size = 0; mtime = fresh; ctime = fresh } }

pub record PreOpAttr : Type 0 where
  pub check : Bool
  pub attributes : WccAttr

instance unfoldable pub pre_op_attr_codec : Codec PreOpAttr
pre_op_attr_codec = record {
  serialize = λ o. do
    pack_bool o.check
    when o.check (pack o.attributes);
  deserialize = λ old. do
    check ← unpack_bool
    if check
        then (do
          attributes ← unpack old.attributes
          pure (record { check = check; attributes = attributes }))
        else pure (record old { check = check });
}

instance abbrev pub pre_op_attr_fresh : Fresh PreOpAttr
pre_op_attr_fresh = record { fresh = record { check = false; attributes = fresh } }

pub record WccData : Type 0 where
  pub before : PreOpAttr
  pub after : PostOpAttr

instance unfoldable pub wcc_data_codec : Codec WccData
wcc_data_codec = record {
  serialize = λ o. do
    pack o.before
    pack o.after;
  deserialize = λ old. do
    before ← unpack old.before
    after ← unpack old.after
    pure (record { before = before; after = after });
}

instance abbrev pub wcc_data_fresh : Fresh WccData
wcc_data_fresh = record { fresh = record { before = fresh; after = fresh } }
