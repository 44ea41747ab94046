-- ===== src/Nfs/Directory.antt =====
-- The READDIR and READDIRPLUS procedures.
pub mod RoundTrip
pub mod Safety
use nfstest.Prelude.{
  ℕ, ◌+◌, ◌*◌, ◌≤◌, ◌<◌, ◌≡◌, refl, sym, ap, Bool, true, false, not, ◌&&◌, List, [], ◌∷◌, ◌++◌,
  Option, none, some, ◌==◌, if◌then◌else◌, Cases, take, leb, length, arith,
}
use nfstest.Xdr.Int.{ℤ, pos}
use nfstest.Xdr.Buffer.{
  M, pure, ◌>>=◌, ◌>>◌, pack_u32, pack_i32, pack_u64, pack_bool, pack_bytes, pack_string,
  unpack_u32, unpack_i32, unpack_u64, unpack_bool, unpack_bytes, unpack_string,
}
use nfstest.Xdr.Codec.{
  Codec, Fresh, pack, unpack, fresh, when, pack_present, unpack_present, has_value,
}
use nfstest.Nfs.Chain.{is_set, pack_chain, unpack_entries}
use nfstest.Nfs.Attributes.{
  NfsFh3, nfs_fh3_codec, nfs_fh3_fresh, PostOpAttr, post_op_attr_codec, post_op_attr_fresh,
}

pub record Entry3 : Type 0 where
  pub fileid : ℕ
  pub name : List ℕ
  pub cookie : ℕ

instance unfoldable pub entry3_codec : Codec Entry3
entry3_codec = record {
  serialize = λ o. do
    pack_u64 o.fileid
    pack_string o.name
    pack_u64 o.cookie;
  deserialize = λ old. do
    fileid ← unpack_u64
    name ← unpack_string
    cookie ← unpack_u64
    pure (record { fileid = fileid; name = name; cookie = cookie });
}

instance abbrev pub entry3_fresh : Fresh Entry3
entry3_fresh = record { fresh = record { fileid = 0; name = []; cookie = 0 } }

pub record Dirlist3 : Type 0 where
  pub entries : List Entry3
  pub eof : Bool

instance unfoldable pub dirlist3_codec : Codec Dirlist3
dirlist3_codec = record {
  serialize = λ o. do
    pack_bool (is_set o.entries)
    pack_chain o.entries
    pack_bool o.eof;
  deserialize = λ old. do
    has_entries ← unpack_bool
    entries ← (if has_entries then unpack_entries else pure old.entries)
    eof ← unpack_bool
    pure (record { entries = entries; eof = eof });
}

instance abbrev pub dirlist3_fresh : Fresh Dirlist3
dirlist3_fresh = record { fresh = record { entries = []; eof = false } }

pub record Readdir3Args : Type 0 where
  pub dir : NfsFh3
  pub cookie : ℕ
  pub cookieverf : ℕ
  pub count : ℕ

instance unfoldable pub readdir3_args_codec : Codec Readdir3Args
readdir3_args_codec = record {
  serialize = λ o. do
    pack o.dir
    pack_u64 o.cookie
    pack_u64 o.cookieverf
    pack_u32 o.count;
  deserialize = λ old. do
    dir ← unpack old.dir
    cookie ← unpack_u64
    cookieverf ← unpack_u64
    count ← unpack_u32
    pure (record { dir = dir; cookie = cookie; cookieverf = cookieverf; count = count });
}

instance abbrev pub readdir3_args_fresh : Fresh Readdir3Args
readdir3_args_fresh = record {
  fresh = record { dir = fresh; cookie = 0; cookieverf = 0; count = 0 };
}

pub record Readdir3Resok : Type 0 where
  pub dir_attributes : PostOpAttr
  pub cookieverf : ℕ
  pub reply : Dirlist3

instance unfoldable pub readdir3_resok_codec : Codec Readdir3Resok
readdir3_resok_codec = record {
  serialize = λ o. do
    pack o.dir_attributes
    pack_u64 o.cookieverf
    pack o.reply;
  deserialize = λ old. do
    dir_attributes ← unpack old.dir_attributes
    cookieverf ← unpack_u64
    reply ← unpack old.reply
    pure (record { dir_attributes = dir_attributes; cookieverf = cookieverf; reply = reply });
}

instance abbrev pub readdir3_resok_fresh : Fresh Readdir3Resok
readdir3_resok_fresh = record {
  fresh = record { dir_attributes = fresh; cookieverf = 0; reply = fresh };
}

pub record Entryplus3 : Type 0 where
  pub fileid : ℕ
  pub name : List ℕ
  pub cookie : ℕ
  pub name_handle : NfsFh3
  pub name_attributes : PostOpAttr

instance unfoldable pub entryplus3_codec : Codec Entryplus3
entryplus3_codec = record {
  serialize = λ o. do
    pack_u64 o.fileid
    pack_string o.name
    pack_u64 o.cookie
    pack o.name_handle
    pack o.name_attributes;
  deserialize = λ old. do
    fileid ← unpack_u64
    name ← unpack_string
    cookie ← unpack_u64
    name_handle ← unpack old.name_handle
    name_attributes ← unpack old.name_attributes
    pure (record {
      fileid = fileid;
      name = name;
      cookie = cookie;
      name_handle = name_handle;
      name_attributes = name_attributes;
    });
}

instance abbrev pub entryplus3_fresh : Fresh Entryplus3
entryplus3_fresh = record {
  fresh = record {
    fileid = 0;
    name = [];
    cookie = 0;
    name_handle = fresh;
    name_attributes = fresh;
  };
}

pub record Dirlistplus3 : Type 0 where
  pub entries : List Entryplus3
  pub eof : Bool

instance unfoldable pub dirlistplus3_codec : Codec Dirlistplus3
dirlistplus3_codec = record {
  serialize = λ o. do
    pack_bool (is_set o.entries)
    pack_chain o.entries
    pack_bool o.eof;
  deserialize = λ old. do
    has_entries ← unpack_bool
    entries ← (if has_entries then unpack_entries else pure old.entries)
    eof ← unpack_bool
    pure (record { entries = entries; eof = eof });
}

instance abbrev pub dirlistplus3_fresh : Fresh Dirlistplus3
dirlistplus3_fresh = record { fresh = record { entries = []; eof = false } }

pub record Readdirplus3Args : Type 0 where
  pub dir : NfsFh3
  pub cookie : ℕ
  pub cookieverf : ℕ
  pub dircount : ℕ
  pub maxcount : ℕ

instance unfoldable pub readdirplus3_args_codec : Codec Readdirplus3Args
readdirplus3_args_codec = record {
  serialize = λ o. do
    pack o.dir
    pack_u64 o.cookie
    pack_u64 o.cookieverf
    pack_u32 o.dircount
    pack_u32 o.maxcount;
  deserialize = λ old. do
    dir ← unpack old.dir
    cookie ← unpack_u64
    cookieverf ← unpack_u64
    dircount ← unpack_u32
    maxcount ← unpack_u32
    pure (record {
      dir = dir;
      cookie = cookie;
      cookieverf = cookieverf;
      dircount = dircount;
      maxcount = maxcount;
    });
}

instance abbrev pub readdirplus3_args_fresh : Fresh Readdirplus3Args
readdirplus3_args_fresh = record {
  fresh = record { dir = fresh; cookie = 0; cookieverf = 0; dircount = 0; maxcount = 0 };
}

pub record Readdirplus3Resok : Type 0 where
  pub dir_attributes : PostOpAttr
  pub cookieverf : ℕ
  pub reply : Dirlistplus3

instance unfoldable pub readdirplus3_resok_codec : Codec Readdirplus3Resok
readdirplus3_resok_codec = record {
  serialize = λ o. do
    pack o.dir_attributes
    pack_u64 o.cookieverf
    pack o.reply;
  deserialize = λ old. do
    dir_attributes ← unpack old.dir_attributes
    cookieverf ← unpack_u64
    reply ← unpack old.reply
    pure (record { dir_attributes = dir_attributes; cookieverf = cookieverf; reply = reply });
}

instance abbrev pub readdirplus3_resok_fresh : Fresh Readdirplus3Resok
readdirplus3_resok_fresh = record {
  fresh = record { dir_attributes = fresh; cookieverf = 0; reply = fresh };
}
