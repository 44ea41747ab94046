-- ===== src/Tirpc/Layout.antt =====
-- What the functions of nfs3_rpc_tests/src/nfs3_xdr.cpp put on the wire, described over XdrBuffer:
-- its own `serialize` of nfs3_types.hpp for most of it, and what stands here for the objects that
-- the two write differently: the attributes to set, the verifiers and the directory listings.
use nfstest.Prelude.{List, Option, ◌==◌}
use nfstest.Xdr.Word.{Endianness, bytes_of64}
use nfstest.Xdr.Buffer.{M, ◌>>◌, pack_u32, pack_u64, pack_bool, pack_string, insert}
use nfstest.Xdr.Codec.{Codec, pack, when, pack_present, has_value}
use nfstest.Nfs.Attributes.{nfs_fh3_codec, nfstime3_codec, post_op_attr_codec}
use nfstest.Nfs.SetAttributes.{Sattr3, Setattr3Args}
use nfstest.Nfs.Transfer.{Write3Resok, Commit3Resok}
use nfstest.Nfs.Create.{exclusive, Create3Args, Mkdir3Args}
use nfstest.Nfs.MakeNode.{Symlink3Args, Mknod3Args}
use nfstest.Nfs.Directory.{
  entry3_codec, entryplus3_codec, Readdir3Args, Readdir3Resok, Readdirplus3Args, Readdirplus3Resok,
}
use nfstest.Nfs.Chain.{is_set, pack_chain}
use nfstest.Nfs.Reply.{Res, nfs3_ok}
use nfstest.Nfs.Procedure.{Procedure, Args, Reply, args_codec, reply_codec}

-- A flag, and the member if it is set.
abbrev pub optional_layout : {A : Type 0} → (A → M (Unit {0})) → Option A → M (Unit {0})
optional_layout member v = do pack_bool (has_value v); pack_present member v

-- Each member of the attributes stands behind its flag; `serialize` writes the number 2^32 - 1 for
-- a mode, an owner or a group that is not set.
abbrev pub sattr3_layout : Sattr3 → M (Unit {0})
sattr3_layout o = do
  optional_layout pack_u32 o.mode
  optional_layout pack_u32 o.uid
  optional_layout pack_u32 o.gid
  optional_layout pack_u64 o.size
  optional_layout pack o.atime
  optional_layout pack o.mtime

abbrev pub setattr3_args_layout : Setattr3Args → M (Unit {0})
setattr3_args_layout o = do
  pack o.object
  sattr3_layout o.new_attributes
  optional_layout pack o.guard

abbrev pub create3_args_layout : Create3Args → M (Unit {0})
create3_args_layout o = do
  pack o.where_dir
  pack_string o.where_name
  pack_u32 o.how_mode
  sattr3_layout o.how_attributes
  when (o.how_mode == exclusive) (insert o.how_verf.data_bytes)

abbrev pub mkdir3_args_layout : Mkdir3Args → M (Unit {0})
mkdir3_args_layout o = do pack o.where_dir; pack_string o.where_name; sattr3_layout o.attributes

abbrev pub symlink3_args_layout : Symlink3Args → M (Unit {0})
symlink3_args_layout o = do
  pack o.where_dir
  pack_string o.where_name
  sattr3_layout o.symlink_attributes
  pack_string o.symlink_data

abbrev pub mknod3_args_layout : Mknod3Args → M (Unit {0})
mknod3_args_layout o = do
  pack o.where_dir
  pack_string o.where_name
  pack_u32 o.what_type
  sattr3_layout o.what_attributes

-- The verifier of a listing is in the byte order of the host.
abbrev pub readdir3_args_layout : Endianness → Readdir3Args → M (Unit {0})
readdir3_args_layout host o = do
  pack o.dir
  pack_u64 o.cookie
  insert (bytes_of64 host o.cookieverf)
  pack_u32 o.count

abbrev pub readdirplus3_args_layout : Endianness → Readdirplus3Args → M (Unit {0})
readdirplus3_args_layout host o = do
  pack o.dir
  pack_u64 o.cookie
  insert (bytes_of64 host o.cookieverf)
  pack_u32 o.dircount
  pack_u32 o.maxcount

abbrev pub write3_resok_layout : Write3Resok → M (Unit {0})
write3_resok_layout o = do
  pack o.file_attributes
  pack_u32 o.count
  pack_u32 o.committed
  insert o.verf.data_bytes

abbrev pub commit3_resok_layout : Commit3Resok → M (Unit {0})
commit3_resok_layout o = do pack o.file_wcc; insert o.verf.data_bytes

-- A list of entries, each behind a set flag, and a zero flag.
abbrev pub list_layout : {A : Type 0} ⦃c : Codec A⦄ → List A → M (Unit {0})
list_layout entries = do pack_bool (is_set entries); pack_chain entries

abbrev pub readdir3_resok_layout : Endianness → Readdir3Resok → M (Unit {0})
readdir3_resok_layout host o = do
  pack o.dir_attributes
  insert (bytes_of64 host o.cookieverf)
  do list_layout o.reply.entries; pack_bool o.reply.eof

abbrev pub readdirplus3_resok_layout : Endianness → Readdirplus3Resok → M (Unit {0})
readdirplus3_resok_layout host o = do
  pack o.dir_attributes
  insert (bytes_of64 host o.cookieverf)
  do list_layout o.reply.entries; pack_bool o.reply.eof

abbrev pub res_layout : {A : Type 0} → (A → M (Unit {0})) → Res A → M (Unit {0})
res_layout resok_layout o = do
  pack_u32 o.status
  when (o.status == nfs3_ok) (pack_present resok_layout o.resok)

abbrev pub args_layout : Endianness → (p : Procedure) → Args p → M (Unit {0})
args_layout host Procedure.setattr o = setattr3_args_layout o
args_layout host Procedure.create o = create3_args_layout o
args_layout host Procedure.mkdir o = mkdir3_args_layout o
args_layout host Procedure.symlink o = symlink3_args_layout o
args_layout host Procedure.mknod o = mknod3_args_layout o
args_layout host Procedure.readdir o = readdir3_args_layout host o
args_layout host Procedure.readdirplus o = readdirplus3_args_layout host o
args_layout host p o = (args_codec p).serialize o

abbrev pub reply_layout : Endianness → (p : Procedure) → Reply p → M (Unit {0})
reply_layout host Procedure.write o = res_layout write3_resok_layout o
reply_layout host Procedure.commit o = res_layout commit3_resok_layout o
reply_layout host Procedure.readdir o = res_layout (readdir3_resok_layout host) o
reply_layout host Procedure.readdirplus o = res_layout (readdirplus3_resok_layout host) o
reply_layout host p o = (reply_codec p).serialize o
