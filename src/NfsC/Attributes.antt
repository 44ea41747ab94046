-- ===== src/NfsC/Attributes.antt =====
-- Attributes: nfs3_rpc_tests_c/src/nfs3_xdr.c over the structures of include/nfs3_c/nfs3_types.h.
-- The structures have the members of those of the C++ program, so the same records stand for them.
-- The functions that unpack look at no result: a member that was not read keeps its old value, and a
-- variable that has none is an undefined one.
use nfstest.Prelude.{Bool, Option, none, some, if◌then◌else◌}
use nfstest.Nfs.Attributes.{Nfstime3, Specdata3, Fattr3, PostOpAttr, WccAttr, PreOpAttr, WccData}
use nfstest.XdrC.Growth.{M, fault, pure, ◌>>=◌, ◌>>◌}
use nfstest.XdrC.Codec.{
  xdr_pack_uint32, xdr_pack_uint64, xdr_pack_bool, xdr_unpack_uint32, xdr_unpack_uint64,
  xdr_unpack_bool,
}

-- `if (flag) ...`
abbrev pub when : Bool → M (Unit {0}) → M (Unit {0})
when flag m = if flag then m else pure tt

module _ {A : Type 0} where
  -- `xdr_unpack_...(buf, &member)` into a member with this value.
  abbrev pub kept : A → Option A → A
  kept old none = old
  kept old (some a) = a

  unfoldable pub into : A → M (Option A) → M A
  unfolding ◌>>=◌ pure
  into old r = do a ← r; pure (kept old a)

  -- The same into a variable that has no value yet, which is used then.
  abbrev pub given : Option A → M A
  unfolding pure
  given none = λ e h b. fault
  given (some a) = pure a

  unfoldable pub into_new : M (Option A) → M A
  unfolding ◌>>=◌
  into_new r = do a ← r; given a

unfoldable pub xdr_pack_nfstime3 : Nfstime3 → M (Unit {0})
unfolding ◌>>=◌ ◌>>◌
xdr_pack_nfstime3 t = do xdr_pack_uint32 t.seconds; xdr_pack_uint32 t.nseconds

unfoldable pub xdr_unpack_nfstime3 : Nfstime3 → M Nfstime3
unfolding ◌>>=◌ pure
xdr_unpack_nfstime3 t = do
  seconds ← into t.seconds xdr_unpack_uint32
  nseconds ← into t.nseconds xdr_unpack_uint32
  pure (record { seconds = seconds; nseconds = nseconds })

unfoldable pub xdr_pack_specdata3 : Specdata3 → M (Unit {0})
unfolding ◌>>=◌ ◌>>◌
xdr_pack_specdata3 s = do xdr_pack_uint32 s.specdata1; xdr_pack_uint32 s.specdata2

unfoldable pub xdr_unpack_specdata3 : Specdata3 → M Specdata3
unfolding ◌>>=◌ pure
xdr_unpack_specdata3 s = do
  specdata1 ← into s.specdata1 xdr_unpack_uint32
  specdata2 ← into s.specdata2 xdr_unpack_uint32
  pure (record { specdata1 = specdata1; specdata2 = specdata2 })

unfoldable pub xdr_pack_fattr3 : Fattr3 → M (Unit {0})
unfolding ◌>>=◌ ◌>>◌
xdr_pack_fattr3 attr = do
  xdr_pack_uint32 attr.type_
  xdr_pack_uint32 attr.mode
  xdr_pack_uint32 attr.nlink
  xdr_pack_uint32 attr.uid
  xdr_pack_uint32 attr.gid
  xdr_pack_uint64 attr.size
  xdr_pack_uint64 attr.used
  xdr_pack_specdata3 attr.rdev
  xdr_pack_uint64 attr.fsid
  xdr_pack_uint64 attr.fileid
  xdr_pack_nfstime3 attr.atime
  xdr_pack_nfstime3 attr.mtime
  xdr_pack_nfstime3 attr.ctime

unfoldable pub xdr_unpack_fattr3 : Fattr3 → M Fattr3
unfolding ◌>>=◌ pure
xdr_unpack_fattr3 attr = do
  type_val ← into_new xdr_unpack_uint32
  mode ← into attr.mode xdr_unpack_uint32
  nlink ← into attr.nlink xdr_unpack_uint32
  uid ← into attr.uid xdr_unpack_uint32
  gid ← into attr.gid xdr_unpack_uint32
  size ← into attr.size xdr_unpack_uint64
  used ← into attr.used xdr_unpack_uint64
  rdev ← xdr_unpack_specdata3 attr.rdev
  fsid ← into attr.fsid xdr_unpack_uint64
  fileid ← into attr.fileid xdr_unpack_uint64
  atime ← xdr_unpack_nfstime3 attr.atime
  mtime ← xdr_unpack_nfstime3 attr.mtime
  ctime ← xdr_unpack_nfstime3 attr.ctime
  pure (record {
    type_ = type_val;
    mode = mode;
    nlink = nlink;
    uid = uid;
    gid = gid;
    size = size;
    used = used;
    rdev = rdev;
    fsid = fsid;
    fileid = fileid;
    atime = atime;
    mtime = mtime;
    ctime = ctime;
  })

unfoldable pub xdr_pack_post_op_attr : PostOpAttr → M (Unit {0})
unfolding ◌>>=◌ ◌>>◌ pure
xdr_pack_post_op_attr a = do xdr_pack_bool a.follow; when a.follow (xdr_pack_fattr3 a.attributes)

unfoldable pub xdr_unpack_post_op_attr : PostOpAttr → M PostOpAttr
unfolding ◌>>=◌ pure
xdr_unpack_post_op_attr a = do
  follow ← into a.follow xdr_unpack_bool
  if follow
      then (do
        attributes ← xdr_unpack_fattr3 a.attributes
        pure (record { follow = follow; attributes = attributes }))
      else pure (record a { follow = follow })

unfoldable pub xdr_pack_wcc_attr : WccAttr → M (Unit {0})
unfolding ◌>>=◌ ◌>>◌
xdr_pack_wcc_attr a = do
  xdr_pack_uint64 a.size
  xdr_pack_nfstime3 a.mtime
  xdr_pack_nfstime3 a.ctime

unfoldable pub xdr_unpack_wcc_attr : WccAttr → M WccAttr
unfolding ◌>>=◌ pure
xdr_unpack_wcc_attr a = do
  size ← into a.size xdr_unpack_uint64
  mtime ← xdr_unpack_nfstime3 a.mtime
  ctime ← xdr_unpack_nfstime3 a.ctime
  pure (record { size = size; mtime = mtime; ctime = ctime })

unfoldable pub xdr_pack_pre_op_attr : PreOpAttr → M (Unit {0})
unfolding ◌>>=◌ ◌>>◌ pure
xdr_pack_pre_op_attr a = do xdr_pack_bool a.check; when a.check (xdr_pack_wcc_attr a.attributes)

unfoldable pub xdr_unpack_pre_op_attr : PreOpAttr → M PreOpAttr
unfolding ◌>>=◌ pure
xdr_unpack_pre_op_attr a = do
  check ← into a.check xdr_unpack_bool
  if check
      then (do
        attributes ← xdr_unpack_wcc_attr a.attributes
        pure (record { check = check; attributes = attributes }))
      else pure (record a { check = check })

unfoldable pub xdr_pack_wcc_data : WccData → M (Unit {0})
unfolding ◌>>=◌ ◌>>◌
xdr_pack_wcc_data d = do xdr_pack_pre_op_attr d.before; xdr_pack_post_op_attr d.after

unfoldable pub xdr_unpack_wcc_data : WccData → M WccData
unfolding ◌>>=◌ pure
xdr_unpack_wcc_data d = do
  before ← xdr_unpack_pre_op_attr d.before
  after ← xdr_unpack_post_op_attr d.after
  pure (record { before = before; after = after })
