-- ===== src/Tirpc/Attributes.antt =====
-- Handles, verifiers and attributes: nfs3_rpc_tests/src/nfs3_xdr.cpp, lines 6-121.
use nfstest.Prelude.{if◌then◌else◌}
use nfstest.Nfs.Attributes.{
  NfsFh3, Nfstime3, Specdata3, Fattr3, PostOpAttr, WccAttr, PreOpAttr, WccData,
}
use nfstest.Nfs.Transfer.{Writeverf3}
use nfstest.Nfs.Create.{Createverf3}
use nfstest.Tirpc.Stream.{Op, encode, decode, release, M, pure, ◌>>=◌, ◌>>◌, null, to, XdrLib}
use nfstest.Tirpc.Idioms.{xdr_enum, xdr_flag, counted}

module _ ⦃lib : XdrLib⦄ where
  unfoldable pub xdr_specdata3 : Op → Specdata3 → M lib.Stream Specdata3
  xdr_specdata3 op o = do
    specdata1 ← lib.xdr_u_int op o.specdata1
    specdata2 ← lib.xdr_u_int op o.specdata2
    pure (record { specdata1 = specdata1; specdata2 = specdata2 })

  unfoldable pub xdr_nfstime3 : Op → Nfstime3 → M lib.Stream Nfstime3
  xdr_nfstime3 op o = do
    seconds ← lib.xdr_u_int op o.seconds
    nseconds ← lib.xdr_u_int op o.nseconds
    pure (record { seconds = seconds; nseconds = nseconds })

  unfoldable pub xdr_writeverf3 : Op → Writeverf3 → M lib.Stream Writeverf3
  xdr_writeverf3 op o = do
    data_bytes ← lib.xdr_opaque op o.data_bytes 8
    pure (record { data_bytes = data_bytes })

  unfoldable pub xdr_createverf3 : Op → Createverf3 → M lib.Stream Createverf3
  xdr_createverf3 op o = do
    data_bytes ← lib.xdr_opaque op o.data_bytes 8
    pure (record { data_bytes = data_bytes })

  unfoldable pub xdr_nfs_fh3 : Op → NfsFh3 → M lib.Stream NfsFh3
  unfolding counted
  xdr_nfs_fh3 encode o = do lib.xdr_bytes encode (to (counted o.data_bytes)) 64; pure o
  xdr_nfs_fh3 decode o = do ptr ← lib.xdr_bytes decode null 64; pure (record { data_bytes = ptr })
  xdr_nfs_fh3 release o = pure o

  unfoldable pub xdr_fattr3 : Op → Fattr3 → M lib.Stream Fattr3
  xdr_fattr3 op o = do
    type_ ← xdr_enum op o.type_
    mode ← lib.xdr_u_int op o.mode
    nlink ← lib.xdr_u_int op o.nlink
    uid ← lib.xdr_u_int op o.uid
    gid ← lib.xdr_u_int op o.gid
    size ← lib.xdr_u_hyper op o.size
    used ← lib.xdr_u_hyper op o.used
    rdev ← xdr_specdata3 op o.rdev
    fsid ← lib.xdr_u_hyper op o.fsid
    fileid ← lib.xdr_u_hyper op o.fileid
    atime ← xdr_nfstime3 op o.atime
    mtime ← xdr_nfstime3 op o.mtime
    ctime ← xdr_nfstime3 op o.ctime
    pure (record {
      type_ = type_;
      mode = mode;
      nlink = nlink;
      uid = uid;
      gid = gid;
      size = size;
      used = used;
      rdev = rdev;
      fsid = fsid;
      fileid = fileid;
      atime = atime;
      mtime = mtime;
      ctime = ctime;
    })

  unfoldable pub xdr_post_op_attr : Op → PostOpAttr → M lib.Stream PostOpAttr
  xdr_post_op_attr op o = do
    follow ← xdr_flag op o.follow
    if follow
        then (do
          attributes ← xdr_fattr3 op o.attributes
          pure (record { follow = follow; attributes = attributes }))
        else pure (record o { follow = follow })

  unfoldable pub xdr_wcc_attr : Op → WccAttr → M lib.Stream WccAttr
  xdr_wcc_attr op o = do
    size ← lib.xdr_u_hyper op o.size
    mtime ← xdr_nfstime3 op o.mtime
    ctime ← xdr_nfstime3 op o.ctime
    pure (record { size = size; mtime = mtime; ctime = ctime })

  unfoldable pub xdr_pre_op_attr : Op → PreOpAttr → M lib.Stream PreOpAttr
  xdr_pre_op_attr op o = do
    check ← xdr_flag op o.check
    if check
        then (do
          attributes ← xdr_wcc_attr op o.attributes
          pure (record { check = check; attributes = attributes }))
        else pure (record o { check = check })

  unfoldable pub xdr_wcc_data : Op → WccData → M lib.Stream WccData
  xdr_wcc_data op o = do
    before ← xdr_pre_op_attr op o.before
    after ← xdr_post_op_attr op o.after
    pure (record { before = before; after = after })
