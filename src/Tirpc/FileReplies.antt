-- ===== src/Tirpc/FileReplies.antt =====
-- The replies of the procedures on one file: nfs3_rpc_tests/src/nfs3_xdr.cpp.
use nfstest.Tirpc.Stream.{Op, M, pure, ◌>>=◌, XdrLib}
use nfstest.Tirpc.Idioms.{xdr_enum, xdr_flag, xdr_text, xdr_data, xdr_res, xdr_res_value}
use nfstest.Tirpc.Attributes.{
  xdr_nfs_fh3, xdr_fattr3, xdr_post_op_attr, xdr_wcc_data, xdr_writeverf3,
}
use nfstest.Nfs.Attributes.{nfs_fh3_fresh}
use nfstest.Nfs.Reply.{Res}
use nfstest.Nfs.Lookup.{
  Getattr3Resok, getattr3_resok_fresh, Lookup3Resok, lookup3_resok_fresh, Access3Resok,
  access3_resok_fresh, Readlink3Resok, readlink3_resok_fresh,
}
use nfstest.Nfs.SetAttributes.{Setattr3Resok, setattr3_resok_fresh}
use nfstest.Nfs.Transfer.{
  Read3Resok, read3_resok_fresh, Write3Resok, write3_resok_fresh, Commit3Resok, commit3_resok_fresh,
}

module _ ⦃lib : XdrLib⦄ where
  unfoldable pub xdr_getattr3_resok : Op → Getattr3Resok → M lib.Stream Getattr3Resok
  xdr_getattr3_resok op o = do
    obj_attributes ← xdr_fattr3 op o.obj_attributes
    pure (record { obj_attributes = obj_attributes })

  unfoldable pub xdr_getattr3_res : Op → Res Getattr3Resok → M lib.Stream (Res Getattr3Resok)
  unfolding xdr_res_value
  xdr_getattr3_res = xdr_res_value xdr_getattr3_resok

  unfoldable pub xdr_setattr3_resok : Op → Setattr3Resok → M lib.Stream Setattr3Resok
  xdr_setattr3_resok op o = do
    obj_wcc ← xdr_wcc_data op o.obj_wcc
    pure (record { obj_wcc = obj_wcc })

  unfoldable pub xdr_setattr3_res : Op → Res Setattr3Resok → M lib.Stream (Res Setattr3Resok)
  unfolding xdr_res_value
  xdr_setattr3_res = xdr_res_value xdr_setattr3_resok

  unfoldable pub xdr_lookup3_resok : Op → Lookup3Resok → M lib.Stream Lookup3Resok
  xdr_lookup3_resok op o = do
    object ← xdr_nfs_fh3 op o.object
    obj_attributes ← xdr_post_op_attr op o.obj_attributes
    dir_attributes ← xdr_post_op_attr op o.dir_attributes
    pure (record {
      object = object;
      obj_attributes = obj_attributes;
      dir_attributes = dir_attributes;
    })

  unfoldable pub xdr_lookup3_res : Op → Res Lookup3Resok → M lib.Stream (Res Lookup3Resok)
  unfolding xdr_res
  xdr_lookup3_res = xdr_res xdr_lookup3_resok

  unfoldable pub xdr_access3_resok : Op → Access3Resok → M lib.Stream Access3Resok
  xdr_access3_resok op o = do
    obj_attributes ← xdr_post_op_attr op o.obj_attributes
    access ← lib.xdr_u_int op o.access
    pure (record { obj_attributes = obj_attributes; access = access })

  unfoldable pub xdr_access3_res : Op → Res Access3Resok → M lib.Stream (Res Access3Resok)
  unfolding xdr_res
  xdr_access3_res = xdr_res xdr_access3_resok

  unfoldable pub xdr_readlink3_resok : Op → Readlink3Resok → M lib.Stream Readlink3Resok
  xdr_readlink3_resok op o = do
    symlink_attributes ← xdr_post_op_attr op o.symlink_attributes
    data_bytes ← xdr_text op o.data_bytes 4096
    pure (record { symlink_attributes = symlink_attributes; data_bytes = data_bytes })

  unfoldable pub xdr_readlink3_res : Op → Res Readlink3Resok → M lib.Stream (Res Readlink3Resok)
  unfolding xdr_res
  xdr_readlink3_res = xdr_res xdr_readlink3_resok

  unfoldable pub xdr_read3_resok : Op → Read3Resok → M lib.Stream Read3Resok
  xdr_read3_resok op o = do
    file_attributes ← xdr_post_op_attr op o.file_attributes
    count ← lib.xdr_u_hyper op o.count
    eof ← xdr_flag op o.eof
    data_bytes ← xdr_data op o.data_bytes 65536
    pure (record {
      file_attributes = file_attributes;
      count = count;
      eof = eof;
      data_bytes = data_bytes;
    })

  unfoldable pub xdr_read3_res : Op → Res Read3Resok → M lib.Stream (Res Read3Resok)
  unfolding xdr_res
  xdr_read3_res = xdr_res xdr_read3_resok

  unfoldable pub xdr_write3_resok : Op → Write3Resok → M lib.Stream Write3Resok
  xdr_write3_resok op o = do
    file_attributes ← xdr_post_op_attr op o.file_attributes
    count ← lib.xdr_u_int op o.count
    committed ← xdr_enum op o.committed
    verf ← xdr_writeverf3 op o.verf
    pure (record {
      file_attributes = file_attributes;
      count = count;
      committed = committed;
      verf = verf;
    })

  unfoldable pub xdr_write3_res : Op → Res Write3Resok → M lib.Stream (Res Write3Resok)
  unfolding xdr_res
  xdr_write3_res = xdr_res xdr_write3_resok

  unfoldable pub xdr_commit3_resok : Op → Commit3Resok → M lib.Stream Commit3Resok
  xdr_commit3_resok op o = do
    file_wcc ← xdr_post_op_attr op o.file_wcc
    verf ← xdr_writeverf3 op o.verf
    pure (record { file_wcc = file_wcc; verf = verf })

  unfoldable pub xdr_commit3_res : Op → Res Commit3Resok → M lib.Stream (Res Commit3Resok)
  unfolding xdr_res
  xdr_commit3_res = xdr_res xdr_commit3_resok
