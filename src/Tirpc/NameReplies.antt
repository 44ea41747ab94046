-- ===== src/Tirpc/NameReplies.antt =====
-- The replies of the procedures on names: nfs3_rpc_tests/src/nfs3_xdr.cpp.
use nfstest.Tirpc.Stream.{Op, M, pure, ◌>>=◌, XdrLib}
use nfstest.Tirpc.Idioms.{xdr_res}
use nfstest.Tirpc.Attributes.{xdr_nfs_fh3, xdr_post_op_attr, xdr_wcc_data}
use nfstest.Nfs.Attributes.{nfs_fh3_fresh}
use nfstest.Nfs.Reply.{Res}
use nfstest.Nfs.Create.{Create3Resok, create3_resok_fresh, Mkdir3Resok, mkdir3_resok_fresh}
use nfstest.Nfs.MakeNode.{Symlink3Resok, symlink3_resok_fresh, Mknod3Resok, mknod3_resok_fresh}
use nfstest.Nfs.Names.{
  Remove3Resok, remove3_resok_fresh, Rmdir3Resok, rmdir3_resok_fresh, Rename3Resok,
  rename3_resok_fresh, Link3Resok, link3_resok_fresh,
}

module _ ⦃lib : XdrLib⦄ where
  unfoldable pub xdr_create3_resok : Op → Create3Resok → M lib.Stream Create3Resok
  xdr_create3_resok op o = do
    obj_attributes ← xdr_post_op_attr op o.obj_attributes
    dir_wcc ← xdr_wcc_data op o.dir_wcc
    object ← xdr_nfs_fh3 op o.object
    pure (record { obj_attributes = obj_attributes; dir_wcc = dir_wcc; object = object })

  unfoldable pub xdr_create3_res : Op → Res Create3Resok → M lib.Stream (Res Create3Resok)
  unfolding xdr_res
  xdr_create3_res = xdr_res xdr_create3_resok

  unfoldable pub xdr_mkdir3_resok : Op → Mkdir3Resok → M lib.Stream Mkdir3Resok
  xdr_mkdir3_resok op o = do
    obj_attributes ← xdr_post_op_attr op o.obj_attributes
    dir_wcc ← xdr_wcc_data op o.dir_wcc
    object ← xdr_nfs_fh3 op o.object
    pure (record { obj_attributes = obj_attributes; dir_wcc = dir_wcc; object = object })

  unfoldable pub xdr_mkdir3_res : Op → Res Mkdir3Resok → M lib.Stream (Res Mkdir3Resok)
  unfolding xdr_res
  xdr_mkdir3_res = xdr_res xdr_mkdir3_resok

  unfoldable pub xdr_symlink3_resok : Op → Symlink3Resok → M lib.Stream Symlink3Resok
  xdr_symlink3_resok op o = do
    obj_attributes ← xdr_post_op_attr op o.obj_attributes
    dir_wcc ← xdr_wcc_data op o.dir_wcc
    object ← xdr_nfs_fh3 op o.object
    pure (record { obj_attributes = obj_attributes; dir_wcc = dir_wcc; object = object })

  unfoldable pub xdr_symlink3_res : Op → Res Symlink3Resok → M lib.Stream (Res Symlink3Resok)
  unfolding xdr_res
  xdr_symlink3_res = xdr_res xdr_symlink3_resok

  unfoldable pub xdr_mknod3_resok : Op → Mknod3Resok → M lib.Stream Mknod3Resok
  xdr_mknod3_resok op o = do
    obj_attributes ← xdr_post_op_attr op o.obj_attributes
    dir_wcc ← xdr_wcc_data op o.dir_wcc
    object ← xdr_nfs_fh3 op o.object
    pure (record { obj_attributes = obj_attributes; dir_wcc = dir_wcc; object = object })

  unfoldable pub xdr_mknod3_res : Op → Res Mknod3Resok → M lib.Stream (Res Mknod3Resok)
  unfolding xdr_res
  xdr_mknod3_res = xdr_res xdr_mknod3_resok

  unfoldable pub xdr_remove3_resok : Op → Remove3Resok → M lib.Stream Remove3Resok
  xdr_remove3_resok op o = do
    dir_wcc ← xdr_wcc_data op o.dir_wcc
    pure (record { dir_wcc = dir_wcc })

  unfoldable pub xdr_remove3_res : Op → Res Remove3Resok → M lib.Stream (Res Remove3Resok)
  unfolding xdr_res
  xdr_remove3_res = xdr_res xdr_remove3_resok

  unfoldable pub xdr_rmdir3_resok : Op → Rmdir3Resok → M lib.Stream Rmdir3Resok
  xdr_rmdir3_resok op o = do
    dir_wcc ← xdr_wcc_data op o.dir_wcc
    pure (record { dir_wcc = dir_wcc })

  unfoldable pub xdr_rmdir3_res : Op → Res Rmdir3Resok → M lib.Stream (Res Rmdir3Resok)
  unfolding xdr_res
  xdr_rmdir3_res = xdr_res xdr_rmdir3_resok

  unfoldable pub xdr_rename3_resok : Op → Rename3Resok → M lib.Stream Rename3Resok
  xdr_rename3_resok op o = do
    fromdir_wcc ← xdr_wcc_data op o.fromdir_wcc
    todir_wcc ← xdr_wcc_data op o.todir_wcc
    pure (record { fromdir_wcc = fromdir_wcc; todir_wcc = todir_wcc })

  unfoldable pub xdr_rename3_res : Op → Res Rename3Resok → M lib.Stream (Res Rename3Resok)
  unfolding xdr_res
  xdr_rename3_res = xdr_res xdr_rename3_resok

  unfoldable pub xdr_link3_resok : Op → Link3Resok → M lib.Stream Link3Resok
  xdr_link3_resok op o = do
    file_attributes ← xdr_post_op_attr op o.file_attributes
    linkdir_wcc ← xdr_wcc_data op o.linkdir_wcc
    pure (record { file_attributes = file_attributes; linkdir_wcc = linkdir_wcc })

  unfoldable pub xdr_link3_res : Op → Res Link3Resok → M lib.Stream (Res Link3Resok)
  unfolding xdr_res
  xdr_link3_res = xdr_res xdr_link3_resok
