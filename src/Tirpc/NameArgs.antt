-- ===== src/Tirpc/NameArgs.antt =====
-- The arguments that hold a name: nfs3_rpc_tests/src/nfs3_xdr.cpp.
use nfstest.Prelude.{◌==◌, if◌then◌else◌}
use nfstest.Tirpc.Stream.{Op, M, pure, ◌>>=◌, XdrLib}
use nfstest.Tirpc.Idioms.{xdr_enum, xdr_own_text}
use nfstest.Tirpc.Attributes.{xdr_nfs_fh3, xdr_createverf3}
use nfstest.Tirpc.SetAttributes.{xdr_sattr3}
use nfstest.Nfs.Attributes.{nfs_fh3_fresh}
use nfstest.Nfs.Lookup.{Lookup3Args}
use nfstest.Nfs.Create.{Create3Args, Mkdir3Args, exclusive}
use nfstest.Nfs.MakeNode.{Symlink3Args, Mknod3Args}
use nfstest.Nfs.Names.{Remove3Args, Rmdir3Args, Rename3Args, Link3Args}

module _ ⦃lib : XdrLib⦄ where
  unfoldable pub xdr_lookup3_args : Op → Lookup3Args → M lib.Stream Lookup3Args
  xdr_lookup3_args op o = do
    what_dir ← xdr_nfs_fh3 op o.what_dir
    what_name ← xdr_own_text op o.what_name 255
    pure (record { what_dir = what_dir; what_name = what_name })

  unfoldable pub xdr_create3_args : Op → Create3Args → M lib.Stream Create3Args
  xdr_create3_args op o = do
    where_dir ← xdr_nfs_fh3 op o.where_dir
    where_name ← xdr_own_text op o.where_name 255
    how_mode ← xdr_enum op o.how_mode
    how_attributes ← xdr_sattr3 op o.how_attributes
    how_verf ← (if how_mode == exclusive then xdr_createverf3 op o.how_verf else pure o.how_verf)
    pure (record {
      where_dir = where_dir;
      where_name = where_name;
      how_mode = how_mode;
      how_attributes = how_attributes;
      how_verf = how_verf;
    })

  unfoldable pub xdr_mkdir3_args : Op → Mkdir3Args → M lib.Stream Mkdir3Args
  xdr_mkdir3_args op o = do
    where_dir ← xdr_nfs_fh3 op o.where_dir
    where_name ← xdr_own_text op o.where_name 255
    attributes ← xdr_sattr3 op o.attributes
    pure (record { where_dir = where_dir; where_name = where_name; attributes = attributes })

  unfoldable pub xdr_symlink3_args : Op → Symlink3Args → M lib.Stream Symlink3Args
  xdr_symlink3_args op o = do
    where_dir ← xdr_nfs_fh3 op o.where_dir
    where_name ← xdr_own_text op o.where_name 255
    symlink_attributes ← xdr_sattr3 op o.symlink_attributes
    symlink_data ← xdr_own_text op o.symlink_data 4096
    pure (record {
      where_dir = where_dir;
      where_name = where_name;
      symlink_attributes = symlink_attributes;
      symlink_data = symlink_data;
    })

  unfoldable pub xdr_mknod3_args : Op → Mknod3Args → M lib.Stream Mknod3Args
  xdr_mknod3_args op o = do
    where_dir ← xdr_nfs_fh3 op o.where_dir
    where_name ← xdr_own_text op o.where_name 255
    what_type ← xdr_enum op o.what_type
    what_attributes ← xdr_sattr3 op o.what_attributes
    pure (record {
      where_dir = where_dir;
      where_name = where_name;
      what_type = what_type;
      what_attributes = what_attributes;
    })

  unfoldable pub xdr_remove3_args : Op → Remove3Args → M lib.Stream Remove3Args
  xdr_remove3_args op o = do
    object_dir ← xdr_nfs_fh3 op o.object_dir
    object_name ← xdr_own_text op o.object_name 255
    pure (record { object_dir = object_dir; object_name = object_name })

  unfoldable pub xdr_rmdir3_args : Op → Rmdir3Args → M lib.Stream Rmdir3Args
  xdr_rmdir3_args op o = do
    object_dir ← xdr_nfs_fh3 op o.object_dir
    object_name ← xdr_own_text op o.object_name 255
    pure (record { object_dir = object_dir; object_name = object_name })

  unfoldable pub xdr_rename3_args : Op → Rename3Args → M lib.Stream Rename3Args
  xdr_rename3_args op o = do
    from_dir ← xdr_nfs_fh3 op o.from_dir
    from_name ← xdr_own_text op o.from_name 255
    to_dir ← xdr_nfs_fh3 op o.to_dir
    to_name ← xdr_own_text op o.to_name 255
    pure (record { from_dir = from_dir; from_name = from_name; to_dir = to_dir; to_name = to_name })

  unfoldable pub xdr_link3_args : Op → Link3Args → M lib.Stream Link3Args
  xdr_link3_args op o = do
    file ← xdr_nfs_fh3 op o.file
    link_dir ← xdr_nfs_fh3 op o.link_dir
    link_name ← xdr_own_text op o.link_name 255
    pure (record { file = file; link_dir = link_dir; link_name = link_name })
