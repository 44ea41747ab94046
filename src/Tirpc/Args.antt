-- ===== src/Tirpc/Args.antt =====
-- The arguments without a name: nfs3_rpc_tests/src/nfs3_xdr.cpp.
use nfstest.Xdr.Codec.{fresh}
use nfstest.Tirpc.Stream.{Op, M, pure, ◌>>=◌, XdrLib}
use nfstest.Tirpc.Idioms.{xdr_enum, xdr_own_data, xdr_raw_u64, xdr_optional}
use nfstest.Tirpc.Attributes.{xdr_nfs_fh3}
use nfstest.Tirpc.SetAttributes.{xdr_sattr3}
use nfstest.Nfs.Attributes.{nfs_fh3_fresh}
use nfstest.Nfs.Lookup.{Getattr3Args, Access3Args, Readlink3Args}
use nfstest.Nfs.SetAttributes.{Setattr3Args}
use nfstest.Nfs.Transfer.{Read3Args, Write3Args, Commit3Args}
use nfstest.Nfs.Directory.{Readdir3Args, Readdirplus3Args}
use nfstest.Nfs.Volume.{Fsstat3Args, Pathconf3Args}
use nfstest.Nfs.FsInfo.{Fsinfo3Args}

module _ ⦃lib : XdrLib⦄ where
  unfoldable pub xdr_getattr3_args : Op → Getattr3Args → M lib.Stream Getattr3Args
  xdr_getattr3_args op o = do object ← xdr_nfs_fh3 op o.object; pure (record { object = object })

  unfoldable pub xdr_setattr3_args : Op → Setattr3Args → M lib.Stream Setattr3Args
  xdr_setattr3_args op o = do
    object ← xdr_nfs_fh3 op o.object
    new_attributes ← xdr_sattr3 op o.new_attributes
    guard ← xdr_optional xdr_nfs_fh3 fresh op o.guard
    pure (record { object = object; new_attributes = new_attributes; guard = guard })

  unfoldable pub xdr_access3_args : Op → Access3Args → M lib.Stream Access3Args
  xdr_access3_args op o = do
    object ← xdr_nfs_fh3 op o.object
    access ← lib.xdr_u_int op o.access
    pure (record { object = object; access = access })

  unfoldable pub xdr_readlink3_args : Op → Readlink3Args → M lib.Stream Readlink3Args
  xdr_readlink3_args op o = do
    symlink ← xdr_nfs_fh3 op o.symlink
    pure (record { symlink = symlink })

  unfoldable pub xdr_read3_args : Op → Read3Args → M lib.Stream Read3Args
  xdr_read3_args op o = do
    file ← xdr_nfs_fh3 op o.file
    offset ← lib.xdr_u_hyper op o.offset
    count ← lib.xdr_u_int op o.count
    pure (record { file = file; offset = offset; count = count })

  unfoldable pub xdr_write3_args : Op → Write3Args → M lib.Stream Write3Args
  xdr_write3_args op o = do
    file ← xdr_nfs_fh3 op o.file
    offset ← lib.xdr_u_hyper op o.offset
    count ← lib.xdr_u_int op o.count
    stable ← xdr_enum op o.stable
    data_bytes ← xdr_own_data op o.data_bytes 65536
    pure (record {
      file = file;
      offset = offset;
      count = count;
      stable = stable;
      data_bytes = data_bytes;
    })

  unfoldable pub xdr_readdir3_args : Op → Readdir3Args → M lib.Stream Readdir3Args
  xdr_readdir3_args op o = do
    dir ← xdr_nfs_fh3 op o.dir
    cookie ← lib.xdr_u_hyper op o.cookie
    cookieverf ← xdr_raw_u64 op o.cookieverf
    count ← lib.xdr_u_int op o.count
    pure (record { dir = dir; cookie = cookie; cookieverf = cookieverf; count = count })

  unfoldable pub xdr_readdirplus3_args : Op → Readdirplus3Args → M lib.Stream Readdirplus3Args
  xdr_readdirplus3_args op o = do
    dir ← xdr_nfs_fh3 op o.dir
    cookie ← lib.xdr_u_hyper op o.cookie
    cookieverf ← xdr_raw_u64 op o.cookieverf
    dircount ← lib.xdr_u_int op o.dircount
    maxcount ← lib.xdr_u_int op o.maxcount
    pure (record {
      dir = dir;
      cookie = cookie;
      cookieverf = cookieverf;
      dircount = dircount;
      maxcount = maxcount;
    })

  unfoldable pub xdr_fsstat3_args : Op → Fsstat3Args → M lib.Stream Fsstat3Args
  xdr_fsstat3_args op o = do fsroot ← xdr_nfs_fh3 op o.fsroot; pure (record { fsroot = fsroot })

  unfoldable pub xdr_fsinfo3_args : Op → Fsinfo3Args → M lib.Stream Fsinfo3Args
  xdr_fsinfo3_args op o = do fsroot ← xdr_nfs_fh3 op o.fsroot; pure (record { fsroot = fsroot })

  unfoldable pub xdr_pathconf3_args : Op → Pathconf3Args → M lib.Stream Pathconf3Args
  xdr_pathconf3_args op o = do object ← xdr_nfs_fh3 op o.object; pure (record { object = object })

  unfoldable pub xdr_commit3_args : Op → Commit3Args → M lib.Stream Commit3Args
  xdr_commit3_args op o = do
    file ← xdr_nfs_fh3 op o.file
    offset ← lib.xdr_u_hyper op o.offset
    count ← lib.xdr_u_int op o.count
    pure (record { file = file; offset = offset; count = count })
