-- ===== src/NfsC/Handles.antt =====
-- Handles, and the arguments of the procedures that have a handle and numbers:
-- nfs3_rpc_tests_c/src/nfs3_xdr.c over the structures of include/nfs3_c/nfs3_types.h.
-- A handle is the `len` bytes at `data`. The memory of an old one is freed, which changes nothing
-- that is modelled.
use nfstest.Prelude.{ℕ, some, List, length}
use nfstest.Nfs.Attributes.{NfsFh3}
use nfstest.Nfs.Lookup.{Getattr3Args, Access3Args, Readlink3Args}
use nfstest.Nfs.Transfer.{Read3Args, Commit3Args}
use nfstest.Nfs.Volume.{Fsstat3Args, Pathconf3Args}
use nfstest.Nfs.FsInfo.{Fsinfo3Args}
use nfstest.XdrC.Growth.{M, pure, ◌>>=◌, ◌>>◌}
use nfstest.XdrC.Codec.{
  xdr_pack_uint32, xdr_pack_uint64, xdr_pack_opaque, xdr_unpack_uint32, xdr_unpack_uint64,
  xdr_unpack_opaque,
}
use nfstest.NfsC.Attributes.{into, given}

unfoldable pub xdr_pack_nfs_fh3 : NfsFh3 → M (Unit {0})
xdr_pack_nfs_fh3 fh = xdr_pack_opaque (some fh.data_bytes) (length fh.data_bytes)

-- `xdr_unpack_opaque(buf, &d, &len)` into variables that have no value yet, which are used then.
unfoldable pub opaque_into_new : M (List ℕ)
unfolding ◌>>=◌ pure
opaque_into_new = do r ← xdr_unpack_opaque 0; given r.1

unfoldable pub xdr_unpack_nfs_fh3 : M NfsFh3
unfolding ◌>>=◌ pure
xdr_unpack_nfs_fh3 = do d ← opaque_into_new; pure (record { data_bytes = d })

unfoldable pub xdr_pack_getattr3_args : Getattr3Args → M (Unit {0})
xdr_pack_getattr3_args args = xdr_pack_nfs_fh3 args.object

unfoldable pub xdr_unpack_getattr3_args : Getattr3Args → M Getattr3Args
unfolding ◌>>=◌ pure
xdr_unpack_getattr3_args args = do object ← xdr_unpack_nfs_fh3; pure (record { object = object })

unfoldable pub xdr_pack_access3_args : Access3Args → M (Unit {0})
unfolding ◌>>=◌ ◌>>◌
xdr_pack_access3_args args = do xdr_pack_nfs_fh3 args.object; xdr_pack_uint32 args.access

unfoldable pub xdr_unpack_access3_args : Access3Args → M Access3Args
unfolding ◌>>=◌ pure
xdr_unpack_access3_args args = do
  object ← xdr_unpack_nfs_fh3
  access ← into args.access xdr_unpack_uint32
  pure (record { object = object; access = access })

unfoldable pub xdr_pack_readlink3_args : Readlink3Args → M (Unit {0})
xdr_pack_readlink3_args args = xdr_pack_nfs_fh3 args.symlink

unfoldable pub xdr_unpack_readlink3_args : Readlink3Args → M Readlink3Args
unfolding ◌>>=◌ pure
xdr_unpack_readlink3_args args = do
  symlink ← xdr_unpack_nfs_fh3
  pure (record { symlink = symlink })

unfoldable pub xdr_pack_read3_args : Read3Args → M (Unit {0})
unfolding ◌>>=◌ ◌>>◌
xdr_pack_read3_args args = do
  xdr_pack_nfs_fh3 args.file
  xdr_pack_uint64 args.offset
  xdr_pack_uint32 args.count

unfoldable pub xdr_unpack_read3_args : Read3Args → M Read3Args
unfolding ◌>>=◌ pure
xdr_unpack_read3_args args = do
  file ← xdr_unpack_nfs_fh3
  offset ← into args.offset xdr_unpack_uint64
  count ← into args.count xdr_unpack_uint32
  pure (record { file = file; offset = offset; count = count })

unfoldable pub xdr_pack_commit3_args : Commit3Args → M (Unit {0})
unfolding ◌>>=◌ ◌>>◌
xdr_pack_commit3_args args = do
  xdr_pack_nfs_fh3 args.file
  xdr_pack_uint64 args.offset
  xdr_pack_uint32 args.count

unfoldable pub xdr_unpack_commit3_args : Commit3Args → M Commit3Args
unfolding ◌>>=◌ pure
xdr_unpack_commit3_args args = do
  file ← xdr_unpack_nfs_fh3
  offset ← into args.offset xdr_unpack_uint64
  count ← into args.count xdr_unpack_uint32
  pure (record { file = file; offset = offset; count = count })

unfoldable pub xdr_pack_fsstat3_args : Fsstat3Args → M (Unit {0})
xdr_pack_fsstat3_args args = xdr_pack_nfs_fh3 args.fsroot

unfoldable pub xdr_unpack_fsstat3_args : Fsstat3Args → M Fsstat3Args
unfolding ◌>>=◌ pure
xdr_unpack_fsstat3_args args = do fsroot ← xdr_unpack_nfs_fh3; pure (record { fsroot = fsroot })

unfoldable pub xdr_pack_pathconf3_args : Pathconf3Args → M (Unit {0})
xdr_pack_pathconf3_args args = xdr_pack_nfs_fh3 args.object

unfoldable pub xdr_unpack_pathconf3_args : Pathconf3Args → M Pathconf3Args
unfolding ◌>>=◌ pure
xdr_unpack_pathconf3_args args = do object ← xdr_unpack_nfs_fh3; pure (record { object = object })

unfoldable pub xdr_pack_fsinfo3_args : Fsinfo3Args → M (Unit {0})
xdr_pack_fsinfo3_args args = xdr_pack_nfs_fh3 args.fsroot

unfoldable pub xdr_unpack_fsinfo3_args : Fsinfo3Args → M Fsinfo3Args
unfolding ◌>>=◌ pure
xdr_unpack_fsinfo3_args args = do fsroot ← xdr_unpack_nfs_fh3; pure (record { fsroot = fsroot })
