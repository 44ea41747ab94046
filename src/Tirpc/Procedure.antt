-- ===== src/Tirpc/Procedure.antt =====
-- The functions of nfs3_rpc_tests/src/nfs3_xdr.cpp by their procedures, as
-- nfs3_rpc_tests/include/nfs3/nfs3_xdr.hpp names them. The fuel is for the entries of a listing.
use nfstest.Prelude.{ℕ}
use nfstest.Nfs.Procedure.{Procedure, Args, Reply}
use nfstest.Tirpc.Stream.{Op, M, XdrLib}
use nfstest.Tirpc.Args.{
  xdr_getattr3_args, xdr_setattr3_args, xdr_access3_args, xdr_readlink3_args, xdr_read3_args,
  xdr_write3_args, xdr_readdir3_args, xdr_readdirplus3_args, xdr_fsstat3_args, xdr_fsinfo3_args,
  xdr_pathconf3_args, xdr_commit3_args,
}
use nfstest.Tirpc.FileReplies.{
  xdr_getattr3_res, xdr_setattr3_res, xdr_lookup3_res, xdr_access3_res, xdr_readlink3_res,
  xdr_read3_res, xdr_write3_res, xdr_commit3_res,
}
use nfstest.Tirpc.NameArgs.{
  xdr_lookup3_args, xdr_create3_args, xdr_mkdir3_args, xdr_symlink3_args, xdr_mknod3_args,
  xdr_remove3_args, xdr_rmdir3_args, xdr_rename3_args, xdr_link3_args,
}
use nfstest.Tirpc.NameReplies.{
  xdr_create3_res, xdr_mkdir3_res, xdr_symlink3_res, xdr_mknod3_res, xdr_remove3_res,
  xdr_rmdir3_res, xdr_rename3_res, xdr_link3_res,
}
use nfstest.Tirpc.Listing.{xdr_readdir3_res, xdr_readdirplus3_res}
use nfstest.Tirpc.VolumeReplies.{xdr_fsstat3_res, xdr_fsinfo3_res, xdr_pathconf3_res}

module _ ⦃lib : XdrLib⦄ where
  unfoldable pub xdr_args : (p : Procedure) → Op → Args p → M lib.Stream (Args p)
  xdr_args Procedure.getattr = xdr_getattr3_args
  xdr_args Procedure.setattr = xdr_setattr3_args
  xdr_args Procedure.lookup = xdr_lookup3_args
  xdr_args Procedure.access = xdr_access3_args
  xdr_args Procedure.readlink = xdr_readlink3_args
  xdr_args Procedure.read = xdr_read3_args
  xdr_args Procedure.write = xdr_write3_args
  xdr_args Procedure.create = xdr_create3_args
  xdr_args Procedure.mkdir = xdr_mkdir3_args
  xdr_args Procedure.symlink = xdr_symlink3_args
  xdr_args Procedure.mknod = xdr_mknod3_args
  xdr_args Procedure.remove = xdr_remove3_args
  xdr_args Procedure.rmdir = xdr_rmdir3_args
  xdr_args Procedure.rename = xdr_rename3_args
  xdr_args Procedure.link = xdr_link3_args
  xdr_args Procedure.readdir = xdr_readdir3_args
  xdr_args Procedure.readdirplus = xdr_readdirplus3_args
  xdr_args Procedure.fsstat = xdr_fsstat3_args
  xdr_args Procedure.fsinfo = xdr_fsinfo3_args
  xdr_args Procedure.pathconf = xdr_pathconf3_args
  xdr_args Procedure.commit = xdr_commit3_args

  unfoldable pub xdr_reply : (p : Procedure) → ℕ → Op → Reply p → M lib.Stream (Reply p)
  xdr_reply Procedure.getattr fuel = xdr_getattr3_res
  xdr_reply Procedure.setattr fuel = xdr_setattr3_res
  xdr_reply Procedure.lookup fuel = xdr_lookup3_res
  xdr_reply Procedure.access fuel = xdr_access3_res
  xdr_reply Procedure.readlink fuel = xdr_readlink3_res
  xdr_reply Procedure.read fuel = xdr_read3_res
  xdr_reply Procedure.write fuel = xdr_write3_res
  xdr_reply Procedure.create fuel = xdr_create3_res
  xdr_reply Procedure.mkdir fuel = xdr_mkdir3_res
  xdr_reply Procedure.symlink fuel = xdr_symlink3_res
  xdr_reply Procedure.mknod fuel = xdr_mknod3_res
  xdr_reply Procedure.remove fuel = xdr_remove3_res
  xdr_reply Procedure.rmdir fuel = xdr_rmdir3_res
  xdr_reply Procedure.rename fuel = xdr_rename3_res
  xdr_reply Procedure.link fuel = xdr_link3_res
  xdr_reply Procedure.readdir fuel = xdr_readdir3_res fuel
  xdr_reply Procedure.readdirplus fuel = xdr_readdirplus3_res fuel
  xdr_reply Procedure.fsstat fuel = xdr_fsstat3_res
  xdr_reply Procedure.fsinfo fuel = xdr_fsinfo3_res
  xdr_reply Procedure.pathconf fuel = xdr_pathconf3_res
  xdr_reply Procedure.commit fuel = xdr_commit3_res
