-- ===== src/Tirpc/VolumeReplies.antt =====
-- The replies on file systems: nfs3_rpc_tests/src/nfs3_xdr.cpp.
use nfstest.Tirpc.Stream.{Op, M, pure, ◌>>=◌, XdrLib}
use nfstest.Tirpc.Idioms.{xdr_flag, xdr_res}
use nfstest.Tirpc.Attributes.{xdr_post_op_attr}
use nfstest.Nfs.Attributes.{nfs_fh3_fresh}
use nfstest.Nfs.Reply.{Res}
use nfstest.Nfs.Volume.{
  Fsstat3Resok, fsstat3_resok_fresh, Pathconf3Resok, pathconf3_resok_fresh, Pathconf3ResokInfo,
}
use nfstest.Nfs.FsInfo.{Fsinfo3Resok, fsinfo3_resok_fresh}

module _ ⦃lib : XdrLib⦄ where
  unfoldable pub xdr_fsstat3_resok : Op → Fsstat3Resok → M lib.Stream Fsstat3Resok
  xdr_fsstat3_resok op o = do
    obj_attributes ← xdr_post_op_attr op o.obj_attributes
    tbytes ← lib.xdr_u_hyper op o.tbytes
    fbytes ← lib.xdr_u_hyper op o.fbytes
    abytes ← lib.xdr_u_hyper op o.abytes
    tfiles ← lib.xdr_u_hyper op o.tfiles
    ffiles ← lib.xdr_u_hyper op o.ffiles
    afiles ← lib.xdr_u_hyper op o.afiles
    invarsec ← lib.xdr_u_int op o.invarsec
    pure (record {
      obj_attributes = obj_attributes;
      tbytes = tbytes;
      fbytes = fbytes;
      abytes = abytes;
      tfiles = tfiles;
      ffiles = ffiles;
      afiles = afiles;
      invarsec = invarsec;
    })

  unfoldable pub xdr_fsstat3_res : Op → Res Fsstat3Resok → M lib.Stream (Res Fsstat3Resok)
  unfolding xdr_res
  xdr_fsstat3_res = xdr_res xdr_fsstat3_resok

  unfoldable pub xdr_fsinfo3_resok : Op → Fsinfo3Resok → M lib.Stream Fsinfo3Resok
  xdr_fsinfo3_resok op o = do
    obj_attributes ← xdr_post_op_attr op o.obj_attributes
    rtmax ← lib.xdr_u_int op o.rtmax
    rtpref ← lib.xdr_u_int op o.rtpref
    rtmult ← lib.xdr_u_int op o.rtmult
    wtmax ← lib.xdr_u_int op o.wtmax
    wtpref ← lib.xdr_u_int op o.wtpref
    wtmult ← lib.xdr_u_int op o.wtmult
    dtpref ← lib.xdr_u_int op o.dtpref
    maxfilesize ← lib.xdr_u_hyper op o.maxfilesize
    time_delta_seconds ← lib.xdr_u_int op o.time_delta_seconds
    time_delta_nseconds ← lib.xdr_u_int op o.time_delta_nseconds
    properties ← lib.xdr_u_int op o.properties
    pure (record {
      obj_attributes = obj_attributes;
      rtmax = rtmax;
      rtpref = rtpref;
      rtmult = rtmult;
      wtmax = wtmax;
      wtpref = wtpref;
      wtmult = wtmult;
      dtpref = dtpref;
      maxfilesize = maxfilesize;
      time_delta_seconds = time_delta_seconds;
      time_delta_nseconds = time_delta_nseconds;
      properties = properties;
    })

  unfoldable pub xdr_fsinfo3_res : Op → Res Fsinfo3Resok → M lib.Stream (Res Fsinfo3Resok)
  unfolding xdr_res
  xdr_fsinfo3_res = xdr_res xdr_fsinfo3_resok

  unfoldable pub xdr_pathconf3_info : Op → Pathconf3ResokInfo → M lib.Stream Pathconf3ResokInfo
  xdr_pathconf3_info op o = do
    linkmax ← lib.xdr_int op o.linkmax
    name_max ← lib.xdr_int op o.name_max
    no_trunc ← xdr_flag op o.no_trunc
    chown_restricted ← xdr_flag op o.chown_restricted
    case_insensitive ← xdr_flag op o.case_insensitive
    case_preserving ← xdr_flag op o.case_preserving
    pure (record {
      linkmax = linkmax;
      name_max = name_max;
      no_trunc = no_trunc;
      chown_restricted = chown_restricted;
      case_insensitive = case_insensitive;
      case_preserving = case_preserving;
    })

  unfoldable pub xdr_pathconf3_resok : Op → Pathconf3Resok → M lib.Stream Pathconf3Resok
  xdr_pathconf3_resok op o = do
    obj_attributes ← xdr_post_op_attr op o.obj_attributes
    info ← xdr_pathconf3_info op o.info
    pure (record { obj_attributes = obj_attributes; info = info })

  unfoldable pub xdr_pathconf3_res : Op → Res Pathconf3Resok → M lib.Stream (Res Pathconf3Resok)
  unfolding xdr_res
  xdr_pathconf3_res = xdr_res xdr_pathconf3_resok
