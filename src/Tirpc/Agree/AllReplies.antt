-- ===== src/Tirpc/Agree/AllReplies.antt =====
-- The replies of each procedure: what is on the wire, and what is read from it.
use nfstest.Prelude.{ℕ, ◌≡◌}
use nfstest.Xdr.Buffer.{XdrBuffer, ok, empty_buffer}
use nfstest.Xdr.Word.{Endianness}
use nfstest.Nfs.Procedure.{Procedure, Resok, Reply}
use nfstest.Nfs.Reply.{res_codec}
use nfstest.Tirpc.Stream.{encode, decode, done, XdrLib, XdrLaws}
use nfstest.Tirpc.Procedure.{xdr_reply}
use nfstest.Tirpc.Layout.{reply_layout}
use nfstest.Tirpc.Agree.{Agrees, Agrees-same_bytes}
use nfstest.Tirpc.Agree.Reply.{
  SendableRes, seen_as, Agrees-res, Agrees-res_value, Agrees-res_else_false,
}
use nfstest.Tirpc.FileReplies.{
  xdr_getattr3_res, xdr_getattr3_resok, xdr_setattr3_res, xdr_setattr3_resok, xdr_lookup3_res,
  xdr_lookup3_resok, xdr_access3_res, xdr_access3_resok, xdr_readlink3_res, xdr_readlink3_resok,
  xdr_read3_res, xdr_read3_resok, xdr_write3_res, xdr_write3_resok, xdr_commit3_res,
  xdr_commit3_resok,
}
use nfstest.Tirpc.Agree.FileReplies.{
  SendableGetattr3Resok, Agrees-getattr3_resok, SendableSetattr3Resok, Agrees-setattr3_resok,
  SendableLookup3Resok, Agrees-lookup3_resok, SendableAccess3Resok, Agrees-access3_resok,
  SendableReadlink3Resok, Agrees-readlink3_resok, SendableRead3Resok, Agrees-read3_resok,
  SendableWrite3Resok, Agrees-write3_resok, SendableCommit3Resok, Agrees-commit3_resok,
}
use nfstest.Nfs.Lookup.{
  getattr3_resok_fresh, lookup3_resok_fresh, access3_resok_fresh, readlink3_resok_fresh,
}
use nfstest.Nfs.SetAttributes.{setattr3_resok_fresh}
use nfstest.Nfs.Transfer.{read3_resok_fresh, write3_resok_fresh, commit3_resok_fresh}
use nfstest.Tirpc.NameReplies.{
  xdr_create3_res, xdr_create3_resok, xdr_mkdir3_res, xdr_mkdir3_resok, xdr_symlink3_res,
  xdr_symlink3_resok, xdr_mknod3_res, xdr_mknod3_resok, xdr_remove3_res, xdr_remove3_resok,
  xdr_rmdir3_res, xdr_rmdir3_resok, xdr_rename3_res, xdr_rename3_resok, xdr_link3_res,
  xdr_link3_resok,
}
use nfstest.Tirpc.Agree.NameReplies.{
  SendableCreate3Resok, Agrees-create3_resok, SendableMkdir3Resok, Agrees-mkdir3_resok,
  SendableSymlink3Resok, Agrees-symlink3_resok, SendableMknod3Resok, Agrees-mknod3_resok,
  SendableRemove3Resok, Agrees-remove3_resok, SendableRmdir3Resok, Agrees-rmdir3_resok,
  SendableRename3Resok, Agrees-rename3_resok, SendableLink3Resok, Agrees-link3_resok,
}
use nfstest.Nfs.Create.{create3_resok_fresh, mkdir3_resok_fresh}
use nfstest.Nfs.MakeNode.{symlink3_resok_fresh, mknod3_resok_fresh}
use nfstest.Nfs.Names.{
  remove3_resok_fresh, rmdir3_resok_fresh, rename3_resok_fresh, link3_resok_fresh,
}
use nfstest.Tirpc.Agree.Listing.{
  without_entries, SendableReaddir3Resok, Agrees-readdir3_resok, without_entries_plus,
  SendableReaddirplus3Resok, Agrees-readdirplus3_resok,
}
use nfstest.Tirpc.Listing.{
  xdr_readdir3_res, xdr_readdir3_resok, xdr_readdirplus3_res, xdr_readdirplus3_resok,
}
use nfstest.Nfs.Directory.{readdir3_resok_fresh, readdirplus3_resok_fresh}
use nfstest.Tirpc.VolumeReplies.{
  xdr_fsstat3_res, xdr_fsstat3_resok, xdr_fsinfo3_res, xdr_fsinfo3_resok, xdr_pathconf3_res,
  xdr_pathconf3_resok,
}
use nfstest.Tirpc.Agree.VolumeReplies.{
  SendableFsstat3Resok, Agrees-fsstat3_resok, SendableFsinfo3Resok, Agrees-fsinfo3_resok,
  SendablePathconf3Resok, Agrees-pathconf3_resok,
}
use nfstest.Nfs.Volume.{fsstat3_resok_fresh, pathconf3_resok_fresh}
use nfstest.Nfs.FsInfo.{fsinfo3_resok_fresh}

-- Within the ranges and the limits, and a listing with fewer entries than there is fuel.
abbrev pub SendableResok : ℕ → (p : Procedure) → Resok p → Type 0
SendableResok fuel Procedure.getattr = SendableGetattr3Resok
SendableResok fuel Procedure.setattr = SendableSetattr3Resok
SendableResok fuel Procedure.lookup = SendableLookup3Resok
SendableResok fuel Procedure.access = SendableAccess3Resok
SendableResok fuel Procedure.readlink = SendableReadlink3Resok
SendableResok fuel Procedure.read = SendableRead3Resok
SendableResok fuel Procedure.write = SendableWrite3Resok
SendableResok fuel Procedure.create = SendableCreate3Resok
SendableResok fuel Procedure.mkdir = SendableMkdir3Resok
SendableResok fuel Procedure.symlink = SendableSymlink3Resok
SendableResok fuel Procedure.mknod = SendableMknod3Resok
SendableResok fuel Procedure.remove = SendableRemove3Resok
SendableResok fuel Procedure.rmdir = SendableRmdir3Resok
SendableResok fuel Procedure.rename = SendableRename3Resok
SendableResok fuel Procedure.link = SendableLink3Resok
SendableResok fuel Procedure.readdir = SendableReaddir3Resok fuel
SendableResok fuel Procedure.readdirplus = SendableReaddirplus3Resok fuel
SendableResok fuel Procedure.fsstat = SendableFsstat3Resok
SendableResok fuel Procedure.fsinfo = SendableFsinfo3Resok
SendableResok fuel Procedure.pathconf = SendablePathconf3Resok
SendableResok fuel Procedure.commit = SendableCommit3Resok

-- The results as they are read: a listing without its entries, all others as they are.
abbrev pub seen_resok : (p : Procedure) → Resok p → Resok p
seen_resok Procedure.readdir v = without_entries v
seen_resok Procedure.readdirplus v = without_entries_plus v
seen_resok p v = v

abbrev pub read_reply : (p : Procedure) → Reply p → Reply p
read_reply p v = record { status = v.status; resok = seen_as (seen_resok p) v.resok }

module _ ⦃lib : XdrLib⦄ (laws : XdrLaws lib) where
  Agrees-reply :
      (p : Procedure) (fuel : ℕ) (old v : Reply p)
      → SendableRes (SendableResok fuel p) old v
      → Agrees laws
          (reply_layout lib.host p v)
          (xdr_reply p fuel encode v)
          (xdr_reply p fuel decode old)
          v
          (done (read_reply p v))
  unfolding xdr_reply res_codec xdr_getattr3_res xdr_setattr3_res xdr_lookup3_res xdr_access3_res
      xdr_readlink3_res xdr_read3_res xdr_write3_res xdr_create3_res xdr_mkdir3_res xdr_symlink3_res
      xdr_mknod3_res xdr_remove3_res xdr_rmdir3_res xdr_rename3_res xdr_link3_res xdr_readdir3_res
      xdr_readdirplus3_res xdr_fsstat3_res xdr_fsinfo3_res xdr_pathconf3_res xdr_commit3_res
  Agrees-reply Procedure.getattr fuel old v h =
      Agrees-res_value laws xdr_getattr3_resok (seen_resok Procedure.getattr)
        (Agrees-getattr3_resok laws) old v h
  Agrees-reply Procedure.setattr fuel old v h =
      Agrees-res_value laws xdr_setattr3_resok (seen_resok Procedure.setattr)
        (Agrees-setattr3_resok laws) old v h
  Agrees-reply Procedure.lookup fuel old v h =
      Agrees-res laws xdr_lookup3_resok (seen_resok Procedure.lookup) (Agrees-lookup3_resok laws)
        old v h
  Agrees-reply Procedure.access fuel old v h =
      Agrees-res laws xdr_access3_resok (seen_resok Procedure.access) (Agrees-access3_resok laws)
        old v h
  Agrees-reply Procedure.readlink fuel old v h =
      Agrees-res laws xdr_readlink3_resok (seen_resok Procedure.readlink)
        (Agrees-readlink3_resok laws) old v h
  Agrees-reply Procedure.read fuel old v h =
      Agrees-res laws xdr_read3_resok (seen_resok Procedure.read) (Agrees-read3_resok laws) old v h
  Agrees-reply Procedure.write fuel old v h =
      Agrees-res laws xdr_write3_resok (seen_resok Procedure.write) (Agrees-write3_resok laws) old v
        h
  Agrees-reply Procedure.create fuel old v h =
      Agrees-res laws xdr_create3_resok (seen_resok Procedure.create) (Agrees-create3_resok laws)
        old v h
  Agrees-reply Procedure.mkdir fuel old v h =
      Agrees-res laws xdr_mkdir3_resok (seen_resok Procedure.mkdir) (Agrees-mkdir3_resok laws) old v
        h
  Agrees-reply Procedure.symlink fuel old v h =
      Agrees-res laws xdr_symlink3_resok (seen_resok Procedure.symlink) (Agrees-symlink3_resok laws)
        old v h
  Agrees-reply Procedure.mknod fuel old v h =
      Agrees-res laws xdr_mknod3_resok (seen_resok Procedure.mknod) (Agrees-mknod3_resok laws) old v
        h
  Agrees-reply Procedure.remove fuel old v h =
      Agrees-res laws xdr_remove3_resok (seen_resok Procedure.remove) (Agrees-remove3_resok laws)
        old v h
  Agrees-reply Procedure.rmdir fuel old v h =
      Agrees-res laws xdr_rmdir3_resok (seen_resok Procedure.rmdir) (Agrees-rmdir3_resok laws) old v
        h
  Agrees-reply Procedure.rename fuel old v h =
      Agrees-res laws xdr_rename3_resok (seen_resok Procedure.rename) (Agrees-rename3_resok laws)
        old v h
  Agrees-reply Procedure.link fuel old v h =
      Agrees-res laws xdr_link3_resok (seen_resok Procedure.link) (Agrees-link3_resok laws) old v h
  Agrees-reply Procedure.readdir fuel old v h =
      Agrees-res_else_false laws (xdr_readdir3_resok fuel) (seen_resok Procedure.readdir)
        (Agrees-readdir3_resok laws fuel) old v h
  Agrees-reply Procedure.readdirplus fuel old v h =
      Agrees-res_else_false laws (xdr_readdirplus3_resok fuel) (seen_resok Procedure.readdirplus)
        (Agrees-readdirplus3_resok laws fuel) old v h
  Agrees-reply Procedure.fsstat fuel old v h =
      Agrees-res laws xdr_fsstat3_resok (seen_resok Procedure.fsstat) (Agrees-fsstat3_resok laws)
        old v h
  Agrees-reply Procedure.fsinfo fuel old v h =
      Agrees-res laws xdr_fsinfo3_resok (seen_resok Procedure.fsinfo) (Agrees-fsinfo3_resok laws)
        old v h
  Agrees-reply Procedure.pathconf fuel old v h =
      Agrees-res laws xdr_pathconf3_resok (seen_resok Procedure.pathconf)
        (Agrees-pathconf3_resok laws) old v h
  Agrees-reply Procedure.commit fuel old v h =
      Agrees-res laws xdr_commit3_resok (seen_resok Procedure.commit) (Agrees-commit3_resok laws)
        old v h

  -- The reply of each procedure, its result in the ranges and limits, is encoded to a stream with
  -- room for it as the bytes that XdrBuffer packs on a host of either byte order in the layout of
  -- Tirpc/Layout.antt, which is XdrBuffer's own but for the verifiers and the listings. From a
  -- stream with these bytes it is decoded again with its status and result, but that a listing has
  -- lost its entries, of which there are fewer than units of fuel.
  pub reply_same_bytes :
      (p : Procedure) (fuel : ℕ) (old v : Reply p)
      → SendableRes (SendableResok fuel p) old v
      → (e : Endianness) (b : XdrBuffer) → reply_layout lib.host p v e empty_buffer ≡ ok tt b
      → (s t : lib.Stream) → laws.Moves encode s b.buffer t
      → (s' t' : lib.Stream) → laws.Moves decode s' b.buffer t'
      → (xdr_reply p fuel encode v s ≡ done v t)
        × (xdr_reply p fuel decode old s' ≡ done (read_reply p v) t')
  reply_same_bytes p fuel old v h e b packed s t room s' t' next =
      Agrees-same_bytes laws (Agrees-reply p fuel old v h) e b packed s t room s' t' next
