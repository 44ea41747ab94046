-- ===== src/Tirpc/Agree/AllArgs.antt =====
-- The arguments of each procedure: what is on the wire, and what is read from it.
use nfstest.Prelude.{◌≡◌, []}
use nfstest.Xdr.Buffer.{XdrBuffer, ok, empty_buffer}
use nfstest.Xdr.Word.{Endianness}
use nfstest.Nfs.Procedure.{Procedure, Args}
use nfstest.Tirpc.Stream
use nfstest.Tirpc.Stream.{encode, decode, done, undefined, halt, XdrLib, XdrLaws}
use nfstest.Tirpc.Procedure.{xdr_args}
use nfstest.Tirpc.Layout.{args_layout}
use nfstest.Tirpc.Agree.{Agrees, Agrees-same_bytes}
use nfstest.Tirpc.Agree.Args.{
  SendableGetattr3Args, Agrees-getattr3_args, SendableSetattr3Args, Agrees-setattr3_args,
  SendableAccess3Args, Agrees-access3_args, SendableReadlink3Args, Agrees-readlink3_args,
  SendableRead3Args, Agrees-read3_args, SendableWrite3Args, Agrees-write3_args,
  SendableReaddir3Args, Agrees-readdir3_args, SendableReaddirplus3Args, Agrees-readdirplus3_args,
  SendableFsstat3Args, Agrees-fsstat3_args, SendableFsinfo3Args, Agrees-fsinfo3_args,
  SendablePathconf3Args, Agrees-pathconf3_args, SendableCommit3Args, Agrees-commit3_args,
}
use nfstest.Tirpc.Agree.NameArgs.{
  SendableLookup3Args, Agrees-lookup3_args, SendableCreate3Args, Agrees-create3_args,
  SendableMkdir3Args, Agrees-mkdir3_args, SendableSymlink3Args, Agrees-symlink3_args,
  SendableMknod3Args, Agrees-mknod3_args, SendableRemove3Args, Agrees-remove3_args,
  SendableRmdir3Args, Agrees-rmdir3_args, SendableRename3Args, Agrees-rename3_args,
  SendableLink3Args, Agrees-link3_args,
}

-- Within the ranges and the limits; WRITE's are read into arguments that hold no data.
abbrev pub SendableArgs : (p : Procedure) → (old v : Args p) → Type 0
SendableArgs Procedure.getattr old v = SendableGetattr3Args v
SendableArgs Procedure.setattr old v = SendableSetattr3Args v
SendableArgs Procedure.lookup old v = SendableLookup3Args v
SendableArgs Procedure.access old v = SendableAccess3Args v
SendableArgs Procedure.readlink old v = SendableReadlink3Args v
SendableArgs Procedure.read old v = SendableRead3Args v
SendableArgs Procedure.write old v = SendableWrite3Args v × (old.data_bytes ≡ [])
SendableArgs Procedure.create old v = SendableCreate3Args v
SendableArgs Procedure.mkdir old v = SendableMkdir3Args v
SendableArgs Procedure.symlink old v = SendableSymlink3Args v
SendableArgs Procedure.mknod old v = SendableMknod3Args v
SendableArgs Procedure.remove old v = SendableRemove3Args v
SendableArgs Procedure.rmdir old v = SendableRmdir3Args v
SendableArgs Procedure.rename old v = SendableRename3Args v
SendableArgs Procedure.link old v = SendableLink3Args v
SendableArgs Procedure.readdir old v = SendableReaddir3Args v
SendableArgs Procedure.readdirplus old v = SendableReaddirplus3Args v
SendableArgs Procedure.fsstat old v = SendableFsstat3Args v
SendableArgs Procedure.fsinfo old v = SendableFsinfo3Args v
SendableArgs Procedure.pathconf old v = SendablePathconf3Args v
SendableArgs Procedure.commit old v = SendableCommit3Args v

-- What reading the bytes of `v` comes to: `v`, but for WRITE's data, which stay behind, and for the
-- arguments with a name, where the name is written through and freed.
abbrev pub read_args : ⦃lib : XdrLib⦄ → (p : Procedure) → Args p → Stream.M lib.Stream (Args p)
read_args Procedure.lookup v = halt undefined
read_args Procedure.create v = halt undefined
read_args Procedure.mkdir v = halt undefined
read_args Procedure.symlink v = halt undefined
read_args Procedure.mknod v = halt undefined
read_args Procedure.remove v = halt undefined
read_args Procedure.rmdir v = halt undefined
read_args Procedure.rename v = halt undefined
read_args Procedure.link v = halt undefined
read_args Procedure.write v = done (record v { data_bytes = [] })
read_args p v = done v

module _ ⦃lib : XdrLib⦄ (laws : XdrLaws lib) where
  Agrees-args :
      (p : Procedure) (old v : Args p)
      → SendableArgs p old v
      → Agrees laws
          (args_layout lib.host p v)
          (xdr_args p encode v)
          (xdr_args p decode old)
          v
          (read_args p v)
  unfolding xdr_args
  Agrees-args Procedure.getattr old v h = Agrees-getattr3_args laws old v h
  Agrees-args Procedure.setattr old v h = Agrees-setattr3_args laws old v h
  Agrees-args Procedure.lookup old v h = Agrees-lookup3_args laws old v h
  Agrees-args Procedure.access old v h = Agrees-access3_args laws old v h
  Agrees-args Procedure.readlink old v h = Agrees-readlink3_args laws old v h
  Agrees-args Procedure.read old v h = Agrees-read3_args laws old v h
  Agrees-args Procedure.write old v (h, empty) = Agrees-write3_args laws old v h empty
  Agrees-args Procedure.create old v h = Agrees-create3_args laws old v h
  Agrees-args Procedure.mkdir old v h = Agrees-mkdir3_args laws old v h
  Agrees-args Procedure.symlink old v h = Agrees-symlink3_args laws old v h
  Agrees-args Procedure.mknod old v h = Agrees-mknod3_args laws old v h
  Agrees-args Procedure.remove old v h = Agrees-remove3_args laws old v h
  Agrees-args Procedure.rmdir old v h = Agrees-rmdir3_args laws old v h
  Agrees-args Procedure.rename old v h = Agrees-rename3_args laws old v h
  Agrees-args Procedure.link old v h = Agrees-link3_args laws old v h
  Agrees-args Procedure.readdir old v h = Agrees-readdir3_args laws old v h
  Agrees-args Procedure.readdirplus old v h = Agrees-readdirplus3_args laws old v h
  Agrees-args Procedure.fsstat old v h = Agrees-fsstat3_args laws old v h
  Agrees-args Procedure.fsinfo old v h = Agrees-fsinfo3_args laws old v h
  Agrees-args Procedure.pathconf old v h = Agrees-pathconf3_args laws old v h
  Agrees-args Procedure.commit old v h = Agrees-commit3_args laws old v h

  -- The arguments of each procedure, in their ranges and limits, are encoded to a stream with room
  -- for them as the bytes that XdrBuffer packs on a host of either byte order in the layout of
  -- Tirpc/Layout.antt, which is XdrBuffer's own but for the attributes to set and the verifiers.
  -- From a stream with these bytes they are decoded again; but WRITE's data are lost, where the old
  -- object holds none, and decoding any arguments with a name is undefined.
  pub args_same_bytes :
      (p : Procedure) (old v : Args p)
      → SendableArgs p old v
      → (e : Endianness) (b : XdrBuffer) → args_layout lib.host p v e empty_buffer ≡ ok tt b
      → (s t : lib.Stream) → laws.Moves encode s b.buffer t
      → (s' t' : lib.Stream) → laws.Moves decode s' b.buffer t'
      → (xdr_args p encode v s ≡ done v t) × (xdr_args p decode old s' ≡ read_args p v t')
  args_same_bytes p old v h e b packed s t room s' t' next =
      Agrees-same_bytes laws (Agrees-args p old v h) e b packed s t room s' t' next
