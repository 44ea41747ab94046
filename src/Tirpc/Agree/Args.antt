-- ===== src/Tirpc/Agree/Args.antt =====
-- The arguments without a name: the bytes of their layout, and what is read from them.
use nfstest.Prelude.{◌≤◌, ◌≡◌, [], length, arith}
use nfstest.Xdr.Word.{IsU32, IsU64}
use nfstest.Xdr.Codec.{pack, fresh}
use nfstest.Nfs.Attributes.{
  nfs_fh3_codec, nfs_fh3_fresh, post_op_attr_fresh, wcc_data_fresh, fattr3_fresh,
  post_op_attr_codec, wcc_data_codec, fattr3_codec,
}
use nfstest.Tirpc.Stream.{encode, decode, done, XdrLib, XdrLaws}
use nfstest.Tirpc.Agree.{Agrees, Agrees-then, Agrees-last}
use nfstest.Tirpc.Agree.Values.{
  Agrees-u_int, Agrees-u_hyper, Agrees-enum, Agrees-own_data, Agrees-raw_u64,
}
use nfstest.Tirpc.Agree.Attributes.{IsHandle, Agrees-nfs_fh3}
use nfstest.Tirpc.Agree.SetAttributes.{Present, Agrees-optional, SendableSattr3, Agrees-sattr3}
use nfstest.Nfs.Lookup.{
  Getattr3Args, getattr3_args_codec, Access3Args, access3_args_codec, Readlink3Args,
  readlink3_args_codec,
}
use nfstest.Tirpc.Args.{
  xdr_getattr3_args, xdr_setattr3_args, xdr_access3_args, xdr_readlink3_args, xdr_read3_args,
  xdr_write3_args, xdr_readdir3_args, xdr_readdirplus3_args, xdr_fsstat3_args, xdr_fsinfo3_args,
  xdr_pathconf3_args, xdr_commit3_args,
}
use nfstest.Nfs.SetAttributes.{Setattr3Args, setattr3_args_codec}
use nfstest.Tirpc.Layout.{setattr3_args_layout, readdir3_args_layout, readdirplus3_args_layout}
use nfstest.Nfs.Transfer.{
  Read3Args, read3_args_codec, Write3Args, write3_args_codec, Commit3Args, commit3_args_codec,
}
use nfstest.Nfs.Directory.{
  Readdir3Args, readdir3_args_codec, Readdirplus3Args, readdirplus3_args_codec,
}
use nfstest.Nfs.Volume.{Fsstat3Args, fsstat3_args_codec, Pathconf3Args, pathconf3_args_codec}
use nfstest.Nfs.FsInfo.{Fsinfo3Args, fsinfo3_args_codec}

pub record SendableGetattr3Args (v : Getattr3Args) : Type 0 where
  pub object : IsHandle v.object

pub record SendableSetattr3Args (v : Setattr3Args) : Type 0 where
  pub object : IsHandle v.object
  pub new_attributes : SendableSattr3 v.new_attributes
  pub guard : Present IsHandle v.guard

pub record SendableAccess3Args (v : Access3Args) : Type 0 where
  pub object : IsHandle v.object
  pub access : IsU32 v.access

pub record SendableReadlink3Args (v : Readlink3Args) : Type 0 where
  pub symlink : IsHandle v.symlink

pub record SendableRead3Args (v : Read3Args) : Type 0 where
  pub file : IsHandle v.file
  pub offset : IsU64 v.offset
  pub count : IsU32 v.count

pub record SendableWrite3Args (v : Write3Args) : Type 0 where
  pub file : IsHandle v.file
  pub offset : IsU64 v.offset
  pub count : IsU32 v.count
  pub stable : IsU32 v.stable
  pub data_bytes : length v.data_bytes ≤ 65536

pub record SendableReaddir3Args (v : Readdir3Args) : Type 0 where
  pub dir : IsHandle v.dir
  pub cookie : IsU64 v.cookie
  pub cookieverf : IsU64 v.cookieverf
  pub count : IsU32 v.count

pub record SendableReaddirplus3Args (v : Readdirplus3Args) : Type 0 where
  pub dir : IsHandle v.dir
  pub cookie : IsU64 v.cookie
  pub cookieverf : IsU64 v.cookieverf
  pub dircount : IsU32 v.dircount
  pub maxcount : IsU32 v.maxcount

pub record SendableFsstat3Args (v : Fsstat3Args) : Type 0 where
  pub fsroot : IsHandle v.fsroot

pub record SendableFsinfo3Args (v : Fsinfo3Args) : Type 0 where
  pub fsroot : IsHandle v.fsroot

pub record SendablePathconf3Args (v : Pathconf3Args) : Type 0 where
  pub object : IsHandle v.object

pub record SendableCommit3Args (v : Commit3Args) : Type 0 where
  pub file : IsHandle v.file
  pub offset : IsU64 v.offset
  pub count : IsU32 v.count

module _ ⦃lib : XdrLib⦄ (laws : XdrLaws lib) where
  pub Agrees-getattr3_args :
      (old v : Getattr3Args)
      → SendableGetattr3Args v
      → Agrees laws (pack v) (xdr_getattr3_args encode v) (xdr_getattr3_args decode old) v (done v)
  unfolding xdr_getattr3_args getattr3_args_codec
  Agrees-getattr3_args old v h = Agrees-last _ _ (Agrees-nfs_fh3 laws old.object v.object h.object)

  pub Agrees-setattr3_args :
      (old v : Setattr3Args)
      → SendableSetattr3Args v
      → Agrees laws
          (setattr3_args_layout v)
          (xdr_setattr3_args encode v)
          (xdr_setattr3_args decode old)
          v
          (done v)
  unfolding xdr_setattr3_args
  Agrees-setattr3_args old v h =
      Agrees-then _ _ _ (Agrees-nfs_fh3 laws old.object v.object h.object) (
        Agrees-then _ _ _ (Agrees-sattr3 laws old.new_attributes v.new_attributes h.new_attributes)
          (Agrees-last _ _
            (Agrees-optional laws _ old.guard v.guard (Agrees-nfs_fh3 laws fresh) h.guard)))

  pub Agrees-access3_args :
      (old v : Access3Args)
      → SendableAccess3Args v
      → Agrees laws (pack v) (xdr_access3_args encode v) (xdr_access3_args decode old) v (done v)
  unfolding xdr_access3_args access3_args_codec
  Agrees-access3_args old v h =
      Agrees-then _ _ _ (Agrees-nfs_fh3 laws old.object v.object h.object)
        (Agrees-last _ _ (Agrees-u_int laws old.access v.access h.access))

  pub Agrees-readlink3_args :
      (old v : Readlink3Args)
      → SendableReadlink3Args v
      → Agrees laws
          (pack v)
          (xdr_readlink3_args encode v)
          (xdr_readlink3_args decode old)
          v
          (done v)
  unfolding xdr_readlink3_args readlink3_args_codec
  Agrees-readlink3_args old v h =
      Agrees-last _ _ (Agrees-nfs_fh3 laws old.symlink v.symlink h.symlink)

  pub Agrees-read3_args :
      (old v : Read3Args)
      → SendableRead3Args v
      → Agrees laws (pack v) (xdr_read3_args encode v) (xdr_read3_args decode old) v (done v)
  unfolding xdr_read3_args read3_args_codec
  Agrees-read3_args old v h = Agrees-then _ _ _ (Agrees-nfs_fh3 laws old.file v.file h.file) (
      Agrees-then _ _ _ (Agrees-u_hyper laws old.offset v.offset h.offset)
        (Agrees-last _ _ (Agrees-u_int laws old.count v.count h.count)))

  -- The data are not in the arguments that are read.
  pub Agrees-write3_args :
      (old v : Write3Args)
      → SendableWrite3Args v
      → old.data_bytes ≡ []
      → Agrees laws
          (pack v)
          (xdr_write3_args encode v)
          (xdr_write3_args decode old)
          v
          (done (record v { data_bytes = [] }))
  unfolding xdr_write3_args write3_args_codec
  Agrees-write3_args old v h empty = rw empty (
      Agrees-then _ _ _ (Agrees-nfs_fh3 laws old.file v.file h.file) (
        Agrees-then _ _ _ (Agrees-u_hyper laws old.offset v.offset h.offset) (
          Agrees-then _ _ _ (Agrees-u_int laws old.count v.count h.count) (
            Agrees-then _ _ _ (Agrees-enum laws old.stable v.stable h.stable) (
              Agrees-last _ _
                (Agrees-own_data laws v.data_bytes 65536 h.data_bytes (omega arith)))))))

  pub Agrees-readdir3_args :
      (old v : Readdir3Args)
      → SendableReaddir3Args v
      → Agrees laws
          (readdir3_args_layout lib.host v)
          (xdr_readdir3_args encode v)
          (xdr_readdir3_args decode old)
          v
          (done v)
  unfolding xdr_readdir3_args
  Agrees-readdir3_args old v h = Agrees-then _ _ _ (Agrees-nfs_fh3 laws old.dir v.dir h.dir) (
      Agrees-then _ _ _ (Agrees-u_hyper laws old.cookie v.cookie h.cookie) (
        Agrees-then _ _ _ (Agrees-raw_u64 laws old.cookieverf v.cookieverf h.cookieverf)
          (Agrees-last _ _ (Agrees-u_int laws old.count v.count h.count))))

  pub Agrees-readdirplus3_args :
      (old v : Readdirplus3Args)
      → SendableReaddirplus3Args v
      → Agrees laws
          (readdirplus3_args_layout lib.host v)
          (xdr_readdirplus3_args encode v)
          (xdr_readdirplus3_args decode old)
          v
          (done v)
  unfolding xdr_readdirplus3_args
  Agrees-readdirplus3_args old v h = Agrees-then _ _ _ (Agrees-nfs_fh3 laws old.dir v.dir h.dir) (
      Agrees-then _ _ _ (Agrees-u_hyper laws old.cookie v.cookie h.cookie) (
        Agrees-then _ _ _ (Agrees-raw_u64 laws old.cookieverf v.cookieverf h.cookieverf) (
          Agrees-then _ _ _ (Agrees-u_int laws old.dircount v.dircount h.dircount)
            (Agrees-last _ _ (Agrees-u_int laws old.maxcount v.maxcount h.maxcount)))))

  pub Agrees-fsstat3_args :
      (old v : Fsstat3Args)
      → SendableFsstat3Args v
      → Agrees laws (pack v) (xdr_fsstat3_args encode v) (xdr_fsstat3_args decode old) v (done v)
  unfolding xdr_fsstat3_args fsstat3_args_codec
  Agrees-fsstat3_args old v h = Agrees-last _ _ (Agrees-nfs_fh3 laws old.fsroot v.fsroot h.fsroot)

  pub Agrees-fsinfo3_args :
      (old v : Fsinfo3Args)
      → SendableFsinfo3Args v
      → Agrees laws (pack v) (xdr_fsinfo3_args encode v) (xdr_fsinfo3_args decode old) v (done v)
  unfolding xdr_fsinfo3_args fsinfo3_args_codec
  Agrees-fsinfo3_args old v h = Agrees-last _ _ (Agrees-nfs_fh3 laws old.fsroot v.fsroot h.fsroot)

  pub Agrees-pathconf3_args :
      (old v : Pathconf3Args)
      → SendablePathconf3Args v
      → Agrees laws
          (pack v)
          (xdr_pathconf3_args encode v)
          (xdr_pathconf3_args decode old)
          v
          (done v)
  unfolding xdr_pathconf3_args pathconf3_args_codec
  Agrees-pathconf3_args old v h = Agrees-last _ _ (Agrees-nfs_fh3 laws old.object v.object h.object)

  pub Agrees-commit3_args :
      (old v : Commit3Args)
      → SendableCommit3Args v
      → Agrees laws (pack v) (xdr_commit3_args encode v) (xdr_commit3_args decode old) v (done v)
  unfolding xdr_commit3_args commit3_args_codec
  Agrees-commit3_args old v h = Agrees-then _ _ _ (Agrees-nfs_fh3 laws old.file v.file h.file) (
      Agrees-then _ _ _ (Agrees-u_hyper laws old.offset v.offset h.offset)
        (Agrees-last _ _ (Agrees-u_int laws old.count v.count h.count)))
