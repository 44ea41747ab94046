-- ===== src/Tirpc/Agree/NameArgs.antt =====
-- The arguments that hold a name: the bytes of their layout. Reading them is undefined.
use nfstest.Prelude.{◌≡◌, Bool, true, false, length, Cases, ◌==◌, if◌then◌else◌, arith}
use nfstest.Xdr.Word.{IsU32}
use nfstest.Xdr.Buffer.{insert}
use nfstest.Xdr.Codec.{pack, when}
use nfstest.Nfs.Attributes.{
  nfs_fh3_codec, nfs_fh3_fresh, post_op_attr_fresh, wcc_data_fresh, fattr3_fresh,
  post_op_attr_codec, wcc_data_codec, fattr3_codec,
}
use nfstest.Tirpc.Stream.{encode, decode, done, undefined, halt, pure, XdrLib, XdrLaws}
use nfstest.Tirpc.Agree.{
  Agrees, Agrees-then, Agrees-last, Agrees-lost, Agrees-last_lost, Agrees-pure,
}
use nfstest.Tirpc.Agree.Values.{IsText, Agrees-enum, Agrees-own_text}
use nfstest.Tirpc.Agree.Attributes.{IsHandle, Agrees-nfs_fh3, Agrees-createverf3}
use nfstest.Tirpc.Agree.SetAttributes.{SendableSattr3, Agrees-sattr3}
use nfstest.Nfs.Lookup.{Lookup3Args, lookup3_args_codec}
use nfstest.Tirpc.NameArgs.{
  xdr_lookup3_args, xdr_create3_args, xdr_mkdir3_args, xdr_symlink3_args, xdr_mknod3_args,
  xdr_remove3_args, xdr_rmdir3_args, xdr_rename3_args, xdr_link3_args,
}
use nfstest.Nfs.Create.{
  Create3Args, create3_args_codec, Mkdir3Args, mkdir3_args_codec, exclusive, Createverf3,
}
use nfstest.Tirpc.Layout.{
  create3_args_layout, mkdir3_args_layout, symlink3_args_layout, mknod3_args_layout,
}
use nfstest.Nfs.MakeNode.{Symlink3Args, symlink3_args_codec, Mknod3Args, mknod3_args_codec}
use nfstest.Nfs.Names.{
  Remove3Args, remove3_args_codec, Rmdir3Args, rmdir3_args_codec, Rename3Args, rename3_args_codec,
  Link3Args, link3_args_codec,
}
use nfstest.Tirpc.Attributes.{xdr_createverf3}

pub record SendableLookup3Args (v : Lookup3Args) : Type 0 where
  pub what_dir : IsHandle v.what_dir
  pub what_name : IsText 255 v.what_name

pub record SendableCreate3Args (v : Create3Args) : Type 0 where
  pub where_dir : IsHandle v.where_dir
  pub where_name : IsText 255 v.where_name
  pub how_mode : IsU32 v.how_mode
  pub how_attributes : SendableSattr3 v.how_attributes
  pub how_verf : Cases (v.how_mode == exclusive) (length v.how_verf.data_bytes ≡ 8) (Unit {0})

pub record SendableMkdir3Args (v : Mkdir3Args) : Type 0 where
  pub where_dir : IsHandle v.where_dir
  pub where_name : IsText 255 v.where_name
  pub attributes : SendableSattr3 v.attributes

pub record SendableSymlink3Args (v : Symlink3Args) : Type 0 where
  pub where_dir : IsHandle v.where_dir
  pub where_name : IsText 255 v.where_name
  pub symlink_attributes : SendableSattr3 v.symlink_attributes
  pub symlink_data : IsText 4096 v.symlink_data

pub record SendableMknod3Args (v : Mknod3Args) : Type 0 where
  pub where_dir : IsHandle v.where_dir
  pub where_name : IsText 255 v.where_name
  pub what_type : IsU32 v.what_type
  pub what_attributes : SendableSattr3 v.what_attributes

pub record SendableRemove3Args (v : Remove3Args) : Type 0 where
  pub object_dir : IsHandle v.object_dir
  pub object_name : IsText 255 v.object_name

pub record SendableRmdir3Args (v : Rmdir3Args) : Type 0 where
  pub object_dir : IsHandle v.object_dir
  pub object_name : IsText 255 v.object_name

pub record SendableRename3Args (v : Rename3Args) : Type 0 where
  pub from_dir : IsHandle v.from_dir
  pub from_name : IsText 255 v.from_name
  pub to_dir : IsHandle v.to_dir
  pub to_name : IsText 255 v.to_name

pub record SendableLink3Args (v : Link3Args) : Type 0 where
  pub file : IsHandle v.file
  pub link_dir : IsHandle v.link_dir
  pub link_name : IsText 255 v.link_name

module _ ⦃lib : XdrLib⦄ (laws : XdrLaws lib) where
  -- The verifier of an exclusive CREATE.
  Agrees-how_verf :
      (flag : Bool) (old v : Createverf3)
      → Cases flag (length v.data_bytes ≡ 8) (Unit {0})
      → Agrees laws
          (when flag (insert v.data_bytes))
          (if flag then xdr_createverf3 encode v else pure v)
          (if flag then xdr_createverf3 decode old else pure old)
          v
          (done (if flag then v else old))
  Agrees-how_verf true old v h = Agrees-createverf3 laws old v h
  Agrees-how_verf false old v h = Agrees-pure v old

module _ ⦃lib : XdrLib⦄ (laws : XdrLaws lib) where
  pub Agrees-lookup3_args :
      (old v : Lookup3Args)
      → SendableLookup3Args v
      → Agrees laws
          (pack v)
          (xdr_lookup3_args encode v)
          (xdr_lookup3_args decode old)
          v
          (halt undefined)
  unfolding xdr_lookup3_args lookup3_args_codec
  Agrees-lookup3_args old v h =
      Agrees-then _ _ _ (Agrees-nfs_fh3 laws old.what_dir v.what_dir h.what_dir) (
        Agrees-last_lost _ _ (
          Agrees-own_text laws v.what_name 255 h.what_name.0 h.what_name.1 (omega arith)
            old.what_name))

  pub Agrees-create3_args :
      (old v : Create3Args)
      → SendableCreate3Args v
      → Agrees laws
          (create3_args_layout v)
          (xdr_create3_args encode v)
          (xdr_create3_args decode old)
          v
          (halt undefined)
  unfolding xdr_create3_args
  Agrees-create3_args old v h =
      Agrees-then _ _ _ (Agrees-nfs_fh3 laws old.where_dir v.where_dir h.where_dir) (
        Agrees-lost _ _ v.where_name
          (Agrees-own_text laws v.where_name 255 h.where_name.0 h.where_name.1 (omega arith)
            old.where_name)
          (Agrees-then _ _ _ (Agrees-enum laws old.how_mode v.how_mode h.how_mode) (
            Agrees-then _ _ _
              (Agrees-sattr3 laws old.how_attributes v.how_attributes h.how_attributes)
              (Agrees-last _ _ (
                Agrees-how_verf laws (v.how_mode == exclusive) old.how_verf v.how_verf
                  h.how_verf)))))

  pub Agrees-mkdir3_args :
      (old v : Mkdir3Args)
      → SendableMkdir3Args v
      → Agrees laws
          (mkdir3_args_layout v)
          (xdr_mkdir3_args encode v)
          (xdr_mkdir3_args decode old)
          v
          (halt undefined)
  unfolding xdr_mkdir3_args
  Agrees-mkdir3_args old v h =
      Agrees-then _ _ _ (Agrees-nfs_fh3 laws old.where_dir v.where_dir h.where_dir) (
        Agrees-lost _ _ v.where_name
          (Agrees-own_text laws v.where_name 255 h.where_name.0 h.where_name.1 (omega arith)
            old.where_name)
          (Agrees-last _ _ (Agrees-sattr3 laws old.attributes v.attributes h.attributes)))

  pub Agrees-symlink3_args :
      (old v : Symlink3Args)
      → SendableSymlink3Args v
      → Agrees laws
          (symlink3_args_layout v)
          (xdr_symlink3_args encode v)
          (xdr_symlink3_args decode old)
          v
          (halt undefined)
  unfolding xdr_symlink3_args
  Agrees-symlink3_args old v h =
      Agrees-then _ _ _ (Agrees-nfs_fh3 laws old.where_dir v.where_dir h.where_dir) (
        Agrees-lost _ _ v.where_name
          (Agrees-own_text laws v.where_name 255 h.where_name.0 h.where_name.1 (omega arith)
            old.where_name)
          (Agrees-then _ _ _
            (Agrees-sattr3 laws old.symlink_attributes v.symlink_attributes h.symlink_attributes)
            (Agrees-last_lost _ _ (
              Agrees-own_text laws v.symlink_data 4096 h.symlink_data.0 h.symlink_data.1
                (omega arith) old.symlink_data))))

  pub Agrees-mknod3_args :
      (old v : Mknod3Args)
      → SendableMknod3Args v
      → Agrees laws
          (mknod3_args_layout v)
          (xdr_mknod3_args encode v)
          (xdr_mknod3_args decode old)
          v
          (halt undefined)
  unfolding xdr_mknod3_args
  Agrees-mknod3_args old v h =
      Agrees-then _ _ _ (Agrees-nfs_fh3 laws old.where_dir v.where_dir h.where_dir) (
        Agrees-lost _ _ v.where_name
          (Agrees-own_text laws v.where_name 255 h.where_name.0 h.where_name.1 (omega arith)
            old.where_name)
          (Agrees-then _ _ _ (Agrees-enum laws old.what_type v.what_type h.what_type) (
            Agrees-last _ _
              (Agrees-sattr3 laws old.what_attributes v.what_attributes h.what_attributes))))

  pub Agrees-remove3_args :
      (old v : Remove3Args)
      → SendableRemove3Args v
      → Agrees laws
          (pack v)
          (xdr_remove3_args encode v)
          (xdr_remove3_args decode old)
          v
          (halt undefined)
  unfolding xdr_remove3_args remove3_args_codec
  Agrees-remove3_args old v h =
      Agrees-then _ _ _ (Agrees-nfs_fh3 laws old.object_dir v.object_dir h.object_dir) (
        Agrees-last_lost _ _ (
          Agrees-own_text laws v.object_name 255 h.object_name.0 h.object_name.1 (omega arith)
            old.object_name))

  pub Agrees-rmdir3_args :
      (old v : Rmdir3Args)
      → SendableRmdir3Args v
      → Agrees laws
          (pack v)
          (xdr_rmdir3_args encode v)
          (xdr_rmdir3_args decode old)
          v
          (halt undefined)
  unfolding xdr_rmdir3_args rmdir3_args_codec
  Agrees-rmdir3_args old v h =
      Agrees-then _ _ _ (Agrees-nfs_fh3 laws old.object_dir v.object_dir h.object_dir) (
        Agrees-last_lost _ _ (
          Agrees-own_text laws v.object_name 255 h.object_name.0 h.object_name.1 (omega arith)
            old.object_name))

  pub Agrees-rename3_args :
      (old v : Rename3Args)
      → SendableRename3Args v
      → Agrees laws
          (pack v)
          (xdr_rename3_args encode v)
          (xdr_rename3_args decode old)
          v
          (halt undefined)
  unfolding xdr_rename3_args rename3_args_codec
  Agrees-rename3_args old v h =
      Agrees-then _ _ _ (Agrees-nfs_fh3 laws old.from_dir v.from_dir h.from_dir) (
        Agrees-lost _ _ v.from_name
          (Agrees-own_text laws v.from_name 255 h.from_name.0 h.from_name.1 (omega arith)
            old.from_name)
          (Agrees-then _ _ _ (Agrees-nfs_fh3 laws old.to_dir v.to_dir h.to_dir) (
            Agrees-last_lost _ _ (
              Agrees-own_text laws v.to_name 255 h.to_name.0 h.to_name.1 (omega arith)
                old.to_name))))

  pub Agrees-link3_args :
      (old v : Link3Args)
      → SendableLink3Args v
      → Agrees laws
          (pack v)
          (xdr_link3_args encode v)
          (xdr_link3_args decode old)
          v
          (halt undefined)
  unfolding xdr_link3_args link3_args_codec
  Agrees-link3_args old v h = Agrees-then _ _ _ (Agrees-nfs_fh3 laws old.file v.file h.file) (
      Agrees-then _ _ _ (Agrees-nfs_fh3 laws old.link_dir v.link_dir h.link_dir) (
        Agrees-last_lost _ _ (
          Agrees-own_text laws v.link_name 255 h.link_name.0 h.link_name.1 (omega arith)
            old.link_name)))
