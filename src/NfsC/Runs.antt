-- ===== src/NfsC/Runs.antt =====
-- Attributes as nfs3_rpc_tests_c/src/nfs3_xdr.c packs and unpacks them, at concrete values.
use nfstest.Prelude.{[], ◌∷◌, refl, true, arith, replicate}
use nfstest.Xdr.Word.{big}
use nfstest.Xdr.Codec.{pack, unpack, fresh}
use nfstest.Nfs.Attributes.{
  NfsFh3, Fattr3, WccData, fattr3_codec, post_op_attr_codec, wcc_data_codec, fattr3_fresh,
  post_op_attr_fresh, wcc_data_fresh,
}
use nfstest.Nfs.Lookup.{
  Getattr3Args, Access3Args, Readlink3Args, getattr3_args_codec, access3_args_codec,
  readlink3_args_codec,
}
use nfstest.Nfs.Transfer.{Read3Args, Commit3Args, read3_args_codec, commit3_args_codec}
use nfstest.Nfs.Volume.{Fsstat3Args, Pathconf3Args, fsstat3_args_codec, pathconf3_args_codec}
use nfstest.Nfs.FsInfo.{Fsinfo3Args, fsinfo3_args_codec}
use nfstest.NfsC.Handles.{
  xdr_pack_getattr3_args, xdr_unpack_getattr3_args, xdr_pack_access3_args, xdr_unpack_access3_args,
  xdr_pack_readlink3_args, xdr_unpack_readlink3_args, xdr_pack_read3_args, xdr_unpack_read3_args,
  xdr_pack_commit3_args, xdr_unpack_commit3_args, xdr_pack_fsstat3_args, xdr_unpack_fsstat3_args,
  xdr_pack_pathconf3_args, xdr_unpack_pathconf3_args, xdr_pack_fsinfo3_args,
  xdr_unpack_fsinfo3_args,
}
use nfstest.NfsC.Requests.{Fits, handle_args_same_bytes, handle_args_read_alike}
use nfstest.XdrC.Growth.{XdrBuf, Heap}
use nfstest.XdrC.Agree.{view, PackedAlike}
use nfstest.NfsC.Attributes.{
  xdr_pack_fattr3, xdr_pack_post_op_attr, xdr_pack_wcc_data, xdr_unpack_fattr3,
  xdr_unpack_post_op_attr, xdr_unpack_wcc_data,
}
use nfstest.NfsC.Packed.{attributes_same_bytes}
use nfstest.NfsC.Taken.{Taken}
use nfstest.NfsC.Unpacked.{attributes_read_alike}

abbrev every_request : Heap
every_request n = true

-- Twenty-two words of zeros in a full block.
abbrev zeros : XdrBuf
zeros = record { contents = replicate 88 0; room = 88; capacity = 88; pos = 0 }

abbrev directory : Fattr3
directory = record fresh { type_ = 2; mode = 0x1ed }

abbrev before_and_after : WccData
before_and_after = record fresh { after = record { follow = true; attributes = directory } }

attributes_same_bytes_example :
    PackedAlike
      (xdr_pack_fattr3 directory big every_request zeros)
      (pack directory big (view zeros))
    × PackedAlike
        (xdr_pack_post_op_attr before_and_after.after big every_request zeros)
        (pack before_and_after.after big (view zeros))
    × PackedAlike
        (xdr_pack_wcc_data before_and_after big every_request zeros)
        (pack before_and_after big (view zeros))
attributes_same_bytes_example =
    attributes_same_bytes big every_request zeros directory before_and_after.after before_and_after
      (record { written = omega arith; held = omega arith }) (λ k. refl) refl (omega arith)

attributes_read_alike_example :
    Taken zeros
      (unpack directory big (view zeros))
      (xdr_unpack_fattr3 directory big every_request zeros)
    × Taken zeros
        (unpack before_and_after.after big (view zeros))
        (xdr_unpack_post_op_attr before_and_after.after big every_request zeros)
    × Taken zeros
        (unpack before_and_after big (view zeros))
        (xdr_unpack_wcc_data before_and_after big every_request zeros)
attributes_read_alike_example =
    attributes_read_alike big every_request zeros directory before_and_after.after before_and_after
      (record { below = omega arith; reach = omega arith }) λ k. refl

abbrev root_handle : NfsFh3
root_handle = record { data_bytes = 1 ∷ 2 ∷ 3 ∷ [] }

abbrev getattr_args : Getattr3Args
getattr_args = record { object = root_handle }

abbrev access_args : Access3Args
access_args = record { object = root_handle; access = 63 }

abbrev readlink_args : Readlink3Args
readlink_args = record { symlink = root_handle }

abbrev read_args : Read3Args
read_args = record { file = root_handle; offset = 4096; count = 512 }

abbrev commit_args : Commit3Args
commit_args = record { file = root_handle; offset = 4096; count = 512 }

abbrev fsstat_args : Fsstat3Args
fsstat_args = record { fsroot = root_handle }

abbrev pathconf_args : Pathconf3Args
pathconf_args = record { object = root_handle }

abbrev fsinfo_args : Fsinfo3Args
fsinfo_args = record { fsroot = root_handle }

root_handle-Fits : Fits zeros root_handle
root_handle-Fits = record { short = omega arith; small = omega arith }

handle_args_same_bytes_example :
    PackedAlike
      (xdr_pack_getattr3_args getattr_args big every_request zeros)
      (pack getattr_args big (view zeros))
    × PackedAlike
        (xdr_pack_access3_args access_args big every_request zeros)
        (pack access_args big (view zeros))
    × PackedAlike
        (xdr_pack_readlink3_args readlink_args big every_request zeros)
        (pack readlink_args big (view zeros))
    × PackedAlike
        (xdr_pack_read3_args read_args big every_request zeros)
        (pack read_args big (view zeros))
    × PackedAlike
        (xdr_pack_commit3_args commit_args big every_request zeros)
        (pack commit_args big (view zeros))
    × PackedAlike
        (xdr_pack_fsstat3_args fsstat_args big every_request zeros)
        (pack fsstat_args big (view zeros))
    × PackedAlike
        (xdr_pack_pathconf3_args pathconf_args big every_request zeros)
        (pack pathconf_args big (view zeros))
    × PackedAlike
        (xdr_pack_fsinfo3_args fsinfo_args big every_request zeros)
        (pack fsinfo_args big (view zeros))
handle_args_same_bytes_example =
    handle_args_same_bytes big every_request zeros getattr_args access_args readlink_args read_args
      commit_args fsstat_args pathconf_args fsinfo_args
      (record { written = omega arith; held = omega arith }) (λ k. refl) refl root_handle-Fits
      root_handle-Fits root_handle-Fits root_handle-Fits root_handle-Fits root_handle-Fits
      root_handle-Fits root_handle-Fits

handle_args_read_alike_example :
    Taken zeros
      (unpack getattr_args big (view zeros))
      (xdr_unpack_getattr3_args getattr_args big every_request zeros)
    × Taken zeros
        (unpack access_args big (view zeros))
        (xdr_unpack_access3_args access_args big every_request zeros)
    × Taken zeros
        (unpack readlink_args big (view zeros))
        (xdr_unpack_readlink3_args readlink_args big every_request zeros)
    × Taken zeros
        (unpack read_args big (view zeros))
        (xdr_unpack_read3_args read_args big every_request zeros)
    × Taken zeros
        (unpack commit_args big (view zeros))
        (xdr_unpack_commit3_args commit_args big every_request zeros)
    × Taken zeros
        (unpack fsstat_args big (view zeros))
        (xdr_unpack_fsstat3_args fsstat_args big every_request zeros)
    × Taken zeros
        (unpack pathconf_args big (view zeros))
        (xdr_unpack_pathconf3_args pathconf_args big every_request zeros)
    × Taken zeros
        (unpack fsinfo_args big (view zeros))
        (xdr_unpack_fsinfo3_args fsinfo_args big every_request zeros)
handle_args_read_alike_example =
    handle_args_read_alike big every_request zeros getattr_args access_args readlink_args read_args
      commit_args fsstat_args pathconf_args fsinfo_args
      (record { below = omega arith; reach = omega arith }) λ k. refl
