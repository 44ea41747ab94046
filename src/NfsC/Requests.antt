-- ===== src/NfsC/Requests.antt =====
-- Arguments with a handle, as nfs3_rpc_tests_c/src/nfs3_xdr.c packs and unpacks them,
-- beside the structures of nfs3_rpc_tests/include/nfs3/nfs3_types.hpp.
use nfstest.Prelude.{◌+◌, ◌≤◌, ◌^◌, length, arith}
use nfstest.Xdr.Word.{Endianness}
use nfstest.Xdr.Codec.{pack, unpack}
use nfstest.Xdr.Wire.{IsAligned}
use nfstest.Xdr.Opaque.{IsShort}
use nfstest.Nfs.Attributes.{NfsFh3, nfs_fh3_codec}
use nfstest.Nfs.Lookup.{
  Getattr3Args, getattr3_args_codec, Access3Args, access3_args_codec, Readlink3Args,
  readlink3_args_codec,
}
use nfstest.Nfs.Transfer.{Read3Args, read3_args_codec, Commit3Args, commit3_args_codec}
use nfstest.Nfs.Volume.{Fsstat3Args, fsstat3_args_codec, Pathconf3Args, pathconf3_args_codec}
use nfstest.Nfs.FsInfo.{Fsinfo3Args, fsinfo3_args_codec}
use nfstest.XdrC.Growth.{XdrBuf, Heap}
use nfstest.XdrC.Capacity.{IsValid, Grants}
use nfstest.XdrC.Agree.{PackedAlike, view}
use nfstest.XdrC.Reading.{Readable}
use nfstest.NfsC.Packed.{packed_alike}
use nfstest.NfsC.Taken.{Taken}
use nfstest.NfsC.Handles.{
  xdr_pack_getattr3_args, xdr_unpack_getattr3_args, xdr_pack_access3_args, xdr_unpack_access3_args,
  xdr_pack_readlink3_args, xdr_unpack_readlink3_args, xdr_pack_read3_args, xdr_unpack_read3_args,
  xdr_pack_commit3_args, xdr_unpack_commit3_args, xdr_pack_fsstat3_args, xdr_unpack_fsstat3_args,
  xdr_pack_pathconf3_args, xdr_unpack_pathconf3_args, xdr_pack_fsinfo3_args,
  xdr_unpack_fsinfo3_args,
}
use nfstest.NfsC.Handled.{
  Alike-getattr3_args, Takes-getattr3_args, Alike-access3_args, Takes-access3_args,
  Alike-readlink3_args, Takes-readlink3_args, Alike-read3_args, Takes-read3_args,
  Alike-commit3_args, Takes-commit3_args, Alike-fsstat3_args, Takes-fsstat3_args,
  Alike-pathconf3_args, Takes-pathconf3_args, Alike-fsinfo3_args, Takes-fsinfo3_args,
}

-- A handle that a buffer has room for behind what it holds, with two numbers behind it.
pub record Fits (b : XdrBuf) (fh : NfsFh3) : Type 0 where
  pub short : IsShort fh.data_bytes
  pub small : length b.contents + length fh.data_bytes + 20 ≤ 2 ^ 63

-- Where no request for memory is refused, behind whole units: the C suite packs the arguments that
-- have a handle and numbers as the C++ program serializes them, on hosts of either byte order. The
-- handle has fewer than 2^32 bytes, and the buffer stays below 2^63 bytes.
pub handle_args_same_bytes :
    (e : Endianness) (h : Heap) (b : XdrBuf) (getattr : Getattr3Args) (access : Access3Args)
    (readlink : Readlink3Args) (read : Read3Args) (commit : Commit3Args) (fsstat : Fsstat3Args)
    (pathconf : Pathconf3Args) (fsinfo : Fsinfo3Args)
    → IsValid b
    → Grants h
    → IsAligned b.contents
    → Fits b getattr.object
    → Fits b access.object
    → Fits b readlink.symlink
    → Fits b read.file
    → Fits b commit.file
    → Fits b fsstat.fsroot
    → Fits b pathconf.object
    → Fits b fsinfo.fsroot
    → PackedAlike (xdr_pack_getattr3_args getattr e h b) (pack getattr e (view b))
      × PackedAlike (xdr_pack_access3_args access e h b) (pack access e (view b))
      × PackedAlike (xdr_pack_readlink3_args readlink e h b) (pack readlink e (view b))
      × PackedAlike (xdr_pack_read3_args read e h b) (pack read e (view b))
      × PackedAlike (xdr_pack_commit3_args commit e h b) (pack commit e (view b))
      × PackedAlike (xdr_pack_fsstat3_args fsstat e h b) (pack fsstat e (view b))
      × PackedAlike (xdr_pack_pathconf3_args pathconf e h b) (pack pathconf e (view b))
      × PackedAlike (xdr_pack_fsinfo3_args fsinfo e h b) (pack fsinfo e (view b))
handle_args_same_bytes e h b getattr access readlink read commit fsstat pathconf fsinfo v g k h0 h1
      h2 h3 h4 h5 h6 h7 =
    (
      packed_alike e h b (Alike-getattr3_args getattr h0.short) v g k (omega (arith, h0.small)),
      packed_alike e h b (Alike-access3_args access h1.short) v g k (omega (arith, h1.small)),
      packed_alike e h b (Alike-readlink3_args readlink h2.short) v g k (omega (arith, h2.small)),
      packed_alike e h b (Alike-read3_args read h3.short) v g k (omega (arith, h3.small)),
      packed_alike e h b (Alike-commit3_args commit h4.short) v g k (omega (arith, h4.small)),
      packed_alike e h b (Alike-fsstat3_args fsstat h5.short) v g k (omega (arith, h5.small)),
      packed_alike e h b (Alike-pathconf3_args pathconf h6.short) v g k (omega (arith, h6.small)),
      packed_alike e h b (Alike-fsinfo3_args fsinfo h7.short) v g k (omega (arith, h7.small)),
    )

-- Where no request for memory is refused, on a buffer of fewer than 2^32 - 1 bytes: arguments with a
-- handle and numbers that the C++ program deserializes are unpacked by the C suite to the same
-- object, up to the same position.
pub handle_args_read_alike :
    (e : Endianness) (h : Heap) (b : XdrBuf) (getattr : Getattr3Args) (access : Access3Args)
    (readlink : Readlink3Args) (read : Read3Args) (commit : Commit3Args) (fsstat : Fsstat3Args)
    (pathconf : Pathconf3Args) (fsinfo : Fsinfo3Args)
    → Readable b
    → Grants h
    → Taken b (unpack getattr e (view b)) (xdr_unpack_getattr3_args getattr e h b)
      × Taken b (unpack access e (view b)) (xdr_unpack_access3_args access e h b)
      × Taken b (unpack readlink e (view b)) (xdr_unpack_readlink3_args readlink e h b)
      × Taken b (unpack read e (view b)) (xdr_unpack_read3_args read e h b)
      × Taken b (unpack commit e (view b)) (xdr_unpack_commit3_args commit e h b)
      × Taken b (unpack fsstat e (view b)) (xdr_unpack_fsstat3_args fsstat e h b)
      × Taken b (unpack pathconf e (view b)) (xdr_unpack_pathconf3_args pathconf e h b)
      × Taken b (unpack fsinfo e (view b)) (xdr_unpack_fsinfo3_args fsinfo e h b)
handle_args_read_alike e h b getattr access readlink read commit fsstat pathconf fsinfo k g = (
  (Takes-getattr3_args getattr).at e h b k g,
  (Takes-access3_args access).at e h b k g,
  (Takes-readlink3_args readlink).at e h b k g,
  (Takes-read3_args read).at e h b k g,
  (Takes-commit3_args commit).at e h b k g,
  (Takes-fsstat3_args fsstat).at e h b k g,
  (Takes-pathconf3_args pathconf).at e h b k g,
  (Takes-fsinfo3_args fsinfo).at e h b k g,
)
