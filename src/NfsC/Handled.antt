-- ===== src/NfsC/Handled.antt =====
-- Handles and arguments with a handle, as nfs3_rpc_tests_c/src/nfs3_xdr.c packs and unpacks them,
-- beside the structures of nfs3_rpc_tests/include/nfs3/nfs3_types.hpp.
use nfstest.Prelude.{
  ℕ, zero, ◌+◌, ◌≤◌, ◌≡◌, refl, ap, sym, Option, none, some, List, length, length-append,
  length-replicate, replicate, arith,
}
use nfstest.Xdr.Word.{Endianness}
use nfstest.Xdr.Buffer
use nfstest.Xdr.Buffer.{padding_of, unpack_u32, unpack_bytes}
use nfstest.Xdr.Codec.{pack, unpack}
use nfstest.Xdr.Opaque.{network_opaque, IsShort, pack_bytes-Packs}
use nfstest.Nfs.Attributes.{NfsFh3, nfs_fh3_codec}
use nfstest.Nfs.Lookup.{
  Getattr3Args, getattr3_args_codec, Access3Args, access3_args_codec, Readlink3Args,
  readlink3_args_codec,
}
use nfstest.Nfs.Transfer.{Read3Args, read3_args_codec, Commit3Args, commit3_args_codec}
use nfstest.Nfs.Volume.{Fsstat3Args, fsstat3_args_codec, Pathconf3Args, pathconf3_args_codec}
use nfstest.Nfs.FsInfo.{Fsinfo3Args, fsinfo3_args_codec}
use nfstest.XdrC.Growth.{XdrBuf, Heap, pure, ◌>>=◌}
use nfstest.XdrC.Codec.{xdr_unpack_opaque}
use nfstest.XdrC.Packing.{opaque-Appends}
use nfstest.XdrC.Agree.{view}
use nfstest.XdrC.Reading.{told, SameRead, answer, SameReader-uint32, SameReader-uint64}
use nfstest.XdrC.Unpacking.{counted, unpackers_same}
use nfstest.NfsC.Packed.{Alike, Alike->>, Alike-u32, Alike-u64}
use nfstest.NfsC.Taken.{Taken, Takes, Takes-into, Takes->>=, Takes-pure}
use nfstest.NfsC.Handles.{
  xdr_pack_nfs_fh3, xdr_unpack_nfs_fh3, opaque_into_new, xdr_pack_getattr3_args,
  xdr_unpack_getattr3_args, xdr_pack_access3_args, xdr_unpack_access3_args, xdr_pack_readlink3_args,
  xdr_unpack_readlink3_args, xdr_pack_read3_args, xdr_unpack_read3_args, xdr_pack_commit3_args,
  xdr_unpack_commit3_args, xdr_pack_fsstat3_args, xdr_unpack_fsstat3_args, xdr_pack_pathconf3_args,
  xdr_unpack_pathconf3_args, xdr_pack_fsinfo3_args, xdr_unpack_fsinfo3_args,
}

network_opaque-length : (bytes : List ℕ) → length (network_opaque bytes) ≤ length bytes + 8
unfolding padding_of
network_opaque-length bytes = omega (
  arith,
  length-append bytes (replicate (padding_of (length bytes)) 0),
  length-replicate (padding_of (length bytes)) (zero),
)

Alike-nfs_fh3 :
    (fh : NfsFh3)
    → IsShort fh.data_bytes
    → Alike (xdr_pack_nfs_fh3 fh) (pack fh) (length fh.data_bytes + 8)
unfolding xdr_pack_nfs_fh3 nfs_fh3_codec
Alike-nfs_fh3 fh h = record {
  bytes = network_opaque fh.data_bytes;
  appends = λ front k. opaque-Appends front fh.data_bytes k;
  packs = pack_bytes-Packs fh.data_bytes h;
  size = network_opaque-length fh.data_bytes;
}

-- Data that were unpacked stand behind a length word.
answer-some :
    (e : Endianness) (f : ℕ → Buffer.M (List ℕ)) (o : Buffer.Outcome ℕ) (a : List ℕ)
    → told (Buffer.continue o e f) ≡ some a
    → (answer {C = ℕ × Option (List ℕ)} (0, none) (λ n t. (n, t)) o (some a)).1 ≡ some a
answer-some e f (Buffer.ok c d) a h = refl
answer-some e f (Buffer.threw x d) a h = absurd (cc)
answer-some e f Buffer.fault a h = absurd (cc)
answer-some e f Buffer.stuck a h = absurd (cc)

Taken-opaque :
    (e : Endianness) (h : Heap) (b : XdrBuf) (p : Buffer.Outcome (List ℕ))
    → p ≡ unpack_bytes e (view b)
    → SameRead b
        (answer (0, none) (λ n t. (n, t)) (unpack_u32 e (view b)) (told p))
        (xdr_unpack_opaque 0 e h b)
        p
    → Taken b p (opaque_into_new e h b)
unfolding opaque_into_new unpack_bytes ◌>>=◌ pure Buffer.◌>>=◌
Taken-opaque e h b (Buffer.ok a d) same s =
    rw (s.ends, answer-some e counted (unpack_u32 e (view b)) a (ap (λ o. told o) (sym same)))
      (record { heap = s.heap; ends = refl; grants = s.grants; onward = s.sound })
Taken-opaque e h b (Buffer.threw x d) same s = tt
Taken-opaque e h b Buffer.fault same s = tt
Taken-opaque e h b Buffer.stuck same s = tt

Takes-opaque : Takes opaque_into_new unpack_bytes
Takes-opaque = record {
  at = λ e h b k g.
      let (_, _, _, _, _, of_opaque) = unpackers_same e h b 0 k g in
      Taken-opaque e h b (unpack_bytes e (view b)) refl of_opaque;
}

Takes-nfs_fh3 : (fh : NfsFh3) → Takes xdr_unpack_nfs_fh3 (unpack fh)
unfolding xdr_unpack_nfs_fh3 nfs_fh3_codec
Takes-nfs_fh3 fh = Takes->>= Takes-opaque λ d. Takes-pure _

pub Alike-getattr3_args :
    (args : Getattr3Args)
    → IsShort args.object.data_bytes
    → Alike (xdr_pack_getattr3_args args) (pack args) (length args.object.data_bytes + 8)
unfolding xdr_pack_getattr3_args getattr3_args_codec
Alike-getattr3_args args h = Alike-nfs_fh3 args.object h

pub Takes-getattr3_args :
    (args : Getattr3Args) → Takes (xdr_unpack_getattr3_args args) (unpack args)
unfolding xdr_unpack_getattr3_args getattr3_args_codec
Takes-getattr3_args args = Takes->>= (Takes-nfs_fh3 args.object) λ object. Takes-pure _

pub Alike-access3_args :
    (args : Access3Args)
    → IsShort args.object.data_bytes
    → Alike (xdr_pack_access3_args args) (pack args) (length args.object.data_bytes + 8 + 4)
unfolding xdr_pack_access3_args access3_args_codec
Alike-access3_args args h = Alike->> (Alike-nfs_fh3 args.object h) (Alike-u32 args.access)

pub Takes-access3_args : (args : Access3Args) → Takes (xdr_unpack_access3_args args) (unpack args)
unfolding xdr_unpack_access3_args access3_args_codec
Takes-access3_args args =
    Takes->>= (Takes-nfs_fh3 args.object)
      λ object. Takes->>= (Takes-into args.access SameReader-uint32) λ access. Takes-pure _

pub Alike-readlink3_args :
    (args : Readlink3Args)
    → IsShort args.symlink.data_bytes
    → Alike (xdr_pack_readlink3_args args) (pack args) (length args.symlink.data_bytes + 8)
unfolding xdr_pack_readlink3_args readlink3_args_codec
Alike-readlink3_args args h = Alike-nfs_fh3 args.symlink h

pub Takes-readlink3_args :
    (args : Readlink3Args) → Takes (xdr_unpack_readlink3_args args) (unpack args)
unfolding xdr_unpack_readlink3_args readlink3_args_codec
Takes-readlink3_args args = Takes->>= (Takes-nfs_fh3 args.symlink) λ symlink. Takes-pure _

pub Alike-read3_args :
    (args : Read3Args)
    → IsShort args.file.data_bytes
    → Alike (xdr_pack_read3_args args) (pack args) (length args.file.data_bytes + 8 + 12)
unfolding xdr_pack_read3_args read3_args_codec
Alike-read3_args args h =
    Alike->> (Alike-nfs_fh3 args.file h) (Alike->> (Alike-u64 args.offset) (Alike-u32 args.count))

pub Takes-read3_args : (args : Read3Args) → Takes (xdr_unpack_read3_args args) (unpack args)
unfolding xdr_unpack_read3_args read3_args_codec
Takes-read3_args args = Takes->>= (Takes-nfs_fh3 args.file) λ file.
    Takes->>= (Takes-into args.offset SameReader-uint64)
      λ offset. Takes->>= (Takes-into args.count SameReader-uint32) λ count. Takes-pure _

pub Alike-commit3_args :
    (args : Commit3Args)
    → IsShort args.file.data_bytes
    → Alike (xdr_pack_commit3_args args) (pack args) (length args.file.data_bytes + 8 + 12)
unfolding xdr_pack_commit3_args commit3_args_codec
Alike-commit3_args args h =
    Alike->> (Alike-nfs_fh3 args.file h) (Alike->> (Alike-u64 args.offset) (Alike-u32 args.count))

pub Takes-commit3_args : (args : Commit3Args) → Takes (xdr_unpack_commit3_args args) (unpack args)
unfolding xdr_unpack_commit3_args commit3_args_codec
Takes-commit3_args args = Takes->>= (Takes-nfs_fh3 args.file) λ file.
    Takes->>= (Takes-into args.offset SameReader-uint64)
      λ offset. Takes->>= (Takes-into args.count SameReader-uint32) λ count. Takes-pure _

pub Alike-fsstat3_args :
    (args : Fsstat3Args)
    → IsShort args.fsroot.data_bytes
    → Alike (xdr_pack_fsstat3_args args) (pack args) (length args.fsroot.data_bytes + 8)
unfolding xdr_pack_fsstat3_args fsstat3_args_codec
Alike-fsstat3_args args h = Alike-nfs_fh3 args.fsroot h

pub Takes-fsstat3_args : (args : Fsstat3Args) → Takes (xdr_unpack_fsstat3_args args) (unpack args)
unfolding xdr_unpack_fsstat3_args fsstat3_args_codec
Takes-fsstat3_args args = Takes->>= (Takes-nfs_fh3 args.fsroot) λ fsroot. Takes-pure _

pub Alike-pathconf3_args :
    (args : Pathconf3Args)
    → IsShort args.object.data_bytes
    → Alike (xdr_pack_pathconf3_args args) (pack args) (length args.object.data_bytes + 8)
unfolding xdr_pack_pathconf3_args pathconf3_args_codec
Alike-pathconf3_args args h = Alike-nfs_fh3 args.object h

pub Takes-pathconf3_args :
    (args : Pathconf3Args) → Takes (xdr_unpack_pathconf3_args args) (unpack args)
unfolding xdr_unpack_pathconf3_args pathconf3_args_codec
Takes-pathconf3_args args = Takes->>= (Takes-nfs_fh3 args.object) λ object. Takes-pure _

pub Alike-fsinfo3_args :
    (args : Fsinfo3Args)
    → IsShort args.fsroot.data_bytes
    → Alike (xdr_pack_fsinfo3_args args) (pack args) (length args.fsroot.data_bytes + 8)
unfolding xdr_pack_fsinfo3_args fsinfo3_args_codec
Alike-fsinfo3_args args h = Alike-nfs_fh3 args.fsroot h

pub Takes-fsinfo3_args : (args : Fsinfo3Args) → Takes (xdr_unpack_fsinfo3_args args) (unpack args)
unfolding xdr_unpack_fsinfo3_args fsinfo3_args_codec
Takes-fsinfo3_args args = Takes->>= (Takes-nfs_fh3 args.fsroot) λ fsroot. Takes-pure _
