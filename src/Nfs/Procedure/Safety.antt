-- ===== src/Nfs/Procedure/Safety.antt =====
-- Deserializing a message never reads outside the buffer, whatever the bytes are.
use nfstest.Xdr.Word.{Endianness}
use nfstest.Xdr.Buffer.{XdrBuffer}
use nfstest.Xdr.Safety.{InReach, Sound, Safe}
use nfstest.Nfs.Reply.Safety.{Safe-res}
use nfstest.Nfs.Procedure.{
  Procedure, Args, Resok, Reply, args_codec, resok_codec, resok_fresh, reply_codec, getattr,
  setattr, lookup, access, readlink, read, write, create, mkdir, symlink, mknod, remove, rmdir,
  rename, link, readdir, readdirplus, fsstat, fsinfo, pathconf, commit,
}
use nfstest.Nfs.SetAttributes.Safety.{Safe-setattr3_args, Safe-setattr3_resok}
use nfstest.Nfs.Lookup.Safety.{
  Safe-getattr3_args, Safe-getattr3_resok, Safe-lookup3_args, Safe-lookup3_resok, Safe-access3_args,
  Safe-access3_resok, Safe-readlink3_args, Safe-readlink3_resok,
}
use nfstest.Nfs.Transfer.Safety.{
  Safe-read3_args, Safe-read3_resok, Safe-write3_args, Safe-write3_resok, Safe-commit3_args,
  Safe-commit3_resok,
}
use nfstest.Nfs.Names.Safety.{
  Safe-remove3_args, Safe-remove3_resok, Safe-rmdir3_args, Safe-rmdir3_resok, Safe-rename3_args,
  Safe-rename3_resok, Safe-link3_args, Safe-link3_resok,
}
use nfstest.Nfs.Directory.Safety.{
  Safe-readdir3_args, Safe-readdir3_resok, Safe-readdirplus3_args, Safe-readdirplus3_resok,
}
use nfstest.Nfs.Create.Safety.{
  Safe-create3_args, Safe-create3_resok, Safe-mkdir3_args, Safe-mkdir3_resok,
}
use nfstest.Nfs.MakeNode.Safety.{
  Safe-symlink3_args, Safe-symlink3_resok, Safe-mknod3_args, Safe-mknod3_resok,
}
use nfstest.Nfs.Volume.Safety.{
  Safe-fsstat3_args, Safe-fsstat3_resok, Safe-pathconf3_args, Safe-pathconf3_resok,
}
use nfstest.Nfs.FsInfo.Safety.{Safe-fsinfo3_args, Safe-fsinfo3_resok}

Safe-args : (p : Procedure) (old : Args p) → Safe ((args_codec p).deserialize old)
Safe-args getattr old = Safe-getattr3_args old
Safe-args setattr old = Safe-setattr3_args old
Safe-args lookup old = Safe-lookup3_args old
Safe-args access old = Safe-access3_args old
Safe-args readlink old = Safe-readlink3_args old
Safe-args read old = Safe-read3_args old
Safe-args write old = Safe-write3_args old
Safe-args create old = Safe-create3_args old
Safe-args mkdir old = Safe-mkdir3_args old
Safe-args symlink old = Safe-symlink3_args old
Safe-args mknod old = Safe-mknod3_args old
Safe-args remove old = Safe-remove3_args old
Safe-args rmdir old = Safe-rmdir3_args old
Safe-args rename old = Safe-rename3_args old
Safe-args link old = Safe-link3_args old
Safe-args readdir old = Safe-readdir3_args old
Safe-args readdirplus old = Safe-readdirplus3_args old
Safe-args fsstat old = Safe-fsstat3_args old
Safe-args fsinfo old = Safe-fsinfo3_args old
Safe-args pathconf old = Safe-pathconf3_args old
Safe-args commit old = Safe-commit3_args old

Safe-resok : (p : Procedure) (old : Resok p) → Safe ((resok_codec p).deserialize old)
Safe-resok getattr old = Safe-getattr3_resok old
Safe-resok setattr old = Safe-setattr3_resok old
Safe-resok lookup old = Safe-lookup3_resok old
Safe-resok access old = Safe-access3_resok old
Safe-resok readlink old = Safe-readlink3_resok old
Safe-resok read old = Safe-read3_resok old
Safe-resok write old = Safe-write3_resok old
Safe-resok create old = Safe-create3_resok old
Safe-resok mkdir old = Safe-mkdir3_resok old
Safe-resok symlink old = Safe-symlink3_resok old
Safe-resok mknod old = Safe-mknod3_resok old
Safe-resok remove old = Safe-remove3_resok old
Safe-resok rmdir old = Safe-rmdir3_resok old
Safe-resok rename old = Safe-rename3_resok old
Safe-resok link old = Safe-link3_resok old
Safe-resok readdir old = Safe-readdir3_resok old
Safe-resok readdirplus old = Safe-readdirplus3_resok old
Safe-resok fsstat old = Safe-fsstat3_resok old
Safe-resok fsinfo old = Safe-fsinfo3_resok old
Safe-resok pathconf old = Safe-pathconf3_resok old
Safe-resok commit old = Safe-commit3_resok old

-- Deserializing the arguments of any procedure from any bytes returns or throws: it never reads
-- outside the buffer, its recursion ends, the bytes are unchanged, and the read position only moves
-- on, to at most 3 past the end. The position was at most 3 past the end before.
pub args-Sound :
    (p : Procedure) (old : Args p) (e : Endianness) (b : XdrBuffer)
    → InReach b
    → Sound b ((args_codec p).deserialize old e b)
args-Sound p old e b h = (Safe-args p old).at e b h

-- Deserializing the reply of any procedure from any bytes returns or throws in the same way: it
-- never reads outside the buffer, and its recursion along linked entries ends. The read position
-- was at most 3 past the end before.
pub reply-Sound :
    (p : Procedure) (old : Reply p) (e : Endianness) (b : XdrBuffer)
    → InReach b
    → Sound b ((reply_codec p).deserialize old e b)
reply-Sound p old e b h =
    (Safe-res ⦃c = resok_codec p⦄ ⦃f = resok_fresh p⦄ (Safe-resok p) old).at e b h
