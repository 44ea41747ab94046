-- ===== src/Nfs/Procedure/RoundTrip.antt =====
-- Every message of the protocol is read back as it was written.
use nfstest.Xdr.Wire.{Wire, RoundTrip, Wire-RoundTrip}
use nfstest.Nfs.Reply.RoundTrip.{ResFits, Wire-res}
use nfstest.Nfs.Procedure.{
  Procedure, Args, Resok, Reply, args_codec, resok_codec, resok_fresh, reply_codec, getattr,
  setattr, lookup, access, readlink, read, write, create, mkdir, symlink, mknod, remove, rmdir,
  rename, link, readdir, readdirplus, fsstat, fsinfo, pathconf, commit,
}
use nfstest.Nfs.SetAttributes.RoundTrip.{
  Wire-setattr3_args, Setattr3ArgsFits, Wire-setattr3_resok, Setattr3ResokFits,
}
use nfstest.Nfs.Lookup.RoundTrip.{
  Wire-getattr3_args, Getattr3ArgsFits, Wire-getattr3_resok, Getattr3ResokFits, Wire-lookup3_args,
  Lookup3ArgsFits, Wire-lookup3_resok, Lookup3ResokFits, Wire-access3_args, Access3ArgsFits,
  Wire-access3_resok, Access3ResokFits, Wire-readlink3_args, Readlink3ArgsFits,
  Wire-readlink3_resok, Readlink3ResokFits,
}
use nfstest.Nfs.Transfer.RoundTrip.{
  Wire-read3_args, Read3ArgsFits, Wire-read3_resok, Read3ResokFits, Wire-write3_args,
  Write3ArgsFits, Wire-write3_resok, Write3ResokFits, Wire-commit3_args, Commit3ArgsFits,
  Wire-commit3_resok, Commit3ResokFits,
}
use nfstest.Nfs.Names.RoundTrip.{
  Wire-remove3_args, Remove3ArgsFits, Wire-remove3_resok, Remove3ResokFits, Wire-rmdir3_args,
  Rmdir3ArgsFits, Wire-rmdir3_resok, Rmdir3ResokFits, Wire-rename3_args, Rename3ArgsFits,
  Wire-rename3_resok, Rename3ResokFits, Wire-link3_args, Link3ArgsFits, Wire-link3_resok,
  Link3ResokFits,
}
use nfstest.Nfs.Directory.RoundTrip.{
  Wire-readdir3_args, Readdir3ArgsFits, Wire-readdir3_resok, Readdir3ResokFits,
  Wire-readdirplus3_args, Readdirplus3ArgsFits, Wire-readdirplus3_resok, Readdirplus3ResokFits,
}
use nfstest.Nfs.Create.RoundTrip.{
  Wire-create3_args, Create3ArgsFits, Wire-create3_resok, Create3ResokFits, Wire-mkdir3_args,
  Mkdir3ArgsFits, Wire-mkdir3_resok, Mkdir3ResokFits,
}
use nfstest.Nfs.MakeNode.RoundTrip.{
  Wire-symlink3_args, Symlink3ArgsFits, Wire-symlink3_resok, Symlink3ResokFits, Wire-mknod3_args,
  Mknod3ArgsFits, Wire-mknod3_resok, Mknod3ResokFits,
}
use nfstest.Nfs.Volume.RoundTrip.{
  Wire-fsstat3_args, Fsstat3ArgsFits, Wire-fsstat3_resok, Fsstat3ResokFits, Wire-pathconf3_args,
  Pathconf3ArgsFits, Wire-pathconf3_resok, Pathconf3ResokFits,
}
use nfstest.Nfs.FsInfo.RoundTrip.{
  Wire-fsinfo3_args, Fsinfo3ArgsFits, Wire-fsinfo3_resok, Fsinfo3ResokFits,
}

-- The arguments `v` are in their machine ranges, set no mode, uid or gid to 2^32 - 1, and leave out
-- only what `old` leaves out too.
abbrev pub ArgsFits : (p : Procedure) → Args p → Args p → Type 0
ArgsFits getattr old v = Getattr3ArgsFits v
ArgsFits setattr old v = Setattr3ArgsFits old v
ArgsFits lookup old v = Lookup3ArgsFits v
ArgsFits access old v = Access3ArgsFits v
ArgsFits readlink old v = Readlink3ArgsFits v
ArgsFits read old v = Read3ArgsFits v
ArgsFits write old v = Write3ArgsFits v
ArgsFits create old v = Create3ArgsFits old v
ArgsFits mkdir old v = Mkdir3ArgsFits old v
ArgsFits symlink old v = Symlink3ArgsFits old v
ArgsFits mknod old v = Mknod3ArgsFits old v
ArgsFits remove old v = Remove3ArgsFits v
ArgsFits rmdir old v = Rmdir3ArgsFits v
ArgsFits rename old v = Rename3ArgsFits v
ArgsFits link old v = Link3ArgsFits v
ArgsFits readdir old v = Readdir3ArgsFits v
ArgsFits readdirplus old v = Readdirplus3ArgsFits v
ArgsFits fsstat old v = Fsstat3ArgsFits v
ArgsFits fsinfo old v = Fsinfo3ArgsFits v
ArgsFits pathconf old v = Pathconf3ArgsFits v
ArgsFits commit old v = Commit3ArgsFits v

-- So for a result that is read into a new object.
abbrev pub ResokFits : (p : Procedure) → Resok p → Type 0
ResokFits getattr v = Getattr3ResokFits v
ResokFits setattr v = Setattr3ResokFits (resok_fresh setattr).fresh v
ResokFits lookup v = Lookup3ResokFits (resok_fresh lookup).fresh v
ResokFits access v = Access3ResokFits (resok_fresh access).fresh v
ResokFits readlink v = Readlink3ResokFits (resok_fresh readlink).fresh v
ResokFits read v = Read3ResokFits (resok_fresh read).fresh v
ResokFits write v = Write3ResokFits (resok_fresh write).fresh v
ResokFits create v = Create3ResokFits (resok_fresh create).fresh v
ResokFits mkdir v = Mkdir3ResokFits (resok_fresh mkdir).fresh v
ResokFits symlink v = Symlink3ResokFits (resok_fresh symlink).fresh v
ResokFits mknod v = Mknod3ResokFits (resok_fresh mknod).fresh v
ResokFits remove v = Remove3ResokFits (resok_fresh remove).fresh v
ResokFits rmdir v = Rmdir3ResokFits (resok_fresh rmdir).fresh v
ResokFits rename v = Rename3ResokFits (resok_fresh rename).fresh v
ResokFits link v = Link3ResokFits (resok_fresh link).fresh v
ResokFits readdir v = Readdir3ResokFits (resok_fresh readdir).fresh v
ResokFits readdirplus v = Readdirplus3ResokFits (resok_fresh readdirplus).fresh v
ResokFits fsstat v = Fsstat3ResokFits (resok_fresh fsstat).fresh v
ResokFits fsinfo v = Fsinfo3ResokFits (resok_fresh fsinfo).fresh v
ResokFits pathconf v = Pathconf3ResokFits (resok_fresh pathconf).fresh v
ResokFits commit v = Commit3ResokFits (resok_fresh commit).fresh v

Wire-args :
    (p : Procedure) (old v : Args p)
    → ArgsFits p old v
    → Wire ((args_codec p).serialize v) ((args_codec p).deserialize old) v
Wire-args getattr old v h = Wire-getattr3_args old v h
Wire-args setattr old v h = Wire-setattr3_args old v h
Wire-args lookup old v h = Wire-lookup3_args old v h
Wire-args access old v h = Wire-access3_args old v h
Wire-args readlink old v h = Wire-readlink3_args old v h
Wire-args read old v h = Wire-read3_args old v h
Wire-args write old v h = Wire-write3_args old v h
Wire-args create old v h = Wire-create3_args old v h
Wire-args mkdir old v h = Wire-mkdir3_args old v h
Wire-args symlink old v h = Wire-symlink3_args old v h
Wire-args mknod old v h = Wire-mknod3_args old v h
Wire-args remove old v h = Wire-remove3_args old v h
Wire-args rmdir old v h = Wire-rmdir3_args old v h
Wire-args rename old v h = Wire-rename3_args old v h
Wire-args link old v h = Wire-link3_args old v h
Wire-args readdir old v h = Wire-readdir3_args old v h
Wire-args readdirplus old v h = Wire-readdirplus3_args old v h
Wire-args fsstat old v h = Wire-fsstat3_args old v h
Wire-args fsinfo old v h = Wire-fsinfo3_args old v h
Wire-args pathconf old v h = Wire-pathconf3_args old v h
Wire-args commit old v h = Wire-commit3_args old v h

Wire-resok :
    (p : Procedure) (v : Resok p)
    → ResokFits p v
    → Wire ((resok_codec p).serialize v) ((resok_codec p).deserialize (resok_fresh p).fresh) v
Wire-resok getattr v h = Wire-getattr3_resok (resok_fresh getattr).fresh v h
Wire-resok setattr v h = Wire-setattr3_resok (resok_fresh setattr).fresh v h
Wire-resok lookup v h = Wire-lookup3_resok (resok_fresh lookup).fresh v h
Wire-resok access v h = Wire-access3_resok (resok_fresh access).fresh v h
Wire-resok readlink v h = Wire-readlink3_resok (resok_fresh readlink).fresh v h
Wire-resok read v h = Wire-read3_resok (resok_fresh read).fresh v h
Wire-resok write v h = Wire-write3_resok (resok_fresh write).fresh v h
Wire-resok create v h = Wire-create3_resok (resok_fresh create).fresh v h
Wire-resok mkdir v h = Wire-mkdir3_resok (resok_fresh mkdir).fresh v h
Wire-resok symlink v h = Wire-symlink3_resok (resok_fresh symlink).fresh v h
Wire-resok mknod v h = Wire-mknod3_resok (resok_fresh mknod).fresh v h
Wire-resok remove v h = Wire-remove3_resok (resok_fresh remove).fresh v h
Wire-resok rmdir v h = Wire-rmdir3_resok (resok_fresh rmdir).fresh v h
Wire-resok rename v h = Wire-rename3_resok (resok_fresh rename).fresh v h
Wire-resok link v h = Wire-link3_resok (resok_fresh link).fresh v h
Wire-resok readdir v h = Wire-readdir3_resok (resok_fresh readdir).fresh v h
Wire-resok readdirplus v h = Wire-readdirplus3_resok (resok_fresh readdirplus).fresh v h
Wire-resok fsstat v h = Wire-fsstat3_resok (resok_fresh fsstat).fresh v h
Wire-resok fsinfo v h = Wire-fsinfo3_resok (resok_fresh fsinfo).fresh v h
Wire-resok pathconf v h = Wire-pathconf3_resok (resok_fresh pathconf).fresh v h
Wire-resok commit v h = Wire-commit3_resok (resok_fresh commit).fresh v h

-- The arguments of each procedure are serialized into an empty buffer without a throw, and on
-- another host, each host of either byte order, deserialized from it into other arguments: they
-- are the same again, with every byte read. The numbers are in their machine ranges, a mode, uid or
-- gid to be set is not 2^32 - 1, which stands for one that is not set, the strings are below 2^32
-- bytes, and a member left out is left out in the old object too.
pub args-RoundTrip :
    (p : Procedure) (old v : Args p)
    → ArgsFits p old v
    → RoundTrip ((args_codec p).serialize v) ((args_codec p).deserialize old) v
args-RoundTrip p old v h = Wire-RoundTrip (Wire-args p old v h)

-- So is the reply of each procedure: a reply with the status NFS3_OK carries results in their
-- ranges, one with another status carries none that the old object did not carry.
pub reply-RoundTrip :
    (p : Procedure) (old v : Reply p)
    → ResFits (ResokFits p) old v
    → RoundTrip ((reply_codec p).serialize v) ((reply_codec p).deserialize old) v
reply-RoundTrip p old v h =
    Wire-RoundTrip (Wire-res ⦃c = resok_codec p⦄ ⦃f = resok_fresh p⦄ (Wire-resok p) old v h)
