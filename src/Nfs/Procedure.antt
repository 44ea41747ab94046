-- ===== src/Nfs/Procedure.antt =====
-- The procedures with their numbers, their argument and reply types and the codecs of these:
-- `enum class proc_num` of nfs3_rpc_tests/include/nfs3/nfs3_constants.hpp, and the argument and
-- result types of nfs3_rpc_tests/include/nfs3/nfs3_types.hpp.
pub mod RoundTrip
pub mod Safety
use nfstest.Prelude.{ℕ}
use nfstest.Xdr.Codec.{Codec, Fresh, fresh}
use nfstest.Nfs.Reply.{Res, res_codec}
use nfstest.Nfs.SetAttributes.{
  Setattr3Args, setattr3_args_codec, Setattr3Resok, setattr3_resok_codec, setattr3_resok_fresh,
}
use nfstest.Nfs.Lookup.{
  Getattr3Args, getattr3_args_codec, Getattr3Resok, getattr3_resok_codec, getattr3_resok_fresh,
  Lookup3Args, lookup3_args_codec, Lookup3Resok, lookup3_resok_codec, lookup3_resok_fresh,
  Access3Args, access3_args_codec, Access3Resok, access3_resok_codec, access3_resok_fresh,
  Readlink3Args, readlink3_args_codec, Readlink3Resok, readlink3_resok_codec, readlink3_resok_fresh,
}
use nfstest.Nfs.Transfer.{
  Read3Args, read3_args_codec, Read3Resok, read3_resok_codec, read3_resok_fresh, Write3Args,
  write3_args_codec, Write3Resok, write3_resok_codec, write3_resok_fresh, Commit3Args,
  commit3_args_codec, Commit3Resok, commit3_resok_codec, commit3_resok_fresh,
}
use nfstest.Nfs.Names.{
  Remove3Args, remove3_args_codec, Remove3Resok, remove3_resok_codec, remove3_resok_fresh,
  Rmdir3Args, rmdir3_args_codec, Rmdir3Resok, rmdir3_resok_codec, rmdir3_resok_fresh, Rename3Args,
  rename3_args_codec, Rename3Resok, rename3_resok_codec, rename3_resok_fresh, Link3Args,
  link3_args_codec, Link3Resok, link3_resok_codec, link3_resok_fresh,
}
use nfstest.Nfs.Directory.{
  Readdir3Args, readdir3_args_codec, Readdir3Resok, readdir3_resok_codec, readdir3_resok_fresh,
  Readdirplus3Args, readdirplus3_args_codec, Readdirplus3Resok, readdirplus3_resok_codec,
  readdirplus3_resok_fresh,
}
use nfstest.Nfs.Create.{
  Create3Args, create3_args_codec, Create3Resok, create3_resok_codec, create3_resok_fresh,
  Mkdir3Args, mkdir3_args_codec, Mkdir3Resok, mkdir3_resok_codec, mkdir3_resok_fresh,
}
use nfstest.Nfs.MakeNode.{
  Symlink3Args, symlink3_args_codec, Symlink3Resok, symlink3_resok_codec, symlink3_resok_fresh,
  Mknod3Args, mknod3_args_codec, Mknod3Resok, mknod3_resok_codec, mknod3_resok_fresh,
}
use nfstest.Nfs.Volume.{
  Fsstat3Args, fsstat3_args_codec, Fsstat3Resok, fsstat3_resok_codec, fsstat3_resok_fresh,
  Pathconf3Args, pathconf3_args_codec, Pathconf3Resok, pathconf3_resok_codec, pathconf3_resok_fresh,
}
use nfstest.Nfs.FsInfo.{
  Fsinfo3Args, fsinfo3_args_codec, Fsinfo3Resok, fsinfo3_resok_codec, fsinfo3_resok_fresh,
}

-- The procedures that carry data; NULL carries none.
pub data Procedure : Type 0 where
  getattr setattr lookup access readlink read write create mkdir symlink mknod remove rmdir rename
        link readdir readdirplus fsstat fsinfo pathconf commit :
      Procedure

unfoldable pub proc_num : Procedure → ℕ
proc_num getattr = 1
proc_num setattr = 2
proc_num lookup = 3
proc_num access = 4
proc_num readlink = 5
proc_num read = 6
proc_num write = 7
proc_num create = 8
proc_num mkdir = 9
proc_num symlink = 10
proc_num mknod = 11
proc_num remove = 12
proc_num rmdir = 13
proc_num rename = 14
proc_num link = 15
proc_num readdir = 16
proc_num readdirplus = 17
proc_num fsstat = 18
proc_num fsinfo = 19
proc_num pathconf = 20
proc_num commit = 21

abbrev pub Args : Procedure → Type 0
Args getattr = Getattr3Args
Args setattr = Setattr3Args
Args lookup = Lookup3Args
Args access = Access3Args
Args readlink = Readlink3Args
Args read = Read3Args
Args write = Write3Args
Args create = Create3Args
Args mkdir = Mkdir3Args
Args symlink = Symlink3Args
Args mknod = Mknod3Args
Args remove = Remove3Args
Args rmdir = Rmdir3Args
Args rename = Rename3Args
Args link = Link3Args
Args readdir = Readdir3Args
Args readdirplus = Readdirplus3Args
Args fsstat = Fsstat3Args
Args fsinfo = Fsinfo3Args
Args pathconf = Pathconf3Args
Args commit = Commit3Args

abbrev pub Resok : Procedure → Type 0
Resok getattr = Getattr3Resok
Resok setattr = Setattr3Resok
Resok lookup = Lookup3Resok
Resok access = Access3Resok
Resok readlink = Readlink3Resok
Resok read = Read3Resok
Resok write = Write3Resok
Resok create = Create3Resok
Resok mkdir = Mkdir3Resok
Resok symlink = Symlink3Resok
Resok mknod = Mknod3Resok
Resok remove = Remove3Resok
Resok rmdir = Rmdir3Resok
Resok rename = Rename3Resok
Resok link = Link3Resok
Resok readdir = Readdir3Resok
Resok readdirplus = Readdirplus3Resok
Resok fsstat = Fsstat3Resok
Resok fsinfo = Fsinfo3Resok
Resok pathconf = Pathconf3Resok
Resok commit = Commit3Resok

abbrev pub Reply : Procedure → Type 0
Reply p = Res (Resok p)

abbrev pub args_codec : (p : Procedure) → Codec (Args p)
args_codec getattr = getattr3_args_codec
args_codec setattr = setattr3_args_codec
args_codec lookup = lookup3_args_codec
args_codec access = access3_args_codec
args_codec readlink = readlink3_args_codec
args_codec read = read3_args_codec
args_codec write = write3_args_codec
args_codec create = create3_args_codec
args_codec mkdir = mkdir3_args_codec
args_codec symlink = symlink3_args_codec
args_codec mknod = mknod3_args_codec
args_codec remove = remove3_args_codec
args_codec rmdir = rmdir3_args_codec
args_codec rename = rename3_args_codec
args_codec link = link3_args_codec
args_codec readdir = readdir3_args_codec
args_codec readdirplus = readdirplus3_args_codec
args_codec fsstat = fsstat3_args_codec
args_codec fsinfo = fsinfo3_args_codec
args_codec pathconf = pathconf3_args_codec
args_codec commit = commit3_args_codec

abbrev pub resok_codec : (p : Procedure) → Codec (Resok p)
resok_codec getattr = getattr3_resok_codec
resok_codec setattr = setattr3_resok_codec
resok_codec lookup = lookup3_resok_codec
resok_codec access = access3_resok_codec
resok_codec readlink = readlink3_resok_codec
resok_codec read = read3_resok_codec
resok_codec write = write3_resok_codec
resok_codec create = create3_resok_codec
resok_codec mkdir = mkdir3_resok_codec
resok_codec symlink = symlink3_resok_codec
resok_codec mknod = mknod3_resok_codec
resok_codec remove = remove3_resok_codec
resok_codec rmdir = rmdir3_resok_codec
resok_codec rename = rename3_resok_codec
resok_codec link = link3_resok_codec
resok_codec readdir = readdir3_resok_codec
resok_codec readdirplus = readdirplus3_resok_codec
resok_codec fsstat = fsstat3_resok_codec
resok_codec fsinfo = fsinfo3_resok_codec
resok_codec pathconf = pathconf3_resok_codec
resok_codec commit = commit3_resok_codec

abbrev pub resok_fresh : (p : Procedure) → Fresh (Resok p)
resok_fresh getattr = getattr3_resok_fresh
resok_fresh setattr = setattr3_resok_fresh
resok_fresh lookup = lookup3_resok_fresh
resok_fresh access = access3_resok_fresh
resok_fresh readlink = readlink3_resok_fresh
resok_fresh read = read3_resok_fresh
resok_fresh write = write3_resok_fresh
resok_fresh create = create3_resok_fresh
resok_fresh mkdir = mkdir3_resok_fresh
resok_fresh symlink = symlink3_resok_fresh
resok_fresh mknod = mknod3_resok_fresh
resok_fresh remove = remove3_resok_fresh
resok_fresh rmdir = rmdir3_resok_fresh
resok_fresh rename = rename3_resok_fresh
resok_fresh link = link3_resok_fresh
resok_fresh readdir = readdir3_resok_fresh
resok_fresh readdirplus = readdirplus3_resok_fresh
resok_fresh fsstat = fsstat3_resok_fresh
resok_fresh fsinfo = fsinfo3_resok_fresh
resok_fresh pathconf = pathconf3_resok_fresh
resok_fresh commit = commit3_resok_fresh

abbrev pub reply_codec : (p : Procedure) → Codec (Reply p)
reply_codec p = res_codec ⦃c = resok_codec p⦄ ⦃f = resok_fresh p⦄
