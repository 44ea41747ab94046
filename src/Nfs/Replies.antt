-- ===== src/Nfs/Replies.antt =====
-- The reply types of nfs3_rpc_tests/include/nfs3/nfs3_types.hpp, one for each procedure.
use nfstest.Nfs.Reply.{Res}
use nfstest.Nfs.SetAttributes.{Setattr3Resok}
use nfstest.Nfs.Lookup.{Getattr3Resok, Lookup3Resok, Access3Resok, Readlink3Resok}
use nfstest.Nfs.Transfer.{Read3Resok, Write3Resok, Commit3Resok}
use nfstest.Nfs.Names.{Remove3Resok, Rmdir3Resok, Rename3Resok, Link3Resok}
use nfstest.Nfs.Directory.{Readdir3Resok, Readdirplus3Resok}
use nfstest.Nfs.Create.{Create3Resok, Mkdir3Resok}
use nfstest.Nfs.MakeNode.{Symlink3Resok, Mknod3Resok}
use nfstest.Nfs.Volume.{Fsstat3Resok, Pathconf3Resok}
use nfstest.Nfs.FsInfo.{Fsinfo3Resok}

abbrev pub Getattr3Res : Type 0
Getattr3Res = Res Getattr3Resok

abbrev pub Setattr3Res : Type 0
Setattr3Res = Res Setattr3Resok

abbrev pub Lookup3Res : Type 0
Lookup3Res = Res Lookup3Resok

abbrev pub Access3Res : Type 0
Access3Res = Res Access3Resok

abbrev pub Readlink3Res : Type 0
Readlink3Res = Res Readlink3Resok

abbrev pub Read3Res : Type 0
Read3Res = Res Read3Resok

abbrev pub Write3Res : Type 0
Write3Res = Res Write3Resok

abbrev pub Create3Res : Type 0
Create3Res = Res Create3Resok

abbrev pub Mkdir3Res : Type 0
Mkdir3Res = Res Mkdir3Resok

abbrev pub Symlink3Res : Type 0
Symlink3Res = Res Symlink3Resok

abbrev pub Mknod3Res : Type 0
Mknod3Res = Res Mknod3Resok

abbrev pub Remove3Res : Type 0
Remove3Res = Res Remove3Resok

abbrev pub Rmdir3Res : Type 0
Rmdir3Res = Res Rmdir3Resok

abbrev pub Rename3Res : Type 0
Rename3Res = Res Rename3Resok

abbrev pub Link3Res : Type 0
Link3Res = Res Link3Resok

abbrev pub Readdir3Res : Type 0
Readdir3Res = Res Readdir3Resok

abbrev pub Readdirplus3Res : Type 0
Readdirplus3Res = Res Readdirplus3Resok

abbrev pub Fsstat3Res : Type 0
Fsstat3Res = Res Fsstat3Resok

abbrev pub Fsinfo3Res : Type 0
Fsinfo3Res = Res Fsinfo3Resok

abbrev pub Pathconf3Res : Type 0
Pathconf3Res = Res Pathconf3Resok

abbrev pub Commit3Res : Type 0
Commit3Res = Res Commit3Resok
