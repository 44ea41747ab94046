-- ===== src/Tirpc/Limits.antt =====
-- The limit of 64 bytes on the file handles in arguments: nfs3_rpc_tests/src/nfs3_xdr.cpp.
use nfstest.Prelude.{◌%◌, ◌^◌, ◌≤◌, Option, none, some, length}
use nfstest.Nfs.Attributes.{NfsFh3, nfs_fh3_fresh}
use nfstest.Nfs.Procedure.{Procedure, Args}
use nfstest.Tirpc.Stream.{Op, encode, decode, release}
use nfstest.Tirpc.Ensures.{Ensures}

-- The handle that is encoded, its length as the `u_int` that is handed over, and the handle that is
-- decoded are of at most 64 bytes.
abbrev pub Limited : Op → NfsFh3 → NfsFh3 → Type 0
Limited encode old new = length old.data_bytes % 2 ^ 32 ≤ 64
Limited decode old new = length new.data_bytes ≤ 64
Limited release old new = Unit {0}

abbrev pub GuardLimited : Op → Option NfsFh3 → Option NfsFh3 → Type 0
GuardLimited encode (some old) new = length old.data_bytes % 2 ^ 32 ≤ 64
GuardLimited encode none new = Unit {0}
GuardLimited decode old (some new) = length new.data_bytes ≤ 64
GuardLimited decode old none = Unit {0}
GuardLimited release old new = Unit {0}

-- Every handle in the arguments, the second one of RENAME and LINK and the guard of SETATTR among
-- them, before and after the function.
abbrev pub HandlesLimited : (p : Procedure) → Op → Args p → Args p → Type 0
HandlesLimited Procedure.getattr op v w = Limited op v.object w.object
HandlesLimited Procedure.setattr op v w =
    Limited op v.object w.object × GuardLimited op v.guard w.guard
HandlesLimited Procedure.lookup op v w = Limited op v.what_dir w.what_dir
HandlesLimited Procedure.access op v w = Limited op v.object w.object
HandlesLimited Procedure.readlink op v w = Limited op v.symlink w.symlink
HandlesLimited Procedure.read op v w = Limited op v.file w.file
HandlesLimited Procedure.write op v w = Limited op v.file w.file
HandlesLimited Procedure.create op v w = Limited op v.where_dir w.where_dir
HandlesLimited Procedure.mkdir op v w = Limited op v.where_dir w.where_dir
HandlesLimited Procedure.symlink op v w = Limited op v.where_dir w.where_dir
HandlesLimited Procedure.mknod op v w = Limited op v.where_dir w.where_dir
HandlesLimited Procedure.remove op v w = Limited op v.object_dir w.object_dir
HandlesLimited Procedure.rmdir op v w = Limited op v.object_dir w.object_dir
HandlesLimited Procedure.rename op v w =
    Limited op v.from_dir w.from_dir × Limited op v.to_dir w.to_dir
HandlesLimited Procedure.link op v w = Limited op v.file w.file × Limited op v.link_dir w.link_dir
HandlesLimited Procedure.readdir op v w = Limited op v.dir w.dir
HandlesLimited Procedure.readdirplus op v w = Limited op v.dir w.dir
HandlesLimited Procedure.fsstat op v w = Limited op v.fsroot w.fsroot
HandlesLimited Procedure.fsinfo op v w = Limited op v.fsroot w.fsroot
HandlesLimited Procedure.pathconf op v w = Limited op v.object w.object
HandlesLimited Procedure.commit op v w = Limited op v.file w.file
