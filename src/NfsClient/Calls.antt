-- ===== src/NfsClient/Calls.antt =====
-- The calls that class NFS3TestClient (nfs3_rpc_tests/src/nfs3_client.cpp) can be asked for, with
-- the procedure and the bytes on the wire of each.
pub mod Filled
use nfstest.Prelude.{ℕ, ◌%◌, ◌^◌, false, List, length, replicate, ◌==◌}
use nfstest.Xdr.Word.{Endianness}
use nfstest.Xdr.Buffer.{M, pure, ◌>>◌, pack_u32, pack_u64, pack_bool, pack_string, pack_bytes}
use nfstest.Xdr.Codec.{pack, when}
use nfstest.Nfs.Attributes.{NfsFh3, nfs_fh3_codec}
use nfstest.Nfs.SetAttributes.{Sattr3, sattr3_codec}
use nfstest.Nfs.Procedure.{Procedure, Resok}
use nfstest.Endpoint.{RpcEndpoint, Attempt}
use nfstest.NfsClient
use nfstest.NfsClient.{Nfs3Error}

-- A method with its arguments, in the order in which it takes them. NULL takes none and gives none.
pub data MethodCall : Type 0 where
  getattr_call : NfsFh3 → MethodCall
  setattr_call : NfsFh3 → Sattr3 → MethodCall
  lookup_call : NfsFh3 → List ℕ → MethodCall
  access_call : NfsFh3 → ℕ → MethodCall
  readlink_call : NfsFh3 → MethodCall
  read_call : NfsFh3 → ℕ → ℕ → MethodCall
  write_call : NfsFh3 → ℕ → ℕ → List ℕ → MethodCall
  create_call : NfsFh3 → List ℕ → ℕ → Sattr3 → MethodCall
  mkdir_call : NfsFh3 → List ℕ → Sattr3 → MethodCall
  symlink_call : NfsFh3 → List ℕ → Sattr3 → List ℕ → MethodCall
  mknod_call : NfsFh3 → List ℕ → ℕ → Sattr3 → MethodCall
  remove_call : NfsFh3 → List ℕ → MethodCall
  rmdir_call : NfsFh3 → List ℕ → MethodCall
  rename_call : NfsFh3 → List ℕ → NfsFh3 → List ℕ → MethodCall
  link_call : NfsFh3 → NfsFh3 → List ℕ → MethodCall
  readdir_call : NfsFh3 → ℕ → ℕ → ℕ → MethodCall
  readdirplus_call : NfsFh3 → ℕ → ℕ → ℕ → ℕ → MethodCall
  fsstat_call : NfsFh3 → MethodCall
  fsinfo_call : NfsFh3 → MethodCall
  pathconf_call : NfsFh3 → MethodCall
  commit_call : NfsFh3 → ℕ → ℕ → MethodCall

abbrev pub proc_of : MethodCall → Procedure
proc_of (getattr_call fh) = Procedure.getattr
proc_of (setattr_call fh attributes) = Procedure.setattr
proc_of (lookup_call dir name) = Procedure.lookup
proc_of (access_call fh mask) = Procedure.access
proc_of (readlink_call fh) = Procedure.readlink
proc_of (read_call file offset count) = Procedure.read
proc_of (write_call file offset stable bytes) = Procedure.write
proc_of (create_call dir name mode attributes) = Procedure.create
proc_of (mkdir_call dir name attributes) = Procedure.mkdir
proc_of (symlink_call dir name attributes target) = Procedure.symlink
proc_of (mknod_call dir name type_of attributes) = Procedure.mknod
proc_of (remove_call dir name) = Procedure.remove
proc_of (rmdir_call dir name) = Procedure.rmdir
proc_of (rename_call from_dir from_name to_dir to_name) = Procedure.rename
proc_of (link_call file dir name) = Procedure.link
proc_of (readdir_call dir cookie verf count) = Procedure.readdir
proc_of (readdirplus_call dir cookie verf dircount maxcount) = Procedure.readdirplus
proc_of (fsstat_call fh) = Procedure.fsstat
proc_of (fsinfo_call fh) = Procedure.fsinfo
proc_of (pathconf_call fh) = Procedure.pathconf
proc_of (commit_call file offset count) = Procedure.commit

-- The number that RFC 1813 gives to the procedure.
abbrev pub rfc_proc : MethodCall → ℕ
rfc_proc (getattr_call fh) = 1
rfc_proc (setattr_call fh attributes) = 2
rfc_proc (lookup_call dir name) = 3
rfc_proc (access_call fh mask) = 4
rfc_proc (readlink_call fh) = 5
rfc_proc (read_call file offset count) = 6
rfc_proc (write_call file offset stable bytes) = 7
rfc_proc (create_call dir name mode attributes) = 8
rfc_proc (mkdir_call dir name attributes) = 9
rfc_proc (symlink_call dir name attributes target) = 10
rfc_proc (mknod_call dir name type_of attributes) = 11
rfc_proc (remove_call dir name) = 12
rfc_proc (rmdir_call dir name) = 13
rfc_proc (rename_call from_dir from_name to_dir to_name) = 14
rfc_proc (link_call file dir name) = 15
rfc_proc (readdir_call dir cookie verf count) = 16
rfc_proc (readdirplus_call dir cookie verf dircount maxcount) = 17
rfc_proc (fsstat_call fh) = 18
rfc_proc (fsinfo_call fh) = 19
rfc_proc (pathconf_call fh) = 20
rfc_proc (commit_call file offset count) = 21

-- The call of the method.
abbrev pub run : Endianness → RpcEndpoint → (m : MethodCall) → Attempt (Resok (proc_of m)) Nfs3Error
run e ep (getattr_call fh) = NfsClient.getattr e ep fh
run e ep (setattr_call fh attributes) = NfsClient.setattr e ep fh attributes
run e ep (lookup_call dir name) = NfsClient.lookup e ep dir name
run e ep (access_call fh mask) = NfsClient.access e ep fh mask
run e ep (readlink_call fh) = NfsClient.readlink e ep fh
run e ep (read_call file offset count) = NfsClient.read e ep file offset count
run e ep (write_call file offset stable bytes) = NfsClient.write e ep file offset stable bytes
run e ep (create_call dir name mode attributes) = NfsClient.create e ep dir name mode attributes
run e ep (mkdir_call dir name attributes) = NfsClient.mkdir e ep dir name attributes
run e ep (symlink_call dir name attributes target) =
    NfsClient.symlink e ep dir name attributes target
run e ep (mknod_call dir name type_of attributes) = NfsClient.mknod e ep dir name type_of attributes
run e ep (remove_call dir name) = NfsClient.remove e ep dir name
run e ep (rmdir_call dir name) = NfsClient.rmdir e ep dir name
run e ep (rename_call from_dir from_name to_dir to_name) =
    NfsClient.rename_op e ep from_dir from_name to_dir to_name
run e ep (link_call file dir name) = NfsClient.link e ep file dir name
run e ep (readdir_call dir cookie verf count) = NfsClient.readdir e ep dir cookie verf count
run e ep (readdirplus_call dir cookie verf dircount maxcount) =
    NfsClient.readdirplus e ep dir cookie verf dircount maxcount
run e ep (fsstat_call fh) = NfsClient.fsstat e ep fh
run e ep (fsinfo_call fh) = NfsClient.fsinfo e ep fh
run e ep (pathconf_call fh) = NfsClient.pathconf e ep fh
run e ep (commit_call file offset count) = NfsClient.commit e ep file offset count

-- The arguments on the wire, in the order of RFC 1813. SETATTR is asked for without a guard, WRITE
-- for as many bytes as it is given, and an exclusive CREATE under a verifier of eight zeros. Unlike
-- RFC 1813, this client has a length word in front of that verifier, and attributes in every CREATE
-- and every MKNOD; attributes are as sattr3 serializes them.
abbrev pub on_wire : MethodCall → M (Unit {0})
on_wire (getattr_call fh) = pack fh
on_wire (setattr_call fh attributes) = do pack fh; pack attributes; pack_bool false; pure tt
on_wire (lookup_call dir name) = do pack dir; pack_string name
on_wire (access_call fh mask) = do pack fh; pack_u32 mask
on_wire (readlink_call fh) = pack fh
on_wire (read_call file offset count) = do pack file; pack_u64 offset; pack_u32 count
on_wire (write_call file offset stable bytes) = do
  pack file
  pack_u64 offset
  pack_u32 (length bytes % 2 ^ 32)
  pack_u32 stable
  pack_bytes bytes
on_wire (create_call dir name mode attributes) = do
  pack dir
  pack_string name
  pack_u32 mode
  pack attributes
  when (mode == 2) (pack_bytes (replicate 8 0))
on_wire (mkdir_call dir name attributes) = do pack dir; pack_string name; pack attributes
on_wire (symlink_call dir name attributes target) = do
  pack dir
  pack_string name
  pack attributes
  pack_string target
on_wire (mknod_call dir name type_of attributes) = do
  pack dir
  pack_string name
  pack_u32 type_of
  pack attributes
on_wire (remove_call dir name) = do pack dir; pack_string name
on_wire (rmdir_call dir name) = do pack dir; pack_string name
on_wire (rename_call from_dir from_name to_dir to_name) = do
  pack from_dir
  pack_string from_name
  pack to_dir
  pack_string to_name
on_wire (link_call file dir name) = do pack file; pack dir; pack_string name
on_wire (readdir_call dir cookie verf count) = do
  pack dir
  pack_u64 cookie
  pack_u64 verf
  pack_u32 count
on_wire (readdirplus_call dir cookie verf dircount maxcount) = do
  pack dir
  pack_u64 cookie
  pack_u64 verf
  pack_u32 dircount
  pack_u32 maxcount
on_wire (fsstat_call fh) = pack fh
on_wire (fsinfo_call fh) = pack fh
on_wire (pathconf_call fh) = pack fh
on_wire (commit_call file offset count) = do pack file; pack_u64 offset; pack_u32 count
