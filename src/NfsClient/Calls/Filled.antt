-- ===== src/NfsClient/Calls/Filled.antt =====
-- The arguments that the methods of class NFS3TestClient (nfs3_rpc_tests/src/nfs3_client.cpp) fill
-- in, against the procedure and the bytes of each.
use nfstest.Prelude.{◌%◌, ◌^◌, ◌≡◌, refl, none, length, replicate}
use nfstest.Xdr.Word.{Endianness}
use nfstest.Nfs.SetAttributes.{setattr3_args_codec}
use nfstest.Nfs.Lookup.{
  getattr3_args_codec, lookup3_args_codec, access3_args_codec, readlink3_args_codec,
}
use nfstest.Nfs.Transfer.{read3_args_codec, write3_args_codec, commit3_args_codec}
use nfstest.Nfs.Names.{remove3_args_codec, rmdir3_args_codec, rename3_args_codec, link3_args_codec}
use nfstest.Nfs.Directory.{readdir3_args_codec, readdirplus3_args_codec}
use nfstest.Nfs.Create.{createverf3_codec, create3_args_codec, mkdir3_args_codec}
use nfstest.Nfs.MakeNode.{symlink3_args_codec, mknod3_args_codec}
use nfstest.Nfs.Volume.{fsstat3_args_codec, pathconf3_args_codec}
use nfstest.Nfs.FsInfo.{fsinfo3_args_codec}
use nfstest.Nfs.Procedure.{Args, args_codec, proc_num}
use nfstest.Endpoint.{RpcEndpoint}
use nfstest.NfsClient.{request}
use nfstest.NfsClient
use nfstest.NfsClient.Calls.{
  MethodCall, getattr_call, setattr_call, lookup_call, access_call, readlink_call, read_call,
  write_call, create_call, mkdir_call, symlink_call, mknod_call, remove_call, rmdir_call,
  rename_call, link_call, readdir_call, readdirplus_call, fsstat_call, fsinfo_call, pathconf_call,
  commit_call, proc_of, rfc_proc, run, on_wire,
}

abbrev pub args_of : (m : MethodCall) → Args (proc_of m)
args_of (getattr_call fh) = record { object = fh }
args_of (setattr_call fh attributes) = record {
  object = fh;
  new_attributes = attributes;
  guard = none;
}
args_of (lookup_call dir name) = record { what_dir = dir; what_name = name }
args_of (access_call fh mask) = record { object = fh; access = mask }
args_of (readlink_call fh) = record { symlink = fh }
args_of (read_call file offset count) = record { file = file; offset = offset; count = count }
args_of (write_call file offset stable bytes) = record {
  file = file;
  offset = offset;
  count = length bytes % 2 ^ 32;
  stable = stable;
  data_bytes = bytes;
}
args_of (create_call dir name mode attributes) = record {
  where_dir = dir;
  where_name = name;
  how_mode = mode;
  how_attributes = attributes;
  how_verf = record { data_bytes = replicate 8 0 };
}
args_of (mkdir_call dir name attributes) = record {
  where_dir = dir;
  where_name = name;
  attributes = attributes;
}
args_of (symlink_call dir name attributes target) = record {
  where_dir = dir;
  where_name = name;
  symlink_attributes = attributes;
  symlink_data = target;
}
args_of (mknod_call dir name type_of attributes) = record {
  where_dir = dir;
  where_name = name;
  what_type = type_of;
  what_attributes = attributes;
}
args_of (remove_call dir name) = record { object_dir = dir; object_name = name }
args_of (rmdir_call dir name) = record { object_dir = dir; object_name = name }
args_of (rename_call from_dir from_name to_dir to_name) = record {
  from_dir = from_dir;
  from_name = from_name;
  to_dir = to_dir;
  to_name = to_name;
}
args_of (link_call file dir name) = record { file = file; link_dir = dir; link_name = name }
args_of (readdir_call dir cookie verf count) = record {
  dir = dir;
  cookie = cookie;
  cookieverf = verf;
  count = count;
}
args_of (readdirplus_call dir cookie verf dircount maxcount) = record {
  dir = dir;
  cookie = cookie;
  cookieverf = verf;
  dircount = dircount;
  maxcount = maxcount;
}
args_of (fsstat_call fh) = record { fsroot = fh }
args_of (fsinfo_call fh) = record { fsroot = fh }
args_of (pathconf_call fh) = record { object = fh }
args_of (commit_call file offset count) = record { file = file; offset = offset; count = count }

pub rfc_proc-proc_num : (m : MethodCall) → rfc_proc m ≡ proc_num (proc_of m)
unfolding proc_num
rfc_proc-proc_num (getattr_call fh) = refl
rfc_proc-proc_num (setattr_call fh attributes) = refl
rfc_proc-proc_num (lookup_call dir name) = refl
rfc_proc-proc_num (access_call fh mask) = refl
rfc_proc-proc_num (readlink_call fh) = refl
rfc_proc-proc_num (read_call file offset count) = refl
rfc_proc-proc_num (write_call file offset stable bytes) = refl
rfc_proc-proc_num (create_call dir name mode attributes) = refl
rfc_proc-proc_num (mkdir_call dir name attributes) = refl
rfc_proc-proc_num (symlink_call dir name attributes target) = refl
rfc_proc-proc_num (mknod_call dir name type_of attributes) = refl
rfc_proc-proc_num (remove_call dir name) = refl
rfc_proc-proc_num (rmdir_call dir name) = refl
rfc_proc-proc_num (rename_call from_dir from_name to_dir to_name) = refl
rfc_proc-proc_num (link_call file dir name) = refl
rfc_proc-proc_num (readdir_call dir cookie verf count) = refl
rfc_proc-proc_num (readdirplus_call dir cookie verf dircount maxcount) = refl
rfc_proc-proc_num (fsstat_call fh) = refl
rfc_proc-proc_num (fsinfo_call fh) = refl
rfc_proc-proc_num (pathconf_call fh) = refl
rfc_proc-proc_num (commit_call file offset count) = refl

pub run-request :
    (e : Endianness) (ep : RpcEndpoint) (m : MethodCall)
    → run e ep m ≡ request e ep (proc_of m) (args_of m)
unfolding NfsClient.getattr NfsClient.setattr NfsClient.lookup NfsClient.access NfsClient.readlink
    NfsClient.read NfsClient.write NfsClient.create NfsClient.mkdir NfsClient.symlink
    NfsClient.mknod NfsClient.remove NfsClient.rmdir NfsClient.rename_op NfsClient.link
    NfsClient.readdir NfsClient.readdirplus NfsClient.fsstat NfsClient.fsinfo NfsClient.pathconf
    NfsClient.commit
run-request e ep (getattr_call fh) = refl
run-request e ep (setattr_call fh attributes) = refl
run-request e ep (lookup_call dir name) = refl
run-request e ep (access_call fh mask) = refl
run-request e ep (readlink_call fh) = refl
run-request e ep (read_call file offset count) = refl
run-request e ep (write_call file offset stable bytes) = refl
run-request e ep (create_call dir name mode attributes) = refl
run-request e ep (mkdir_call dir name attributes) = refl
run-request e ep (symlink_call dir name attributes target) = refl
run-request e ep (mknod_call dir name type_of attributes) = refl
run-request e ep (remove_call dir name) = refl
run-request e ep (rmdir_call dir name) = refl
run-request e ep (rename_call from_dir from_name to_dir to_name) = refl
run-request e ep (link_call file dir name) = refl
run-request e ep (readdir_call dir cookie verf count) = refl
run-request e ep (readdirplus_call dir cookie verf dircount maxcount) = refl
run-request e ep (fsstat_call fh) = refl
run-request e ep (fsinfo_call fh) = refl
run-request e ep (pathconf_call fh) = refl
run-request e ep (commit_call file offset count) = refl

pub serialize-on_wire :
    (m : MethodCall) → (args_codec (proc_of m)).serialize (args_of m) ≡ on_wire m
unfolding createverf3_codec getattr3_args_codec setattr3_args_codec lookup3_args_codec
    access3_args_codec readlink3_args_codec read3_args_codec write3_args_codec create3_args_codec
    mkdir3_args_codec symlink3_args_codec mknod3_args_codec remove3_args_codec rmdir3_args_codec
    rename3_args_codec link3_args_codec readdir3_args_codec readdirplus3_args_codec
    fsstat3_args_codec fsinfo3_args_codec pathconf3_args_codec commit3_args_codec
serialize-on_wire (getattr_call fh) = refl
serialize-on_wire (setattr_call fh attributes) = refl
serialize-on_wire (lookup_call dir name) = refl
serialize-on_wire (access_call fh mask) = refl
serialize-on_wire (readlink_call fh) = refl
serialize-on_wire (read_call file offset count) = refl
serialize-on_wire (write_call file offset stable bytes) = refl
serialize-on_wire (create_call dir name mode attributes) = refl
serialize-on_wire (mkdir_call dir name attributes) = refl
serialize-on_wire (symlink_call dir name attributes target) = refl
serialize-on_wire (mknod_call dir name type_of attributes) = refl
serialize-on_wire (remove_call dir name) = refl
serialize-on_wire (rmdir_call dir name) = refl
serialize-on_wire (rename_call from_dir from_name to_dir to_name) = refl
serialize-on_wire (link_call file dir name) = refl
serialize-on_wire (readdir_call dir cookie verf count) = refl
serialize-on_wire (readdirplus_call dir cookie verf dircount maxcount) = refl
serialize-on_wire (fsstat_call fh) = refl
serialize-on_wire (fsinfo_call fh) = refl
serialize-on_wire (pathconf_call fh) = refl
serialize-on_wire (commit_call file offset count) = refl
