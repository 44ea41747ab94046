-- ===== src/NfsClient.antt =====
-- class NFS3TestClient: nfs3_rpc_tests/include/nfs3/nfs3_client.hpp and src/nfs3_client.cpp, as
-- they are built without libtirpc. Each method fills in the arguments of its procedure, has the
-- endpoint make the call, and tells what became of it; these last steps are the same in each and
-- stand here once, as `request`. The root handle, which no method looks at, is left out.
pub mod Calls
pub mod Requests
pub mod Runs
use nfstest.Prelude.{
  ℕ, ◌%◌, ◌^◌, List, Option, none, some, not, ◌==◌, if◌then◌else◌, length, replicate,
}
use nfstest.Xdr.Word.{Endianness}
use nfstest.Nfs.Attributes.{NfsFh3}
use nfstest.Nfs.SetAttributes.{Sattr3}
use nfstest.Nfs.Reply.{Res, res_fresh, nfs3_ok}
use nfstest.Nfs.Procedure.{
  Procedure, Args, Resok, Reply, args_codec, reply_codec, proc_num, getattr as proc_getattr,
  setattr as proc_setattr, lookup as proc_lookup, access as proc_access, readlink as proc_readlink,
  read as proc_read, write as proc_write, create as proc_create, mkdir as proc_mkdir,
  symlink as proc_symlink, mknod as proc_mknod, remove as proc_remove, rmdir as proc_rmdir,
  rename as proc_rename, link as proc_link, readdir as proc_readdir,
  readdirplus as proc_readdirplus, fsstat as proc_fsstat, fsinfo as proc_fsinfo,
  pathconf as proc_pathconf, commit as proc_commit,
}
use nfstest.Endpoint.{
  RpcError, RpcEndpoint, Expected, value, unexpected, Attempt, done, raised, waits, undefined, call,
  call_void,
}

-- `enum class Nfs3Error`; its first member OK is `no_error` here.
pub data Nfs3Error : Type 0 where
  no_error badhandle not_sync bad_cookie notsupp toosmall serverfault badtype jukebox rpc_error :
      Nfs3Error

module _ {A : Type 0} where
  abbrev pub resok_value : Option A → Expected A Nfs3Error
  resok_value none = unexpected serverfault
  resok_value (some resok) = value resok

  -- The tests of `result->status` and `result->resok`.
  unfoldable pub check : Res A → Expected A Nfs3Error
  check result =
      if not (result.status == nfs3_ok) then unexpected serverfault else resok_value result.resok

  -- The test of `result` too.
  abbrev pub on_result : Attempt (Res A) RpcError → Attempt A Nfs3Error
  on_result (done (value result) ep) = done (check result) ep
  on_result (done (unexpected x) ep) = done (unexpected rpc_error) ep
  on_result (raised x) = raised x
  on_result waits = waits
  on_result undefined = undefined

abbrev pub on_void_result : Attempt (Unit {0}) RpcError → Attempt (Unit {0}) Nfs3Error
on_void_result (done (value result) ep) = done (value tt) ep
on_void_result (done (unexpected x) ep) = done (unexpected rpc_error) ep
on_void_result (raised x) = raised x
on_void_result waits = waits
on_void_result undefined = undefined

module _ (e : Endianness) (endpoint : RpcEndpoint) where
  unfoldable pub request : (p : Procedure) → Args p → Attempt (Resok p) Nfs3Error
  request p args =
      on_result
        (call ⦃a = args_codec p⦄ ⦃c = reply_codec p⦄ ⦃f = res_fresh⦄ e endpoint (proc_num p) args)

  unfoldable pub null : Attempt (Unit {0}) Nfs3Error
  null = on_void_result (call_void ⦃f = record { fresh = tt }⦄ e endpoint 0)

  unfoldable pub getattr : NfsFh3 → Attempt (Resok proc_getattr) Nfs3Error
  getattr object = request proc_getattr (record { object = object })

  unfoldable pub setattr : NfsFh3 → Sattr3 → Attempt (Resok proc_setattr) Nfs3Error
  setattr object new_attributes =
      request proc_setattr
        (record { object = object; new_attributes = new_attributes; guard = none })

  unfoldable pub lookup : NfsFh3 → List ℕ → Attempt (Resok proc_lookup) Nfs3Error
  lookup what_dir what_name =
      request proc_lookup (record { what_dir = what_dir; what_name = what_name })

  unfoldable pub access : NfsFh3 → ℕ → Attempt (Resok proc_access) Nfs3Error
  access object access_mask = request proc_access (record { object = object; access = access_mask })

  unfoldable pub readlink : NfsFh3 → Attempt (Resok proc_readlink) Nfs3Error
  readlink symlink_fh = request proc_readlink (record { symlink = symlink_fh })

  unfoldable pub read : NfsFh3 → ℕ → ℕ → Attempt (Resok proc_read) Nfs3Error
  read file offset count =
      request proc_read (record { file = file; offset = offset; count = count })

  unfoldable pub write : NfsFh3 → ℕ → ℕ → List ℕ → Attempt (Resok proc_write) Nfs3Error
  write file offset stable data_bytes = request proc_write (record {
    file = file;
    offset = offset;
    count = length data_bytes % 2 ^ 32;
    stable = stable;
    data_bytes = data_bytes;
  })

  unfoldable pub create : NfsFh3 → List ℕ → ℕ → Sattr3 → Attempt (Resok proc_create) Nfs3Error
  create dir name mode attributes = request proc_create (record {
    where_dir = dir;
    where_name = name;
    how_mode = mode;
    how_attributes = attributes;
    how_verf = record { data_bytes = replicate 8 0 };
  })

  unfoldable pub mkdir : NfsFh3 → List ℕ → Sattr3 → Attempt (Resok proc_mkdir) Nfs3Error
  mkdir where_dir where_name attributes =
      request proc_mkdir
        (record { where_dir = where_dir; where_name = where_name; attributes = attributes })

  unfoldable pub symlink :
      NfsFh3 → List ℕ → Sattr3 → List ℕ → Attempt (Resok proc_symlink) Nfs3Error
  symlink where_dir where_name symlink_attributes symlink_data = request proc_symlink (record {
    where_dir = where_dir;
    where_name = where_name;
    symlink_attributes = symlink_attributes;
    symlink_data = symlink_data;
  })

  unfoldable pub mknod : NfsFh3 → List ℕ → ℕ → Sattr3 → Attempt (Resok proc_mknod) Nfs3Error
  mknod where_dir where_name what_type what_attributes = request proc_mknod (record {
    where_dir = where_dir;
    where_name = where_name;
    what_type = what_type;
    what_attributes = what_attributes;
  })

  unfoldable pub remove : NfsFh3 → List ℕ → Attempt (Resok proc_remove) Nfs3Error
  remove object_dir object_name =
      request proc_remove (record { object_dir = object_dir; object_name = object_name })

  unfoldable pub rmdir : NfsFh3 → List ℕ → Attempt (Resok proc_rmdir) Nfs3Error
  rmdir object_dir object_name =
      request proc_rmdir (record { object_dir = object_dir; object_name = object_name })

  unfoldable pub rename_op :
      NfsFh3 → List ℕ → NfsFh3 → List ℕ → Attempt (Resok proc_rename) Nfs3Error
  rename_op from_dir from_name to_dir to_name =
      request proc_rename
        (record { from_dir = from_dir; from_name = from_name; to_dir = to_dir; to_name = to_name })

  unfoldable pub link : NfsFh3 → NfsFh3 → List ℕ → Attempt (Resok proc_link) Nfs3Error
  link file link_dir link_name =
      request proc_link (record { file = file; link_dir = link_dir; link_name = link_name })

  unfoldable pub readdir : NfsFh3 → ℕ → ℕ → ℕ → Attempt (Resok proc_readdir) Nfs3Error
  readdir dir cookie cookieverf count =
      request proc_readdir
        (record { dir = dir; cookie = cookie; cookieverf = cookieverf; count = count })

  unfoldable pub readdirplus : NfsFh3 → ℕ → ℕ → ℕ → ℕ → Attempt (Resok proc_readdirplus) Nfs3Error
  readdirplus dir cookie cookieverf dircount maxcount = request proc_readdirplus (record {
    dir = dir;
    cookie = cookie;
    cookieverf = cookieverf;
    dircount = dircount;
    maxcount = maxcount;
  })

  unfoldable pub fsstat : NfsFh3 → Attempt (Resok proc_fsstat) Nfs3Error
  fsstat fsroot = request proc_fsstat (record { fsroot = fsroot })

  unfoldable pub fsinfo : NfsFh3 → Attempt (Resok proc_fsinfo) Nfs3Error
  fsinfo fsroot = request proc_fsinfo (record { fsroot = fsroot })

  unfoldable pub pathconf : NfsFh3 → Attempt (Resok proc_pathconf) Nfs3Error
  pathconf object = request proc_pathconf (record { object = object })

  unfoldable pub commit : NfsFh3 → ℕ → ℕ → Attempt (Resok proc_commit) Nfs3Error
  commit file offset count =
      request proc_commit (record { file = file; offset = offset; count = count })
