-- ===== src/Mount.antt =====
-- The reply of the MOUNT procedure MNT: `xdr_unpack_fhstatus` of nfs3_rpc_tests/src/mount_client.cpp
-- as it is built without libtirpc, and what `mnt` makes of the status.
pub mod Status
pub mod Exports
pub mod Client
pub mod Listing
pub mod Mounting
pub mod Runs
use nfstest.Prelude.{ℕ, zero, suc, List, [], ◌∷◌, ◌==◌, not, if◌then◌else◌}
use nfstest.Xdr.Int.{ℤ}
use nfstest.Xdr.Buffer.{M, pure, ◌>>=◌, unpack_u32, unpack_i32, unpack_bytes}
use nfstest.Nfs.Attributes.{NfsFh3}
use nfstest.Endpoint.{Expected, value, unexpected}

-- `enum class MountError`, whose members are numbers; RPC_ERROR follows OK and has the number 1.
abbrev pub MountError : Type 0
MountError = ℕ

abbrev pub mount_ok : MountError
mount_ok = 0

abbrev pub rpc_error : MountError
rpc_error = suc mount_ok

abbrev pub perm : MountError
perm = 1

abbrev pub noent : MountError
noent = 2

abbrev pub io : MountError
io = 5

abbrev pub acces : MountError
acces = 13

abbrev pub notdir : MountError
notdir = 20

abbrev pub nametoolong : MountError
nametoolong = 63

pub record FhstatusNative : Type 0 where
  pub status : ℕ
  pub fhandle : List ℕ
  pub auth_flavors : List ℤ

-- `for (uint32_t i = 0; i < auth_count && i < 10; ++i)`, with the rounds that are left of each bound.
unfoldable pub unpack_flavors : ℕ → ℕ → M (List ℤ)
unpack_flavors zero count = pure []
unpack_flavors (suc rounds) zero = pure []
unpack_flavors (suc rounds) (suc count) = do
  flavor ← unpack_i32
  flavors ← unpack_flavors rounds count
  pure (flavor ∷ flavors)

unfoldable pub xdr_unpack_fhstatus : M FhstatusNative
unfolding unpack_flavors
xdr_unpack_fhstatus = do
  status ← unpack_u32
  if status == 0
      then (do
        fhandle ← unpack_bytes
        auth_count ← unpack_u32
        auth_flavors ← unpack_flavors 10 auth_count
        pure (record { status = status; fhandle = fhandle; auth_flavors = auth_flavors }))
      else pure (record { status = status; fhandle = []; auth_flavors = [] })

-- `switch (fhs.status)`
unfoldable pub mount_error : ℕ → MountError
mount_error status =
    if status == 1
    then perm
    else if status == 2
    then noent
    else if status == 5
    then io
    else if status == 13
    then acces
    else if status == 20
    then notdir
    else if status == 63
    then nametoolong
    else rpc_error

-- From `if (fhs.status != 0)` on.
unfoldable pub mnt_result : FhstatusNative → Expected NfsFh3 MountError
unfolding mount_error
mnt_result fhs =
    if not (fhs.status == 0)
    then unexpected (mount_error fhs.status)
    else value (record { data_bytes = fhs.fhandle })
