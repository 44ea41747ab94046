-- ===== src/Mount/Mounting.antt =====
-- `mnt` of nfs3_rpc_tests/src/mount_client.cpp, from the reply of RFC 1813 to its result.
use nfstest.Prelude.{
  ℕ, ◌≡◌, ◌≢◌, refl, ap, ◌∙◌, Bool, true, false, List, [], ◌∷◌, ◌++◌, append-nil, length, take,
  ◌==◌, ◌||◌, if◌then◌else◌, arith,
}
use nfstest.Xdr.Word.{Endianness, IsU32, network_bytes32}
use nfstest.Xdr.Int.{ℤ}
use nfstest.Xdr.Buffer.{XdrBuffer, ok, empty_buffer}
use nfstest.Xdr.Wire.{Reads, Reads->>=, Reads-pure, between}
use nfstest.Xdr.Words.{unpack_u32-Reads}
use nfstest.Xdr.Opaque.{network_opaque, IsShort, pack_string-Packs}
use nfstest.Rpc.Protocol.{ok as status_ok}
use nfstest.Rpc.Transport.{Socket, Io, returned}
use nfstest.Rpc.Client.{Called, call as rpc_call}
use nfstest.Endpoint.{value, unexpected}
use nfstest.Endpoint.EndToEnd.{if_connected}
use nfstest.Nfs.Attributes.{NfsFh3}
use nfstest.Mount.{FhstatusNative, xdr_unpack_fhstatus, mnt_result, mount_error}
use nfstest.Mount.Status.{AllI32, mountres_ok, xdr_unpack_fhstatus_lem}
use nfstest.Mount.Client.{
  MountClient, client_is_connected, Ended, done, mnt, on_buffer, on_mnt, after_rpc, reply_buffer,
}
use nfstest.Mount.Listing.{after_call}

-- The reply of MNT in RFC 1813: the handle and the flavors, or the status of a failure.
pub data Mountres : Type 0 where
  mounted : List ℕ → List ℤ → Mountres
  refused : ℕ → Mountres

abbrev pub rfc_mountres : Mountres → List ℕ
rfc_mountres (mounted fhandle flavors) = mountres_ok fhandle flavors
rfc_mountres (refused status) = network_bytes32 status

abbrev pub MountresFits : Mountres → Type 0
MountresFits (mounted fhandle flavors) = IsShort fhandle × AllI32 flavors × IsU32 (length flavors)
MountresFits (refused status) = IsU32 status × (status ≢ 0)

abbrev is_among : ℕ → List ℕ → Bool
is_among n [] = false
is_among n (m ∷ ms) = (n == m) || is_among n ms

-- PERM, NOENT, IO, ACCES, NOTDIR and NAMETOOLONG keep their numbers, and any other status is 1.
abbrev pub reported : ℕ → ℕ
reported status = if is_among status (1 ∷ 2 ∷ 5 ∷ 13 ∷ 20 ∷ 63 ∷ []) then status else 1

-- What `mnt` tells of a reply.
abbrev pub told_of : Mountres → MountClient → Ended NfsFh3
told_of (mounted fhandle flavors) c = done (value (record { data_bytes = fhandle })) c
told_of (refused status) c = done (unexpected (reported status)) c

mount_error-reported : (status : ℕ) → mount_error status ≡ reported status
unfolding mount_error
mount_error-reported status = ground arith

mnt_result-refused :
    (status : ℕ)
    → status ≢ 0
    → mnt_result (record { status = status; fhandle = []; auth_flavors = [] })
      ≡ unexpected (reported status)
unfolding mnt_result
mnt_result-refused status h =
    let set : (status == 0) ≡ false = ground arith in rw (set, mount_error-reported status) refl

refused-Reads :
    (status : ℕ)
    → IsU32 status
    → status ≢ 0
    → Reads xdr_unpack_fhstatus
        (network_bytes32 status)
        (record { status = status; fhandle = []; auth_flavors = [] })
unfolding xdr_unpack_fhstatus
refused-Reads status h other =
    let set : (status == 0) ≡ false = ground arith in
    Reads->>= _ (unpack_u32-Reads status h) (rw (set) (Reads-pure _))

module _ (e : Endianness) (c : MountClient) where
  reply_read :
      (fhs : FhstatusNative) (bytes : List ℕ) (b : XdrBuffer)
      → xdr_unpack_fhstatus e (between [] (bytes ++ [])) ≡ ok fhs b
      → on_mnt e c (status_ok, bytes) ≡ done (mnt_result fhs) c
  unfolding between
  reply_read fhs bytes b h =
      let read : xdr_unpack_fhstatus e (reply_buffer bytes) ≡ ok fhs b =
        rw (append-nil bytes) at h in
      rw read

  reply_told :
      (m : Mountres) → MountresFits m → on_mnt e c (status_ok, rfc_mountres m) ≡ told_of m c
  unfolding mnt_result
  reply_told (mounted fhandle flavors) (short, all, count) =
      reply_read (record { status = 0; fhandle = fhandle; auth_flavors = take 10 flavors }) _ _
        (xdr_unpack_fhstatus_lem e [] [] fhandle flavors short all count)
  reply_told (refused status) (word, other) =
      reply_read _ (network_bytes32 status) _ ((refused-Reads status word other).consumes e [] [])
      ∙ ap (λ r. done r c) (mnt_result-refused status other)

module _ (e : Endianness) (c : MountClient) where
  -- Over a connected client `mnt` calls the procedure MNT with the path in XDR, a length word, the
  -- bytes and padding. When the call succeeds with the reply of RFC 1813, the result is the handle
  -- of that reply, however many flavors follow it; or, of a reply that tells a failure, its status
  -- where that is 1, 2, 5, 13, 20 or 63, and 1, which is PERM as well as RPC_ERROR, for every other.
  -- The path and the handle are below 2^32 bytes, and the numbers 32-bit integers.
  pub mnt_lem :
      (m : Mountres) (path : List ℕ) (next_xid : ℕ) (s : Socket)
      → c.rpc_client.transport.is_connected ≡ true
      → IsShort path
      → rpc_call e c.rpc_client 100005 3 1 (network_opaque path)
        ≡ returned (record { result = (status_ok, rfc_mountres m); next_xid = next_xid }) s
      → MountresFits m
      → mnt e c path ≡ told_of m (after_call c next_xid s)
  unfolding mnt client_is_connected
  mnt_lem m path next_xid s connected short called h =
      let io = λ (r : Io Called). after_rpc c r (on_mnt e) in
      if_connected _ _ _ connected
      ∙ ap
          (λ o. on_buffer o λ _ args_buf.
            after_rpc c (rpc_call e c.rpc_client 100005 3 1 args_buf.buffer) (on_mnt e))
          ((pack_string-Packs path short).appends e empty_buffer refl)
      ∙ ap io called
      ∙ reply_told e (after_call c next_xid s) m h
