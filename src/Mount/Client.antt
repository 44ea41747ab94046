-- ===== src/Mount/Client.antt =====
-- class MountClient: nfs3_rpc_tests/src/mount_client.cpp, as it is built without libtirpc. `impl_` is
-- always set, since a client can be neither copied nor moved. The making of its connection is not
-- modelled.
use nfstest.Prelude.{ℕ, Bool, List, [], not, if◌then◌else◌}
use nfstest.Xdr.Word.{Endianness}
use nfstest.Xdr.Buffer.{
  XdrBuffer, XdrError, Outcome, ok, threw, fault, stuck, empty_buffer, pack_string,
}
use nfstest.Nfs.Attributes.{NfsFh3}
use nfstest.Rpc.Protocol.{ok as status_ok}
use nfstest.Rpc.Reply.{Parsed}
use nfstest.Rpc.Transport.{Io, returned, blocked, fault as io_fault}
use nfstest.Rpc.Client.{RpcClient, Called, call as rpc_call}
use nfstest.Endpoint.{Expected, value, unexpected}
use nfstest.Mount.{MountError, rpc_error, xdr_unpack_fhstatus, mnt_result}
use nfstest.Mount.Exports.{xdr_unpack_exports}

pub record MountClient : Type 0 where
  pub rpc_client : RpcClient

unfoldable pub client_is_connected : MountClient → Bool
client_is_connected c = c.rpc_client.transport.is_connected

-- A method returns; an XdrError leaves it; it waits for the kernel for ever; or it does what C++
-- leaves undefined.
pub data Ended (A : Type 0) : Type 0 where
  done : Expected A MountError → MountClient → Ended A
  raised : XdrError → Ended A
  waits : Ended A
  undefined : Ended A

module _ {A B : Type 0} where
  -- What follows a method of XdrBuffer.
  abbrev pub on_buffer : Outcome B → (B → XdrBuffer → Ended A) → Ended A
  on_buffer (ok b buf) k = k b buf
  on_buffer (threw x buf) k = raised x
  on_buffer fault k = undefined
  on_buffer stuck k = undefined

module _ {A : Type 0} where
  -- What follows a call: the client's socket and transaction id are those that the call left.
  abbrev pub after_rpc : MountClient → Io Called → (MountClient → Parsed → Ended A) → Ended A
  after_rpc c (returned called s) k =
      let transport = record c.rpc_client.transport { socket = s } in
      let client : RpcClient = record { transport = transport; xid = called.next_xid } in
      k (record { rpc_client = client }) called.result
  after_rpc c blocked k = waits
  after_rpc c io_fault k = undefined

-- A buffer over the bytes of a reply.
abbrev pub reply_buffer : List ℕ → XdrBuffer
reply_buffer bytes = record { buffer = bytes; pos = 0 }

module _ (e : Endianness) where
  abbrev pub on_mnt : MountClient → Parsed → Ended NfsFh3
  on_mnt c (status_ok, resp_data) =
      on_buffer (xdr_unpack_fhstatus e (reply_buffer resp_data)) λ fhs _. done (mnt_result fhs) c
  on_mnt c (status, resp_data) = done (unexpected rpc_error) c

  unfoldable pub mnt : MountClient → List ℕ → Ended NfsFh3
  unfolding client_is_connected
  mnt c path =
      if not (client_is_connected c)
      then done (unexpected rpc_error) c
      else on_buffer (pack_string path e empty_buffer)
          λ _ args_buf. after_rpc c (rpc_call e c.rpc_client 100005 3 1 args_buf.buffer) on_mnt

  abbrev pub on_umnt : MountClient → Parsed → Ended (Unit {0})
  on_umnt c (status_ok, resp_data) = done (value tt) c
  on_umnt c (status, resp_data) = done (unexpected rpc_error) c

  unfoldable pub umnt : MountClient → List ℕ → Ended (Unit {0})
  unfolding client_is_connected
  umnt c path =
      if not (client_is_connected c)
      then done (unexpected rpc_error) c
      else on_buffer (pack_string path e empty_buffer)
          λ _ args_buf. after_rpc c (rpc_call e c.rpc_client 100005 3 3 args_buf.buffer) on_umnt

  abbrev pub on_exports : MountClient → Parsed → Ended (List (List ℕ))
  on_exports c (status_ok, resp_data) =
      on_buffer (xdr_unpack_exports e (reply_buffer resp_data)) λ result _. done (value result) c
  on_exports c (status, resp_data) = done (unexpected rpc_error) c

  unfoldable pub list_exports : MountClient → Ended (List (List ℕ))
  unfolding client_is_connected
  list_exports c =
      if not (client_is_connected c)
      then done (unexpected rpc_error) c
      else after_rpc c (rpc_call e c.rpc_client 100005 3 5 []) on_exports

-- Nothing is sent.
unfoldable pub dump : MountClient → Ended (List (List ℕ))
unfolding client_is_connected
dump c = if not (client_is_connected c) then done (unexpected rpc_error) c else done (value []) c
