-- ===== src/Endpoint.antt =====
-- class RPCEndpoint: nfs3_rpc_tests/include/nfs3/rpc_endpoint.hpp and src/rpc_endpoint.cpp, as they
-- are built without libtirpc; with `expected` of nfs3_rpc_tests/include/nfs3/expected.hpp.
-- What is printed to the error stream is not modelled.
pub mod Decode
pub mod EndToEnd
pub mod Runs
use nfstest.Prelude.{ℕ, Bool, true, false, List, [], ◌∷◌, not, ◌&&◌, if◌then◌else◌}
use nfstest.Xdr.Word.{Endianness}
use nfstest.Xdr.Buffer.{XdrBuffer, XdrError, Outcome, ok, threw, fault, stuck, empty_buffer}
use nfstest.Xdr.Codec.{Codec, Fresh, pack, unpack, fresh}
use nfstest.Rpc.Protocol.{
  RpcStatus, ok as status_ok, timeout as status_timeout, prog_unavail as status_prog_unavail,
  prog_mismatch as status_prog_mismatch, proc_unavail as status_proc_unavail,
  auth_error as status_auth_error,
}
use nfstest.Rpc.Reply.{Parsed}
use nfstest.Rpc.Transport.{Socket, Io, returned, blocked, fault as io_fault}
use nfstest.Rpc.Client.{RpcClient, Called, call as client_call, disconnect_client}

pub data RpcError : Type 0 where
  success connection_failed timeout rpc_mismatch prog_unavail prog_mismatch proc_unavail auth_error
        decode_error encode_error unknown :
      RpcError

pub data Expected (A E : Type 0) : Type 0 where
  value : A → Expected A E
  unexpected : E → Expected A E

-- `impl_` is set, or null after a move; what it points to.
pub record RpcEndpoint : Type 0 where
  pub has_impl : Bool
  pub rpc_client : RpcClient

unfoldable pub is_connected : RpcEndpoint → Bool
is_connected ep = ep.has_impl && ep.rpc_client.transport.is_connected

unfoldable pub shutdown : RpcEndpoint → RpcEndpoint
shutdown ep = if ep.has_impl then record ep { rpc_client = disconnect_client ep.rpc_client } else ep

-- A method returns; it throws, which only the packing of the arguments does; it waits for the
-- kernel for ever; or it does what C++ leaves undefined.
pub data Attempt (A E : Type 0) : Type 0 where
  done : Expected A E → RpcEndpoint → Attempt A E
  raised : XdrError → Attempt A E
  waits : Attempt A E
  undefined : Attempt A E

-- `switch (status)`, for a status that is not OK.
unfoldable pub error_of : RpcStatus → RpcError
error_of status_timeout = timeout
error_of status_prog_unavail = prog_unavail
error_of status_prog_mismatch = prog_mismatch
error_of status_proc_unavail = proc_unavail
error_of status_auth_error = auth_error
error_of _ = connection_failed

module _ {R : Type 0} where
  -- `try { resp_buf.unpack(response); } catch (const std::exception& e) { ... }`
  abbrev pub on_unpacked : RpcEndpoint → Outcome R → Attempt R RpcError
  on_unpacked ep (ok response b) = done (value response) ep
  on_unpacked ep (threw x b) = done (unexpected decode_error) ep
  on_unpacked ep fault = undefined
  on_unpacked ep stuck = undefined

  module _ ⦃c : Codec R⦄ ⦃f : Fresh R⦄ (e : Endianness) where
    -- From `switch (status)` on.
    unfoldable pub on_status : RpcEndpoint → Parsed → Attempt R RpcError
    unfolding error_of
    on_status ep (status_ok, []) = done (unexpected decode_error) ep
    on_status ep (status_ok, x ∷ body) =
        on_unpacked ep (unpack fresh e (record { buffer = x ∷ body; pos = 0 }))
    on_status ep (status, body) = done (unexpected (error_of status)) ep

    -- The client's socket and transaction id are those that its call left.
    abbrev pub on_called : RpcEndpoint → Io Called → Attempt R RpcError
    on_called ep (returned called s) =
        let transport = record ep.rpc_client.transport { socket = s } in
        let client : RpcClient = record { transport = transport; xid = called.next_xid } in
        on_status (record ep { rpc_client = client }) called.result
    on_called ep blocked = waits
    on_called ep io_fault = undefined

    abbrev pub on_packed : RpcEndpoint → ℕ → Outcome (Unit {0}) → Attempt R RpcError
    on_packed ep proc_num (ok _ req_buf) =
        on_called ep (client_call e ep.rpc_client 100003 3 proc_num req_buf.buffer)
    on_packed ep proc_num (threw x b) = raised x
    on_packed ep proc_num fault = undefined
    on_packed ep proc_num stuck = undefined

module _ {A R : Type 0} ⦃a : Codec A⦄ ⦃c : Codec R⦄ ⦃f : Fresh R⦄ (e : Endianness) where
  unfoldable pub call : RpcEndpoint → ℕ → A → Attempt R RpcError
  unfolding is_connected
  call ep proc_num args =
      if not (is_connected ep)
      then done (unexpected connection_failed) ep
      else on_packed e ep proc_num (pack args e empty_buffer)

-- `switch (status)` of `call_void`, which has no case for an authentication error.
unfoldable pub void_error_of : RpcStatus → RpcError
void_error_of status_timeout = timeout
void_error_of status_prog_unavail = prog_unavail
void_error_of status_prog_mismatch = prog_mismatch
void_error_of status_proc_unavail = proc_unavail
void_error_of _ = connection_failed

module _ {R : Type 0} ⦃f : Fresh R⦄ where
  abbrev pub on_void_status : RpcStatus → Expected R RpcError
  on_void_status status_ok = value fresh
  on_void_status status = unexpected (void_error_of status)

  abbrev pub on_void_called : RpcEndpoint → Io Called → Attempt R RpcError
  on_void_called ep (returned called s) =
      let transport = record ep.rpc_client.transport { socket = s } in
      let client : RpcClient = record { transport = transport; xid = called.next_xid } in
      done (on_void_status called.result.0) (record ep { rpc_client = client })
  on_void_called ep blocked = waits
  on_void_called ep io_fault = undefined

  unfoldable pub call_void : Endianness → RpcEndpoint → ℕ → Attempt R RpcError
  unfolding is_connected void_error_of
  call_void e ep proc_num =
      if not (is_connected ep)
      then done (unexpected connection_failed) ep
      else on_void_called ep (client_call e ep.rpc_client 100003 3 proc_num [])
