-- ===== src/Rpc/Exported.antt =====
-- The C interface of simple_rpc/src/rpc_client.cpp: `map_status`, `nfstest_rpc_call` and
-- `nfstest_rpc_raw_call`. A pointer that is given is null or points to what it should.
pub mod Codes
use nfstest.Prelude.{
  ℕ, ◌+◌, Bool, true, false, List, [], ◌∷◌, Option, none, some, not, ◌&&◌, ◌||◌, ltb, if◌then◌else◌,
  length,
}
use nfstest.Xdr.Word.{Endianness}
use nfstest.Xdr.Int.{ℤ, pos, negsuc}
use nfstest.Rpc.Protocol.{
  RpcStatus, ok, conn_err, timeout, prog_unavail, prog_mismatch, proc_unavail, garbage_args,
  auth_error, proto_err, send_err, recv_err,
}
use nfstest.Rpc.Reply.{Parsed}
use nfstest.Rpc.Transport.{Socket, Io, returned, ◌>>=◌}
use nfstest.Rpc.Client.{RpcClient, Called, call, raw_call}

-- NFSTEST_RPC_OK is 0, and each error a negative number.
unfoldable pub map_status : RpcStatus → ℤ
map_status ok = pos 0
map_status conn_err = negsuc 0
map_status timeout = negsuc 1
map_status prog_unavail = negsuc 2
map_status prog_mismatch = negsuc 3
map_status proc_unavail = negsuc 4
map_status garbage_args = negsuc 5
map_status auth_error = negsuc 6
map_status proto_err = negsuc 7
map_status send_err = negsuc 8
map_status recv_err = negsuc 9

-- A pointer to bytes and their number.
pub data CArray : Type 0 where
  null : ℕ → CArray
  array : List ℕ → CArray

-- `args_len > 0 && !args_data`
abbrev pub is_missing : CArray → Bool
is_missing (null args_len) = ltb 0 args_len
is_missing (array bytes) = false

abbrev pub bytes_of : CArray → List ℕ
bytes_of (null args_len) = []
bytes_of (array bytes) = bytes

-- The code, with `*resp_data` and `*resp_len` after the return; null is the empty option.
pub record CResult : Type 0 where
  pub code : ℤ
  pub resp_data : Option (List ℕ)
  pub resp_len : ℕ

-- From `if (status != ...::OK)` on; `allocates` says whether `malloc` succeeds.
unfoldable pub respond : Bool → Parsed → CResult
unfolding map_status
respond allocates (ok, []) = record { code = pos 0; resp_data = none; resp_len = 0 }
respond allocates (ok, x ∷ resp) =
    if not allocates
    then record { code = negsuc 0; resp_data = none; resp_len = 0 }
    else record { code = pos 0; resp_data = some (x ∷ resp); resp_len = length (x ∷ resp) }
respond allocates (status, resp) = record {
  code = map_status status;
  resp_data = none;
  resp_len = 0;
}

module _ (e : Endianness) (allocates : Bool) where
  -- `client_is_null` and `resp_is_null` say which of the pointers to the client and to the two
  -- results are null; `old` is what the results hold before.
  unfoldable pub nfstest_rpc_call :
      (client_is_null resp_is_null : Bool)
      → RpcClient
      → ℕ
      → ℕ
      → ℕ
      → CArray
      → CResult
      → Io (CResult × ℕ)
  unfolding respond
  nfstest_rpc_call client_is_null resp_is_null client prog vers proc args old =
      if client_is_null || resp_is_null || is_missing args
      then returned (record old { code = negsuc 0 }, client.xid) client.transport.socket
      else call e client prog vers proc (bytes_of args) >>= λ called s.
          returned (respond allocates called.result, called.next_xid) s

  unfoldable pub nfstest_rpc_raw_call :
      (client_is_null resp_is_null : Bool) → RpcClient → CArray → CResult → Io CResult
  unfolding respond
  nfstest_rpc_raw_call client_is_null resp_is_null client call_data old =
      if client_is_null || resp_is_null || is_missing call_data
      then returned (record old { code = negsuc 0 }) client.transport.socket
      else raw_call e client (bytes_of call_data) >>= λ result s.
          returned (respond allocates result) s
