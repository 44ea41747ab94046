-- ===== src/Rpc/Client.antt =====
-- class RpcClient: simple_rpc/src/rpc_client.cpp, its calls over a connected transport.
pub mod Call
pub mod Answer
use nfstest.Prelude.{
  ℕ, suc, ◌+◌, ◌%◌, ◌^◌, Bool, true, false, List, [], not, Option, none, some, if◌then◌else◌,
  length,
}
use nfstest.Xdr.Word.{Endianness}
use nfstest.Rpc.Protocol.{RpcStatus, ok, conn_err, send_err, recv_err, build_call}
use nfstest.Rpc.Reply.{Parsed, parse_reply}
use nfstest.Rpc.Transport.{Socket, Io, returned, fault, ◌>>=◌, Transport, send, recv, disconnect}

pub record RpcClient : Type 0 where
  pub transport : Transport
  pub xid : ℕ

unfoldable pub disconnect_client : RpcClient → RpcClient
unfolding disconnect
disconnect_client c = record { transport = disconnect c.transport; xid = 1 }

-- The status with the bytes, and the client's next transaction id.
pub record Called : Type 0 where
  pub result : Parsed
  pub next_xid : ℕ

unfoldable pub raw_call : Endianness → RpcClient → List ℕ → Io Parsed
raw_call e c raw_msg =
    if not c.transport.is_connected
    then returned (conn_err, []) c.transport.socket
    else send e c.transport raw_msg >>= λ sent s.
        if not sent
        then returned (send_err, []) s
        else recv e (record c.transport { socket = s }) >>= λ (done, reply_data) r.
            if not done then returned (recv_err, []) r else returned (ok, reply_data) r

-- `{status, std::move(resp_body)}` of the reply, which is parsed over an empty `resp_body`.
abbrev pub give : Option Parsed → ℕ → Socket → Io Called
give none next_xid s = fault
give (some result) next_xid s = returned (record { result = result; next_xid = next_xid }) s

abbrev pub on_reply : Endianness → ℕ → List ℕ → ℕ → Socket → Io Called
on_reply e xid reply_data next_xid s = give (parse_reply e reply_data [] xid) next_xid s

unfoldable pub call : Endianness → RpcClient → ℕ → ℕ → ℕ → List ℕ → Io Called
call e c prog vers proc xdr_args =
    if not c.transport.is_connected
    then returned (record { result = (conn_err, []); next_xid = c.xid }) c.transport.socket
    else let next_xid = suc c.xid % 2 ^ 32 in
      send e c.transport (build_call e c.xid prog vers proc xdr_args) >>= λ sent s.
      if not sent
      then returned (record { result = (send_err, []); next_xid = next_xid }) s
      else recv e (record c.transport { socket = s }) >>= λ (done, reply_data) r.
          if not done
          then returned (record { result = (recv_err, []); next_xid = next_xid }) r
          else on_reply e c.xid reply_data next_xid r
