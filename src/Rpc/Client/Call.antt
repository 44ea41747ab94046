-- ===== src/Rpc/Client/Call.antt =====
-- `call` and `raw_call` of simple_rpc/src/rpc_client.cpp, from the arguments to the results.
use nfstest.Prelude.{
  ℕ, suc, ◌+◌, ◌%◌, ◌^◌, ◌≤◌, ◌<◌, ◌≡◌, ◌≢◌, refl, ◌∙◌, true, List, [], ◌++◌, some, length,
  if◌then◌else◌, ◌==◌, arith,
}
use nfstest.Xdr.Word.{Endianness, IsU32}
use nfstest.Rpc.Protocol.{ok, conn_err}
use nfstest.Rpc.Reply.{Parsed, parse_reply}
use nfstest.Rpc.Call.{call_message, build_call_lem}
use nfstest.Rpc.Parse.{accepted_reply, accept_error, parse_reply_accepted}
use nfstest.Rpc.Transport.{Response, Socket, returned, Transport, send, recv}
use nfstest.Rpc.Transport.Progress.{Lively, moves}
use nfstest.Rpc.Transport.Sending.{record_of}
use nfstest.Rpc.Transport.Record.{socket_of, send_done, recv_done}
use nfstest.Rpc.Client.{RpcClient, call, raw_call, disconnect_client, on_reply}

-- A record goes out and the record at the front of the stream comes in.
exchange :
    (e : Endianness) (t : Transport) (message reply later_bytes : List ℕ)
    → t.is_connected ≡ true
    → t.socket.incoming ≡ record_of reply ++ later_bytes
    → length reply < 2 ^ 31
    → Lively t.socket.responses
    → 8 + length message + length reply ≤ moves t.socket.responses
    → (mid : List Response) × (later : List Response) × (send e t message
        ≡ returned true (socket_of (t.socket.sent ++ record_of message) t.socket.incoming mid))
      × (recv e (record t {
        socket = socket_of (t.socket.sent ++ record_of message) t.socket.incoming mid;
      })
          ≡ returned
              (true, reply)
              (socket_of (t.socket.sent ++ record_of message) later_bytes later))
exchange e t message reply later_bytes k here short live enough =
    let (mid, sent, (live', served)) = send_done e t message k live (omega arith) in
    let after = record t {
      socket = socket_of (t.socket.sent ++ record_of message) t.socket.incoming mid;
    } in
    let (later, received, served') =
      recv_done e after reply later_bytes k here short live' (omega arith) in
    (mid, later, sent, received)

call_exchange :
    (e : Endianness) (c : RpcClient) (prog vers proc : ℕ) (xdr_args reply : List ℕ) (s r : Socket)
    → c.transport.is_connected ≡ true
    → send e c.transport (call_message c.xid prog vers proc xdr_args) ≡ returned true s
    → recv e (record c.transport { socket = s }) ≡ returned (true, reply) r
    → call e c prog vers proc xdr_args ≡ on_reply e c.xid reply (suc c.xid % 2 ^ 32) r
unfolding call
call_exchange e c prog vers proc xdr_args reply s r k sent received =
    rw (build_call_lem e c.xid prog vers proc xdr_args, sent, received, k)

on_reply_lem :
    (e : Endianness) (xid : ℕ) (reply : List ℕ) (next_xid : ℕ) (r : Socket) (result : Parsed)
    → parse_reply e reply [] xid ≡ some result
    → on_reply e xid reply next_xid r ≡ returned (record { result = result; next_xid = next_xid }) r
on_reply_lem e xid reply next_xid r result h = rw (h)

raw_call_exchange :
    (e : Endianness) (c : RpcClient) (raw_msg reply : List ℕ) (s r : Socket)
    → c.transport.is_connected ≡ true
    → send e c.transport raw_msg ≡ returned true s
    → recv e (record c.transport { socket = s }) ≡ returned (true, reply) r
    → raw_call e c raw_msg ≡ returned (ok, reply) r
unfolding raw_call
raw_call_exchange e c raw_msg reply s r k sent received = rw (sent, received, k)

-- A call is sent as one record that holds the RFC 5531 call message with the client's transaction
-- id. If the record at the front of the stream is the server's accepted reply to it, under any
-- verifier but an AUTH_SYS one, the call gives the results, or the error that the status word
-- tells, and the next call has the next transaction id, modulo 2^32. The socket is there, the reply
-- is below 2^31 bytes, the numbers in it are below 2^32, and every answer of the kernel moves
-- bytes, is an interruption or a wait that ends, with as many that move bytes as both records have
-- bytes.
pub call_done :
    (e : Endianness) (c : RpcClient) (prog vers proc : ℕ) (xdr_args : List ℕ) (flavor : ℕ)
    (verf : List ℕ) (accept_stat : ℕ) (results later_bytes : List ℕ)
    → c.transport.is_connected ≡ true
    → IsU32 c.xid
    → IsU32 flavor
    → flavor ≢ 1
    → IsU32 accept_stat
    → length verf + 3 < 2 ^ 32
    → length (accepted_reply c.xid flavor verf accept_stat results) < 2 ^ 31
    → c.transport.socket.incoming
      ≡ record_of (accepted_reply c.xid flavor verf accept_stat results) ++ later_bytes
    → Lively c.transport.socket.responses
    → 8
        + length (call_message c.xid prog vers proc xdr_args)
        + length (accepted_reply c.xid flavor verf accept_stat results)
      ≤ moves c.transport.socket.responses
    → (later : List Response) × (call e c prog vers proc xdr_args
        ≡ returned
            (record {
              result = if accept_stat == 0 then (ok, results) else (accept_error accept_stat, []);
              next_xid = suc c.xid % 2 ^ 32;
            })
            (socket_of
              (c.transport.socket.sent ++ record_of (call_message c.xid prog vers proc xdr_args))
              later_bytes
              later))
call_done e c prog vers proc xdr_args flavor verf accept_stat results later_bytes k hx hf other ha
      hv short here live enough =
    let message = call_message c.xid prog vers proc xdr_args in
    let reply = accepted_reply c.xid flavor verf accept_stat results in
    let (mid, later, sent, received) =
      exchange e c.transport message reply later_bytes k here short live enough in
    let parsed =
      parse_reply_accepted e [] c.xid flavor verf accept_stat results hx hf other ha hv in
    (
      later,
      call_exchange e c prog vers proc xdr_args reply _ _ k sent received
          ∙ on_reply_lem e c.xid reply (suc c.xid % 2 ^ 32) _ _ parsed,
    )

-- A message is sent as one record as it is, and the message of the record at the front of the
-- stream is given as it is, whatever it holds, if the socket is there, that message is below 2^31
-- bytes, and every answer of the kernel moves bytes, is an interruption or a wait that ends, with
-- as many that move bytes as both records have bytes.
pub raw_call_done :
    (e : Endianness) (c : RpcClient) (raw_msg reply later_bytes : List ℕ)
    → c.transport.is_connected ≡ true
    → c.transport.socket.incoming ≡ record_of reply ++ later_bytes
    → length reply < 2 ^ 31
    → Lively c.transport.socket.responses
    → 8 + length raw_msg + length reply ≤ moves c.transport.socket.responses
    → (later : List Response) × (raw_call e c raw_msg
        ≡ returned
            (ok, reply)
            (socket_of (c.transport.socket.sent ++ record_of raw_msg) later_bytes later))
raw_call_done e c raw_msg reply later_bytes k here short live enough =
    let (mid, later, sent, received) =
      exchange e c.transport raw_msg reply later_bytes k here short live enough in
    (later, raw_call_exchange e c raw_msg reply _ _ k sent received)

-- A client that was disconnected makes no call: nothing is sent or read, the status says so, and
-- the transaction ids start again with 1.
pub call_disconnected :
    (e : Endianness) (c : RpcClient) (prog vers proc : ℕ) (xdr_args raw_msg : List ℕ)
    → (call e (disconnect_client c) prog vers proc xdr_args
        ≡ returned (record { result = (conn_err, []); next_xid = 1 }) c.transport.socket)
      × (raw_call e (disconnect_client c) raw_msg ≡ returned (conn_err, []) c.transport.socket)
unfolding call raw_call disconnect_client
call_disconnected e c prog vers proc xdr_args raw_msg = (refl, refl)
