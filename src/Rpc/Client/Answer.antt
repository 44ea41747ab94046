-- ===== src/Rpc/Client/Answer.antt =====
-- `call` of simple_rpc/src/rpc_client.cpp, whatever the kernel and the server answer.
use nfstest.Prelude.{
  ℕ, suc, ◌+◌, ◌%◌, ◌^◌, ◌≤◌, ◌≡◌, ◌≢◌, refl, sym, ap, ◌∙◌, Bool, true, false, List, [], ◌++◌,
  Option, none, some, length, if◌then◌else◌, not, Bool-cases, inl, inr, Cases,
}
use nfstest.Xdr.Word.{Endianness, network_to_host32, word_of32}
use nfstest.Rpc.Protocol.{
  RpcStatus, ok, conn_err, timeout, prog_unavail, prog_mismatch, proc_unavail, garbage_args,
  auth_error, proto_err, send_err, recv_err, read_uint32_be,
}
use nfstest.Rpc.Reply.{Parsed, parse_reply}
use nfstest.Rpc.Call.{call_message, build_call_lem}
use nfstest.Rpc.Parse.Safety.{parse_reply_ok, parse_reply_keeps}
use nfstest.Rpc.Transport.{Socket, Io, returned, blocked, fault, ◌>>=◌, recv}
use nfstest.Rpc.Transport.Sending.{record_of, Sent, send-Sent}
use nfstest.Rpc.Transport.Receiving.{Received, recv-Received}
use nfstest.Rpc.Client.{RpcClient, Called, call, give, on_reply}

abbrev pub is_ok : RpcStatus → Bool
is_ok ok = true
is_ok _ = false

is_ok-ok : (status : RpcStatus) → is_ok status ≡ true → status ≡ ok
is_ok-ok ok h = refl
is_ok-ok conn_err h = cc
is_ok-ok timeout h = cc
is_ok-ok prog_unavail h = cc
is_ok-ok prog_mismatch h = cc
is_ok-ok proc_unavail h = cc
is_ok-ok garbage_args h = cc
is_ok-ok auth_error h = cc
is_ok-ok proto_err h = cc
is_ok-ok send_err h = cc
is_ok-ok recv_err h = cc

not_ok : (status : RpcStatus) → is_ok status ≡ false → status ≢ ok
not_ok status h k = let m : is_ok status ≡ true = rw (k) refl in cc

-- The message was sent whole, as one record, and a record with an accepted reply of the same
-- transaction id was taken off the stream, which is longer than the body by its header: the body is
-- what `parse_reply` takes from it.
abbrev pub Success : Endianness → RpcClient → List ℕ → List ℕ → Socket → Type 0
Success e c message body s =
    (s.sent ≡ c.transport.socket.sent ++ record_of message)
    × (header : List ℕ) × (reply : List ℕ) × (c.transport.socket.incoming
        ≡ header ++ (reply ++ s.incoming))
    × (length reply ≡ network_to_host32 e (word_of32 e header) % 2 ^ 31)
    × (read_uint32_be e reply 0 ≡ some c.xid)
    × (read_uint32_be e reply 8 ≡ some 0)
    × (length body + 24 ≤ length reply)
    × (parse_reply e reply [] c.xid ≡ some (ok, body))

-- A call that reports a success is one, and any other gives no bytes.
abbrev pub Answered : Endianness → RpcClient → List ℕ → Io Called → Type 0
Answered e c message (returned called s) =
    let (status, body) = called.result in
    Cases (is_ok status) (Success e c message body s) (body ≡ [])
Answered e c message blocked = Unit
Answered e c message fault = Unit

if-Answered :
    (e : Endianness) (c : RpcClient) (message : List ℕ) (flag : Bool) (o p : Io Called)
    → Answered e c message o
    → Answered e c message p
    → Answered e c message (if flag then o else p)
if-Answered e c message true o p h k = h
if-Answered e c message false o p h k = k

module _ (e : Endianness) (c : RpcClient) (message : List ℕ) (next_xid : ℕ) where
  give-Answered :
      (header reply : List ℕ) (s : Socket) (p : Option Parsed)
      → parse_reply e reply [] c.xid ≡ p
      → s.sent ≡ c.transport.socket.sent ++ record_of message
      → length reply ≡ network_to_host32 e (word_of32 e header) % 2 ^ 31
      → c.transport.socket.incoming ≡ header ++ (reply ++ s.incoming)
      → Answered e c message (give p next_xid s)
  give-Answered header reply s none h sent size here = _
  give-Answered header reply s (some (status, body)) h sent size here =
      elim (Bool-cases (is_ok status)) [
        | inl k ↦
            let ok_reply : parse_reply e reply [] c.xid ≡ some (ok, body) =
              h ∙ ap (λ t. some (t, body)) (is_ok-ok status k) in
            let (xid, kind, stat, size') = parse_reply_ok e reply [] c.xid body ok_reply in
            rw (k) (sent, header, reply, here, size, xid, stat, size', ok_reply)
        | inr k ↦ rw (k) (parse_reply_keeps e reply [] c.xid status body h (not_ok status k))
      ]

  recv-Answered :
      (s : Socket) (o : Io (Bool × List ℕ))
      → s.sent ≡ c.transport.socket.sent ++ record_of message
      → s.incoming ≡ c.transport.socket.incoming
      → Received e s.sent s.incoming o
      → Answered e c message (
          o >>= λ (done, reply_data) r.
          if not done
          then returned (record { result = (recv_err, []); next_xid = next_xid }) r
          else on_reply e c.xid reply_data next_xid r)
  recv-Answered s (returned (true, reply) r) sent unread (header, four, size, here, same) =
      give-Answered header reply r _ refl (same ∙ sent) size (sym unread ∙ here)
  recv-Answered s (returned (false, reply) r) sent unread h = refl
  recv-Answered s blocked sent unread h = _
  recv-Answered s fault sent unread h = _

  send-Answered :
      (o : Io Bool)
      → Sent (record_of message) c.transport.socket.sent c.transport.socket.incoming o
      → Answered e c message (
          o >>= λ sent s.
          if not sent
          then returned (record { result = (send_err, []); next_xid = next_xid }) s
          else recv e (record c.transport { socket = s }) >>= λ (done, reply_data) r.
              if not done
              then returned (record { result = (recv_err, []); next_xid = next_xid }) r
              else on_reply e c.xid reply_data next_xid r)
  send-Answered (returned true s) (sent, unread) =
      recv-Answered s _ sent unread (recv-Received e (record c.transport { socket = s }))
  send-Answered (returned false s) h = refl
  send-Answered blocked h = _
  send-Answered fault h = _

-- Whatever the kernel and the server answer: when a call returns with a success, its RFC 5531
-- message was sent whole, as one record, and a record was taken off the stream whose message is as
-- long as the header in front of it states, has the call's transaction id, was accepted, and holds
-- at least the body and the six words in front of it. When it returns with any other status, it
-- gives no bytes.
pub call-Answered :
    (e : Endianness) (c : RpcClient) (prog vers proc : ℕ) (xdr_args : List ℕ)
    → Answered e c (call_message c.xid prog vers proc xdr_args) (call e c prog vers proc xdr_args)
unfolding call
call-Answered e c prog vers proc xdr_args =
    let message = call_message c.xid prog vers proc xdr_args in
    if-Answered e c message (not c.transport.is_connected) _ _ refl (
      rw (build_call_lem e c.xid prog vers proc xdr_args)
        (send-Answered e c message (suc c.xid % 2 ^ 32) _ (send-Sent e c.transport message)))
