-- ===== src/Endpoint/EndToEnd.antt =====
-- `call` of class RPCEndpoint (nfs3_rpc_tests/include/nfs3/rpc_endpoint.hpp) for the procedures of
-- NFSv3, from the arguments to the reply.
use nfstest.Prelude.{
  ℕ, suc, ◌+◌, ◌%◌, ◌^◌, ◌≤◌, ◌<◌, ◌≡◌, ◌≢◌, refl, ap, ◌∙◌, Bool, true, false, not, ◌&&◌,
  if◌then◌else◌, arith, List, ◌++◌, length,
}
use nfstest.Xdr.Word.{Endianness, IsU32}
use nfstest.Xdr.Buffer.{ok, empty_buffer}
use nfstest.Xdr.Codec.{fresh}
use nfstest.Rpc.Call.{call_message}
use nfstest.Rpc.Parse.{accepted_reply}
use nfstest.Rpc.Transport.{Response, Socket}
use nfstest.Rpc.Transport.Progress.{Lively, moves}
use nfstest.Rpc.Transport.Sending.{record_of}
use nfstest.Rpc.Transport.Record.{socket_of}
use nfstest.Rpc.Client.Call.{call_done}
use nfstest.Nfs.Reply.{res_codec, res_fresh}
use nfstest.Nfs.Reply.RoundTrip.{ResFits}
use nfstest.Nfs.Procedure.{Procedure, Args, Reply, args_codec, reply_codec, proc_num}
use nfstest.Nfs.Procedure.RoundTrip.{ResokFits}
use nfstest.Endpoint.{RpcEndpoint, value, done, call, is_connected, on_packed, on_called}
use nfstest.Endpoint.Decode.{on_status_reply}

-- The endpoint after a call: what is left of its socket, and the next transaction id.
abbrev pub after_call : RpcEndpoint → Socket → RpcEndpoint
after_call ep s = record ep {
  rpc_client = record {
    transport = record ep.rpc_client.transport { socket = s };
    xid = suc ep.rpc_client.xid % 2 ^ 32;
  };
}

pub if_connected :
    {A : Type 0} (flag : Bool) (x y : A) → flag ≡ true → (if not flag then x else y) ≡ y
if_connected true x y h = refl
if_connected false x y h = cc

both : {a b : Bool} → a ≡ true → b ≡ true → (a && b) ≡ true
both {a = true} h k = k
both {a = false} h k = h

module _ (p : Procedure) (server e : Endianness) (ep : RpcEndpoint) (args : Args p) (w : Reply p)
    (request body later_bytes : List ℕ) (flavor : ℕ) (verf : List ℕ) where
  -- A procedure of NFSv3 is called and answered: the arguments are packed into `request`, which is
  -- sent in an RFC 5531 call message of program 100003, version 3, as one record; the record at the
  -- front of the stream holds the accepted reply of the same transaction id, whose results are the
  -- bytes `body` that a host of either byte order packed the procedure's reply into; then the call
  -- gives that reply, and leaves what is behind the record in the stream. The endpoint is connected,
  -- the reply is in its ranges and shows only members that it carries, the reply message is below
  -- 2^31 bytes under a verifier that is not AUTH_SYS, and every answer of the kernel moves bytes, is
  -- an interruption or a wait that ends, with as many that move bytes as both records have bytes.
  pub endpoint_call_done :
      ep.has_impl ≡ true
      → ep.rpc_client.transport.is_connected ≡ true
      → (args_codec p).serialize args e empty_buffer ≡ ok tt (record { buffer = request; pos = 0 })
      → (reply_codec p).serialize w server empty_buffer ≡ ok tt (record { buffer = body; pos = 0 })
      → ResFits (ResokFits p) fresh w
      → IsU32 ep.rpc_client.xid
      → IsU32 flavor
      → flavor ≢ 1
      → length verf + 3 < 2 ^ 32
      → length (accepted_reply ep.rpc_client.xid flavor verf 0 body) < 2 ^ 31
      → ep.rpc_client.transport.socket.incoming
        ≡ record_of (accepted_reply ep.rpc_client.xid flavor verf 0 body) ++ later_bytes
      → Lively ep.rpc_client.transport.socket.responses
      → 8
          + length (call_message ep.rpc_client.xid 100003 3 (proc_num p) request)
          + length (accepted_reply ep.rpc_client.xid flavor verf 0 body)
        ≤ moves ep.rpc_client.transport.socket.responses
      → (later : List Response) × (call ⦃a = args_codec p⦄ ⦃c = reply_codec p⦄ ⦃f = res_fresh⦄ e ep
            (proc_num p)
            args
          ≡ done (value w) (
              after_call ep (
                socket_of
                  (ep.rpc_client.transport.socket.sent
                    ++ record_of (call_message ep.rpc_client.xid 100003 3 (proc_num p) request))
                  later_bytes
                  later)))
  unfolding call is_connected
  endpoint_call_done set connected packed packed' fits hx hf other hv short here live enough =
      let c = ep.rpc_client in
      let (later, called) =
        call_done e c 100003 3 (proc_num p) request flavor verf 0 body later_bytes connected hx hf
          other (omega arith) hv short here live enough in
      (
        later,
        if_connected _ _ _ (both set connected)
            ∙ ap (on_packed ⦃c = reply_codec p⦄ ⦃f = res_fresh⦄ e ep (proc_num p)) packed
            ∙ ap (on_called ⦃c = reply_codec p⦄ ⦃f = res_fresh⦄ e ep) called
            ∙ on_status_reply p server e (after_call ep _) w body fits packed',
      )
