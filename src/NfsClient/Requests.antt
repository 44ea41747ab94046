-- ===== src/NfsClient/Requests.antt =====
-- The methods of class NFS3TestClient (nfs3_rpc_tests/src/nfs3_client.cpp) over the endpoint.
use nfstest.Prelude.{
  ℕ, ◌+◌, ◌^◌, ◌≤◌, ◌<◌, ◌≡◌, ◌≢◌, refl, ap, true, List, ◌++◌, length, some, inl, inr, Bool-cases,
  ◌==◌, Cases, sym, ◌∙◌, false,
}
use mathlib.Core.Path.{subst}
use nfstest.Xdr.Word.{Endianness, IsU32}
use nfstest.Xdr.Buffer.{ok, empty_buffer}
use nfstest.Xdr.Codec.{fresh}
use nfstest.Rpc.Call.{call_message}
use nfstest.Rpc.Parse.{accepted_reply}
use nfstest.Rpc.Transport.{Response}
use nfstest.Rpc.Transport.Progress.{Lively, moves}
use nfstest.Rpc.Transport.Sending.{record_of}
use nfstest.Rpc.Transport.Record.{socket_of}
use nfstest.Nfs.Reply.{res_fresh}
use nfstest.Nfs.Reply.RoundTrip.{ResFits}
use nfstest.Nfs.Procedure.{Procedure, Args, Resok, Reply, args_codec, reply_codec, proc_num}
use nfstest.Nfs.Procedure.RoundTrip.{ResokFits}
use nfstest.Endpoint.{RpcEndpoint, Expected, value, unexpected, done}
use nfstest.Endpoint.EndToEnd.{after_call, endpoint_call_done}
use nfstest.NfsClient.{Nfs3Error, serverfault, request, check, on_result}
use nfstest.NfsClient.Calls.{MethodCall, proc_of, rfc_proc, run, on_wire}
use nfstest.NfsClient.Calls.Filled.{args_of, rfc_proc-proc_num, run-request, serialize-on_wire}

module _ (p : Procedure) (server e : Endianness) (ep : RpcEndpoint) (args : Args p) (w : Reply p)
    (request_bytes body later_bytes : List ℕ) (flavor : ℕ) (verf : List ℕ) where
  -- What the methods share.
  request_done :
      ep.has_impl ≡ true
      → ep.rpc_client.transport.is_connected ≡ true
      → (args_codec p).serialize args e empty_buffer
        ≡ ok tt (record { buffer = request_bytes; pos = 0 })
      → (reply_codec p).serialize w server empty_buffer ≡ ok tt (record { buffer = body; pos = 0 })
      → ResFits (ResokFits p) fresh w
      → IsU32 ep.rpc_client.xid
      → IsU32 flavor
      → flavor ≢ 1
      → length verf + 3 < 2 ^ 32
      → length (accepted_reply ep.rpc_client.xid flavor verf 0 body) < 2 ^ 31
      → ep.rpc_client.transport.socket.incoming
        ≡ record_of (accepted_reply ep.rpc_client.xid flavor verf 0 body) ++ later_bytes
      → Lively ep.rpc_client.transport.socket.responses
      → 8
          + length (call_message ep.rpc_client.xid 100003 3 (proc_num p) request_bytes)
          + length (accepted_reply ep.rpc_client.xid flavor verf 0 body)
        ≤ moves ep.rpc_client.transport.socket.responses
      → (later : List Response) × (request e ep p args
          ≡ done (check w) (
              after_call ep (
                socket_of
                  (ep.rpc_client.transport.socket.sent
                    ++ record_of
                        (call_message ep.rpc_client.xid 100003 3 (proc_num p) request_bytes))
                  later_bytes
                  later)))
  unfolding request
  request_done set connected packed packed' fits hx hf other hv short here live enough =
      let (later, called) =
        endpoint_call_done p server e ep args w request_bytes body later_bytes flavor verf set
          connected packed packed' fits hx hf other hv short here live enough in
      (later, ap on_result called)

module _ (p : Procedure) (w : Reply p) where
  told_value : (a : Resok p) → (w.status == 0) ≡ true → w.resok ≡ some a → check w ≡ value a
  unfolding check
  told_value a k o = rw (k, o) refl

  told_error : (w.status == 0) ≡ false → check w ≡ unexpected serverfault
  unfolding check
  told_error k = rw (k) refl

  -- What is told of a reply that was packed: its results, or SERVERFAULT.
  told_of_reply :
      ResFits (ResokFits p) fresh w
      → Cases
          (w.status == 0)
          ((a : Resok p) × (w.resok ≡ some a) × (check w ≡ value a))
          (check w ≡ unexpected serverfault)
  told_of_reply (word, carried) = elim (Bool-cases (w.status == 0)) [
    | inl k ↦
        let (a, o, fits) : (a : Resok p) × (w.resok ≡ some a) × ResokFits p a = rw (k) at carried in
        rw (k) (a, o, told_value a k o)
    | inr k ↦ rw (k) (told_error k)
  ]

module _ (m : MethodCall) (server e : Endianness) (ep : RpcEndpoint) (w : Reply (proc_of m))
    (request_bytes body later_bytes : List ℕ) (flavor : ℕ) (verf : List ℕ) where
  -- Each method of the client sends its own procedure number with its own arguments, in the order of
  -- RFC 1813 (`request_bytes`, by `on_wire`), in an RFC 5531 call message of program 100003, version
  -- 3, as one record. The record at the front of the stream holds the accepted reply of the same
  -- transaction id, whose results are the bytes `body` that a host of either byte order packed the
  -- procedure's reply into. Then the method gives the results in that reply where its status is 0,
  -- NFS3_OK, and the error SERVERFAULT for every other status, and leaves what is behind the record
  -- in the stream. The endpoint is connected, the reply is in its ranges and carries results just if
  -- its status is 0, and shows only members that it carries, the reply message is below 2^31 bytes
  -- under a verifier that is not AUTH_SYS, and every answer of the kernel moves bytes, is an
  -- interruption or a wait that ends, with as many that move bytes as both records have bytes.
  pub method_done :
      ep.has_impl ≡ true
      → ep.rpc_client.transport.is_connected ≡ true
      → on_wire m e empty_buffer ≡ ok tt (record { buffer = request_bytes; pos = 0 })
      → (reply_codec (proc_of m)).serialize w server empty_buffer
        ≡ ok tt (record { buffer = body; pos = 0 })
      → ResFits (ResokFits (proc_of m)) fresh w
      → IsU32 ep.rpc_client.xid
      → IsU32 flavor
      → flavor ≢ 1
      → length verf + 3 < 2 ^ 32
      → length (accepted_reply ep.rpc_client.xid flavor verf 0 body) < 2 ^ 31
      → ep.rpc_client.transport.socket.incoming
        ≡ record_of (accepted_reply ep.rpc_client.xid flavor verf 0 body) ++ later_bytes
      → Lively ep.rpc_client.transport.socket.responses
      → 8
          + length (call_message ep.rpc_client.xid 100003 3 (rfc_proc m) request_bytes)
          + length (accepted_reply ep.rpc_client.xid flavor verf 0 body)
        ≤ moves ep.rpc_client.transport.socket.responses
      → (later : List Response) × (told : Expected (Resok (proc_of m)) Nfs3Error) × (run e ep m
          ≡ done told (
              after_call ep (
                socket_of
                  (ep.rpc_client.transport.socket.sent
                    ++ record_of
                        (call_message ep.rpc_client.xid 100003 3 (rfc_proc m) request_bytes))
                  later_bytes
                  later)))
        × Cases
            (w.status == 0)
            ((a : Resok (proc_of m)) × (w.resok ≡ some a) × (told ≡ value a))
            (told ≡ unexpected serverfault)
  method_done set connected packed packed' fits hx hf other hv short here live enough =
      let packs = ap (λ k. k e empty_buffer) (serialize-on_wire m) ∙ packed in
      let count = λ (n : ℕ).
        8
        + length (call_message ep.rpc_client.xid 100003 3 n request_bytes)
        + length (accepted_reply ep.rpc_client.xid flavor verf 0 body) in
      let (later, called) =
        request_done (proc_of m) server e ep (args_of m) w request_bytes body later_bytes flavor
          verf set connected packs packed' fits hx hf other hv short here live
          (subst (λ n. count n ≤ moves ep.rpc_client.transport.socket.responses)
            (rfc_proc-proc_num m) enough) in
      let sent = λ (n : ℕ). after_call ep (
        socket_of
          (ep.rpc_client.transport.socket.sent
            ++ record_of (call_message ep.rpc_client.xid 100003 3 n request_bytes))
          later_bytes later) in
      (
        later,
        check w,
        run-request e ep m ∙ called ∙ ap (λ n. done (check w) (sent n)) (sym (rfc_proc-proc_num m)),
        told_of_reply (proc_of m) w fits,
      )
