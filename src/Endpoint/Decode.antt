-- ===== src/Endpoint/Decode.antt =====
-- The end of a call of class RPCEndpoint (nfs3_rpc_tests/include/nfs3/rpc_endpoint.hpp): what is
-- made of the bytes of a reply.
use nfstest.Prelude.{ℕ, ◌≡◌, refl, sym, ap, ◌∙◌, List, [], ◌∷◌, arith}
use nfstest.Xdr.Word.{Endianness}
use nfstest.Xdr.Buffer.{
  XdrBuffer, Outcome, ok, threw, fault, stuck, empty_buffer, ◌>>=◌, unpack_u32, ensure_read_space,
}
use nfstest.Xdr.Codec.{fresh}
use nfstest.Xdr.Safety.{Sound}
use nfstest.Rpc.Protocol.{
  RpcStatus, ok as status_ok, conn_err, timeout as status_timeout,
  prog_unavail as status_prog_unavail, prog_mismatch as status_prog_mismatch,
  proc_unavail as status_proc_unavail, garbage_args, auth_error as status_auth_error, proto_err,
  send_err, recv_err,
}
use nfstest.Nfs.Reply.{res_codec, res_fresh}
use nfstest.Nfs.Reply.RoundTrip.{ResFits}
use nfstest.Nfs.Procedure.{Procedure, Reply, reply_codec}
use nfstest.Nfs.Procedure.RoundTrip.{ResokFits, reply-RoundTrip}
use nfstest.Nfs.Procedure.Safety.{reply-Sound}
use nfstest.Endpoint.{RpcError, RpcEndpoint, Expected, value, done, on_unpacked, on_status}

on_unpacked-done :
    {R : Type 0} (ep : RpcEndpoint) (b : XdrBuffer) (o : Outcome R)
    → Sound b o
    → (r : Expected R RpcError) × (on_unpacked ep o ≡ done r ep)
on_unpacked-done ep b (ok response c) h = (_, refl)
on_unpacked-done ep b (threw x c) h = (_, refl)
on_unpacked-done ep b fault h = absurd h
on_unpacked-done ep b stuck h = absurd h

-- Whatever status and bytes a call gives, they are made into a reply of the procedure or into an
-- error: nothing is read outside the bytes, no exception leaves the endpoint, and the endpoint is
-- as it was.
pub on_status-done :
    (p : Procedure) (e : Endianness) (ep : RpcEndpoint) (status : RpcStatus) (body : List ℕ)
    → (r : Expected (Reply p) RpcError) × (on_status ⦃c = reply_codec p⦄ ⦃f = res_fresh⦄ e ep
          (status, body)
        ≡ done r ep)
unfolding on_status
on_status-done p e ep status_ok [] = (_, refl)
on_status-done p e ep status_ok (x ∷ body) =
    let b : XdrBuffer = record { buffer = x ∷ body; pos = 0 } in
    on_unpacked-done ep b _ (reply-Sound p (res_fresh.fresh) e b (omega arith))
on_status-done p e ep conn_err body = (_, refl)
on_status-done p e ep status_timeout body = (_, refl)
on_status-done p e ep status_prog_unavail body = (_, refl)
on_status-done p e ep status_prog_mismatch body = (_, refl)
on_status-done p e ep status_proc_unavail body = (_, refl)
on_status-done p e ep garbage_args body = (_, refl)
on_status-done p e ep status_auth_error body = (_, refl)
on_status-done p e ep proto_err body = (_, refl)
on_status-done p e ep send_err body = (_, refl)
on_status-done p e ep recv_err body = (_, refl)

no_status :
    (p : Procedure) (e : Endianness) (w : Reply p) (c : XdrBuffer)
    → (reply_codec p).deserialize fresh e empty_buffer ≡ ok w c
    → ⊥
unfolding res_codec ◌>>=◌ unpack_u32 ensure_read_space
no_status p e w c h = cc

buffer_of-ok : (b c : XdrBuffer) → ◌≡◌ {A = Outcome (Unit {0})} (ok tt b) (ok tt c) → b ≡ c
buffer_of-ok b c h = cc

-- The bytes that hold a reply are read as that reply.
read_back :
    (p : Procedure) (server e : Endianness) (w : Reply p) (body : List ℕ)
    → ResFits (ResokFits p) fresh w
    → (reply_codec p).serialize w server empty_buffer ≡ ok tt (record { buffer = body; pos = 0 })
    → (c : XdrBuffer) × ((reply_codec p).deserialize fresh e (record { buffer = body; pos = 0 })
        ≡ ok w c)
read_back p server e w body fits packed =
    let (b, packed', unpacked) = reply-RoundTrip p fresh w fits server e in
    let same = buffer_of-ok b (record { buffer = body; pos = 0 }) (sym packed' ∙ packed) in
    (_, rw same at unpacked)

pub on_status_reply :
    (p : Procedure) (server e : Endianness) (ep : RpcEndpoint) (w : Reply p) (body : List ℕ)
    → ResFits (ResokFits p) fresh w
    → (reply_codec p).serialize w server empty_buffer ≡ ok tt (record { buffer = body; pos = 0 })
    → on_status ⦃c = reply_codec p⦄ ⦃f = res_fresh⦄ e ep (status_ok, body) ≡ done (value w) ep
unfolding on_status
on_status_reply p server e ep w [] fits packed =
    let (c, unpacked) = read_back p server e w [] fits packed in absurd (no_status p e w c unpacked)
on_status_reply p server e ep w (x ∷ body) fits packed =
    let (c, unpacked) = read_back p server e w (x ∷ body) fits packed in
    ap (on_unpacked ep) unpacked
