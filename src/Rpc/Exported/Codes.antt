-- ===== src/Rpc/Exported/Codes.antt =====
-- What the C interface of simple_rpc/src/rpc_client.cpp tells of a result.
use nfstest.Prelude.{
  ℕ, ◌≡◌, refl, sym, ap, ◌∙◌, Bool, true, false, List, [], ◌∷◌, Option, none, some, length, Cases,
  zero, suc,
}
use nfstest.Xdr.Word.{Endianness}
use nfstest.Xdr.Int.{ℤ, pos, negsuc}
use nfstest.Rpc.Protocol.{
  RpcStatus, ok, conn_err, timeout, prog_unavail, prog_mismatch, proc_unavail, garbage_args,
  auth_error, proto_err, send_err, recv_err,
}
use nfstest.Rpc.Reply.{Parsed}
use nfstest.Rpc.Call.{call_message}
use nfstest.Rpc.Transport.{Io, returned, blocked, fault, ◌>>=◌}
use nfstest.Rpc.Client.{RpcClient, Called}
use nfstest.Rpc.Client.Answer.{is_ok, Success, Answered, call-Answered}
use nfstest.Rpc.Exported.{
  map_status, CArray, bytes_of, is_missing, CResult, respond, nfstest_rpc_call,
}

abbrev nth : RpcStatus → List RpcStatus → ℕ → RpcStatus
nth default [] n = default
nth default (s ∷ ss) zero = s
nth default (s ∷ ss) (suc n) = nth default ss n

-- The status that a code stands for.
abbrev status_of : ℤ → RpcStatus
status_of (pos n) = ok
status_of (negsuc n) =
    nth ok
      (conn_err ∷ timeout ∷ prog_unavail ∷ prog_mismatch ∷ proc_unavail ∷ garbage_args ∷ auth_error
        ∷ proto_err ∷ send_err ∷ recv_err ∷ [])
      n

status_of-map_status : (s : RpcStatus) → status_of (map_status s) ≡ s
unfolding map_status
status_of-map_status ok = refl
status_of-map_status conn_err = refl
status_of-map_status timeout = refl
status_of-map_status prog_unavail = refl
status_of-map_status prog_mismatch = refl
status_of-map_status proc_unavail = refl
status_of-map_status garbage_args = refl
status_of-map_status auth_error = refl
status_of-map_status proto_err = refl
status_of-map_status send_err = refl
status_of-map_status recv_err = refl

-- Different statuses have different codes.
pub map_status-injective : (s t : RpcStatus) → map_status s ≡ map_status t → s ≡ t
map_status-injective s t h = sym (status_of-map_status s) ∙ ap status_of h ∙ status_of-map_status t

-- The bytes behind `*resp_data`.
abbrev pub given : Option (List ℕ) → List ℕ
given none = []
given (some bytes) = bytes

abbrev pub is_zero : ℤ → Bool
is_zero (pos zero) = true
is_zero _ = false

-- The length is that of the bytes, and a code of 0 is a success with all of them.
abbrev pub Tells : CResult → Parsed → Type 0
Tells r (status, body) =
    (r.resp_len ≡ length (given r.resp_data))
    × Cases (is_zero r.code) ((status ≡ ok) × (given r.resp_data ≡ body)) (given r.resp_data ≡ [])

-- The results of the C interface: `*resp_len` is the number of bytes behind `*resp_data`, and the
-- code is 0 only for a success whose bytes are all given; with another code there are none. A
-- failing `malloc` is such a code.
pub respond-Tells :
    (allocates : Bool) (status : RpcStatus) (body : List ℕ)
    → Tells (respond allocates (status, body)) (status, body)
unfolding respond map_status
respond-Tells allocates ok [] = (refl, (refl, refl))
respond-Tells true ok (x ∷ body) = (refl, (refl, refl))
respond-Tells false ok (x ∷ body) = (refl, refl)
respond-Tells allocates conn_err body = (refl, refl)
respond-Tells allocates timeout body = (refl, refl)
respond-Tells allocates prog_unavail body = (refl, refl)
respond-Tells allocates prog_mismatch body = (refl, refl)
respond-Tells allocates proc_unavail body = (refl, refl)
respond-Tells allocates garbage_args body = (refl, refl)
respond-Tells allocates auth_error body = (refl, refl)
respond-Tells allocates proto_err body = (refl, refl)
respond-Tells allocates send_err body = (refl, refl)
respond-Tells allocates recv_err body = (refl, refl)

-- A code of 0 stands for a call that succeeded, with all its bytes; with another code there are no
-- bytes.
abbrev pub CallTold : Endianness → RpcClient → List ℕ → Io (CResult × ℕ) → Type 0
CallTold e c message (returned (r, next_xid) s) =
    (r.resp_len ≡ length (given r.resp_data))
    × Cases (is_zero r.code) (Success e c message (given r.resp_data) s) (given r.resp_data ≡ [])
CallTold e c message blocked = Unit
CallTold e c message fault = Unit

told_given :
    (P : List ℕ → Type 0) (z : Bool) (status : RpcStatus) (given_bytes body : List ℕ)
    → Cases z ((status ≡ ok) × (given_bytes ≡ body)) (given_bytes ≡ [])
    → Cases (is_ok status) (P body) (body ≡ [])
    → Cases z (P given_bytes) (given_bytes ≡ [])
told_given P true status given_bytes body (succeeded, all) h =
    let success : P body = rw succeeded at h in rw (all) success
told_given P false status given_bytes body k h = k

respond-CallTold :
    (e : Endianness) (c : RpcClient) (message : List ℕ) (allocates : Bool) (o : Io Called)
    → Answered e c message o
    → CallTold e c message
        (o >>= λ called s. returned (respond allocates called.result, called.next_xid) s)
respond-CallTold e c message allocates (returned called s) h =
    let (status, body) = called.result in
    let r = respond allocates (status, body) in
    let (size, told) = respond-Tells allocates status body in
    (
      size,
      told_given (λ bytes. Success e c message bytes s) (is_zero r.code) status (given r.resp_data)
          body told h,
    )
respond-CallTold e c message allocates blocked h = _
respond-CallTold e c message allocates fault h = _

-- Whatever the kernel and the server answer, with pointers that are not null: when
-- `nfstest_rpc_call` returns 0, the call succeeded, in the sense of its record on the wire and of
-- the accepted reply of the same transaction id, and the bytes given are all those that parse_reply
-- takes from that reply; when it returns another code, no bytes are given. `*resp_len` is their
-- number.
pub nfstest_rpc_call-CallTold :
    (e : Endianness) (allocates : Bool) (c : RpcClient) (prog vers proc : ℕ) (args : CArray)
    (old : CResult)
    → is_missing args ≡ false
    → CallTold e c
        (call_message c.xid prog vers proc (bytes_of args))
        (nfstest_rpc_call e allocates false false c prog vers proc args old)
unfolding nfstest_rpc_call
nfstest_rpc_call-CallTold e allocates c prog vers proc args old k =
    let message = call_message c.xid prog vers proc (bytes_of args) in
    rw (k)
      (respond-CallTold e c message allocates _ (call-Answered e c prog vers proc (bytes_of args)))
