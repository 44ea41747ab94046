-- ===== src/Rpc/Parse/Safety.antt =====
-- What `parse_reply` of simple_rpc/include/nfstest/rpc_protocol.hpp does with any bytes.
use nfstest.Prelude.{
  ℕ, zero, suc, ◌+◌, ◌≤◌, ◌<◌, ◌≡◌, ◌≢◌, List, Option, none, some, length, length-drop, drop, arith,
}
use nfstest.Xdr.Word.{Endianness, word_of32, network_to_host32}
use nfstest.Rpc.Protocol.{RpcStatus, ok, prog_mismatch, auth_error, proto_err, read_uint32_be}
use nfstest.Rpc.Reply.{
  Parsed, parse_reply, parse_accepted, parse_rejected, skip_verifier, on_accept_stat, take_body,
  round_up,
}
use nfstest.Rpc.Parse.{Header}

-- The status for each `reject_stat`.
abbrev pub reject_error : ℕ → RpcStatus
reject_error zero = prog_mismatch
reject_error (suc zero) = auth_error
reject_error _ = proto_err

skip_verifier-length :
    (e : Endianness) (bytes out_body : List ℕ) (flavor offset : ℕ) (body : List ℕ)
    → offset ≤ length bytes
    → skip_verifier e bytes out_body flavor offset ≡ some (ok, body)
    → length body + offset ≤ length bytes
unfolding skip_verifier take_body
skip_verifier-length e bytes out_body flavor offset body l h = grind (arith, length-drop)

on_accept_stat_ok :
    (e : Endianness) (bytes out_body : List ℕ) (n : ℕ) (success : Option Parsed) (body : List ℕ)
    → on_accept_stat e bytes out_body n success ≡ some (ok, body)
    → success ≡ some (ok, body)
unfolding on_accept_stat
on_accept_stat_ok e bytes out_body n success body h = ground arith

parse_accepted-length :
    (e : Endianness) (bytes out_body body : List ℕ)
    → parse_accepted e bytes out_body ≡ some (ok, body)
    → length body + 24 ≤ length bytes
unfolding parse_accepted read_uint32_be
parse_accepted-length e bytes out_body body h =
    grind (arith, skip_verifier-length, on_accept_stat_ok)

-- A reply is taken as a success only if it carries the transaction id of the call, is a reply and
-- not a call, and was accepted; the results are then shorter than the reply by the 6 words of the
-- header at least.
pub parse_reply_ok :
    (e : Endianness) (bytes out_body : List ℕ) (xid : ℕ) (body : List ℕ)
    → parse_reply e bytes out_body xid ≡ some (ok, body)
    → (read_uint32_be e bytes 0 ≡ some xid)
      × (read_uint32_be e bytes 4 ≡ some 1)
      × (read_uint32_be e bytes 8 ≡ some 0)
      × (length body + 24 ≤ length bytes)
unfolding parse_reply parse_rejected
parse_reply_ok e bytes out_body xid body h = (
  ground arith,
  ground arith,
  ground arith,
  parse_accepted-length e bytes out_body body (ground arith),
)

-- A reply that is not taken as a success leaves `out_body` alone.
pub parse_reply_keeps :
    (e : Endianness) (bytes out_body : List ℕ) (xid : ℕ) (status : RpcStatus) (body : List ℕ)
    → parse_reply e bytes out_body xid ≡ some (status, body)
    → status ≢ ok
    → body ≡ out_body
unfolding parse_reply parse_accepted parse_rejected skip_verifier take_body on_accept_stat
parse_reply_keeps e bytes out_body xid status body h other = ground arith

-- An accepted reply that ends behind its verifier, where the status word should stand, is read
-- past its end.
pub parse_reply_overread :
    (e : Endianness) (bytes out_body : List ℕ) (xid flavor auth_len : ℕ)
    → Header e bytes xid flavor auth_len
    → 20 + round_up auth_len ≤ length bytes
    → length bytes < 24 + round_up auth_len
    → parse_reply e bytes out_body xid ≡ none
unfolding parse_reply read_uint32_be parse_accepted skip_verifier
parse_reply_overread e bytes out_body xid flavor auth_len (h0, h4, h8, h12, h16) l r = ground arith

-- A reply that is read past its end is an accepted reply to the call which ends behind its verifier,
-- where the status word should stand; every other reply gets a status.
pub parse_reply_reads :
    (e : Endianness) (bytes out_body : List ℕ) (xid : ℕ)
    → parse_reply e bytes out_body xid ≡ none
    → (flavor : ℕ) × (auth_len : ℕ) × Header e bytes xid flavor auth_len
      × (20 + round_up auth_len ≤ length bytes)
      × (length bytes < 24 + round_up auth_len)
unfolding parse_reply parse_accepted parse_rejected read_uint32_be skip_verifier take_body
    on_accept_stat
parse_reply_reads e bytes out_body xid h =
    let word : ℕ → ℕ = λ offset. network_to_host32 e (word_of32 e (drop offset bytes)) in
    (
      word 12,
      word 16,
      (ground arith, ground arith, ground arith, ground arith, ground arith),
      ground arith,
      ground arith,
    )

-- A denied reply to the call, of 20 bytes at least, is told by its `reject_stat`, and `out_body` is
-- left alone.
pub parse_reply_rejected :
    (e : Endianness) (bytes out_body : List ℕ) (xid reject_stat : ℕ)
    → 20 ≤ length bytes
    → read_uint32_be e bytes 0 ≡ some xid
    → read_uint32_be e bytes 4 ≡ some 1
    → read_uint32_be e bytes 8 ≡ some 1
    → read_uint32_be e bytes 12 ≡ some reject_stat
    → parse_reply e bytes out_body xid ≡ some (reject_error reject_stat, out_body)
unfolding parse_reply parse_rejected
parse_reply_rejected e bytes out_body xid reject_stat l h0 h4 h8 h12 = ground arith
