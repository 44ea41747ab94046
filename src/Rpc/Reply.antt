-- ===== src/Rpc/Reply.antt =====
-- `parse_reply` of simple_rpc/include/nfstest/rpc_protocol.hpp.
use nfstest.Prelude.{
  ℕ, ◌+◌, ◌*◌, ◌/◌, ◌%◌, ◌^◌, List, Option, none, some, ltb, ◌==◌, not, if◌then◌else◌, length, drop,
}
use nfstest.Xdr.Word.{Endianness}
use nfstest.Rpc.Protocol.{
  RpcStatus, ok, prog_unavail, prog_mismatch, proc_unavail, garbage_args, auth_error, proto_err,
  msg_reply, auth_sys, read_uint32_be,
}

-- `none` is a read outside of the reply.
infixl 5 ◌>>=◌
abbrev pub ◌>>=◌ : {A B : Type 0} → Option A → (A → Option B) → Option B
none >>= f = none
some a >>= f = f a

-- The status, and what `out_body` then holds.
abbrev pub Parsed : Type 0
Parsed = RpcStatus × List ℕ

-- `((len + 3) / 4) * 4` in uint32_t.
unfoldable pub round_up : ℕ → ℕ
round_up len = (len + 3) % 2 ^ 32 / 4 * 4

module _ (e : Endianness) (bytes : List ℕ) (out_body : List ℕ) where
  -- `out_body.assign(data + offset, data + data_len)`, undefined if the range is reversed.
  unfoldable pub take_body : ℕ → Option Parsed
  take_body offset = if ltb (length bytes) offset then none else some (ok, drop offset bytes)

  -- From `if (auth_flavor == AUTH_SYS)` on.
  unfoldable pub skip_verifier : ℕ → ℕ → Option Parsed
  unfolding take_body
  skip_verifier auth_flavor offset =
      if auth_flavor == auth_sys
      then (if ltb (length bytes) (offset + 4) then some (proto_err, out_body) else (do
        verf_len ← read_uint32_be e bytes offset
        let end = offset + 4 + round_up verf_len
        if ltb (length bytes) end then some (proto_err, out_body) else take_body end))
      else take_body offset

  -- `switch (accept_stat)`
  unfoldable pub on_accept_stat : ℕ → Option Parsed → Option Parsed
  on_accept_stat accept_stat success =
      if accept_stat == 0
      then success
      else if accept_stat == 1
      then some (prog_unavail, out_body)
      else if accept_stat == 2
      then some (prog_mismatch, out_body)
      else if accept_stat == 3
      then some (proc_unavail, out_body)
      else if accept_stat == 4
      then some (garbage_args, out_body)
      else some (proto_err, out_body)

  unfoldable pub parse_accepted : Option Parsed
  unfolding skip_verifier on_accept_stat
  parse_accepted = do
    auth_flavor ← read_uint32_be e bytes 12
    auth_len ← read_uint32_be e bytes 16
    let offset = 20 + round_up auth_len
    if ltb (length bytes) offset then some (proto_err, out_body) else (do
      accept_stat ← read_uint32_be e bytes offset
      on_accept_stat accept_stat (skip_verifier auth_flavor (offset + 4)))

  unfoldable pub parse_rejected : Option Parsed
  parse_rejected = do
    reject_stat ← read_uint32_be e bytes 12
    if reject_stat == 0
        then some (prog_mismatch, out_body)
        else if reject_stat == 1
        then some (auth_error, out_body)
        else some (proto_err, out_body)

  unfoldable pub parse_reply : ℕ → Option Parsed
  unfolding parse_accepted parse_rejected
  parse_reply expected_xid = if ltb (length bytes) 20 then some (proto_err, out_body) else (do
    xid ← read_uint32_be e bytes 0
    if not (xid == expected_xid) then some (proto_err, out_body) else (do
      msg_type ← read_uint32_be e bytes 4
      if not (msg_type == msg_reply) then some (proto_err, out_body) else (do
        reply_stat ← read_uint32_be e bytes 8
        if reply_stat == 0
            then parse_accepted
            else if reply_stat == 1
            then parse_rejected
            else some (proto_err, out_body))))
