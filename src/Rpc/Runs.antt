-- ===== src/Rpc/Runs.antt =====
-- The RPC messages of simple_rpc/include/nfstest/rpc_protocol.hpp at concrete values.
pub mod Session
use nfstest.Prelude.{
  false, ℕ, zero, suc, ◌+◌, ◌≡◌, ◌≤◌, ◌<◌, refl, true, List, [], ◌∷◌, ◌++◌, some, none, arith,
  length, replicate,
}
use nfstest.Xdr.Word.{big, little, network_to_host32, word_of32}
use nfstest.Xdr.Buffer.{padding_of}
use nfstest.Rpc.Protocol.{
  ok, conn_err, proc_unavail, auth_error, write_auth_sys_cred, build_call, read_uint32_be,
}
use nfstest.Rpc.Reply.{parse_reply, parse_accepted, round_up}
use nfstest.Rpc.Call.{auth_sys_cred, call_message, build_call_lem, write_auth_sys_cred_lem, words}
use nfstest.Rpc.Parse.{Header, accepted_reply, parse_reply_accepted}
use nfstest.Rpc.Parse.Safety.{
  parse_reply_ok, parse_reply_keeps, parse_reply_overread, parse_reply_reads, parse_reply_rejected,
}
use nfstest.Rpc.Transport.{
  Response, moved, interrupted, would_block, Transport, returned, send, recv,
}
use nfstest.Rpc.Transport.Progress.{Serves, Lively}
use nfstest.Rpc.Transport.Sending.{record_of, Sent, send-Sent}
use nfstest.Rpc.Transport.Receiving.{Received, recv-Received}
use nfstest.Rpc.Transport.Record.{socket_of, send_done, recv_done}
use nfstest.Rpc.Client.{RpcClient, call, raw_call, disconnect_client}
use nfstest.Rpc.Client.Call.{call_done, raw_call_done, call_disconnected}
use nfstest.Rpc.Client.Answer.{Answered, call-Answered}
use nfstest.Xdr.Int.{pos}
use nfstest.Rpc.Exported.{null, CResult, respond, nfstest_rpc_call}
use nfstest.Rpc.Exported.Codes.{
  map_status-injective, Tells, respond-Tells, CallTold, nfstest_rpc_call-CallTold,
}

build_call_lem_example :
    build_call little 1 100003 3 1 (9 ∷ []) ≡ call_message 1 100003 3 1 (9 ∷ [])
build_call_lem_example = build_call_lem little 1 100003 3 1 (9 ∷ [])

-- A success under a verifier of 5 bytes.
parse_reply_accepted_example :
    parse_reply little (accepted_reply 6 2 (replicate 5 1) 0 (8 ∷ 9 ∷ [])) [] 6
    ≡ some (ok, 8 ∷ 9 ∷ [])
parse_reply_accepted_example =
    parse_reply_accepted little [] 6 2 (replicate 5 1) 0 (8 ∷ 9 ∷ []) (omega arith) (omega arith)
      (omega arith) (omega arith) (omega arith)

abbrev pub success : List ℕ
success = accepted_reply 6 0 [] 0 (8 ∷ 9 ∷ [])

-- The server does not have the procedure.
-- An accepted reply that ends behind its empty verifier.
abbrev cut_reply : List ℕ
cut_reply = words (6 ∷ 1 ∷ 0 ∷ 0 ∷ 0 ∷ [])

cut-Header : Header big cut_reply 6 0 0
unfolding read_uint32_be network_to_host32 word_of32
cut-Header = (refl, refl, refl, refl, refl)

verifier_is_there : 20 + round_up 0 ≤ 20
unfolding round_up
verifier_is_there = omega arith

status_is_not : 20 < 24 + round_up 0
unfolding round_up
status_is_not = omega arith

parse_reply_overread_example : parse_reply big cut_reply [] 6 ≡ none
parse_reply_overread_example =
    parse_reply_overread big cut_reply [] 6 0 0 cut-Header verifier_is_there status_is_not

cut_is_read : parse_reply big cut_reply [] 6 ≡ none
unfolding parse_reply read_uint32_be network_to_host32 word_of32 parse_accepted round_up
cut_is_read = refl

parse_reply_reads_example :
    (flavor : ℕ) × (auth_len : ℕ) × Header big cut_reply 6 flavor auth_len
    × (20 + round_up auth_len ≤ 20)
    × (20 < 24 + round_up auth_len)
parse_reply_reads_example = parse_reply_reads big cut_reply [] 6 cut_is_read
