-- ===== src/Rpc/Runs/Session.antt =====
-- The transport and the client of simple_rpc/src at concrete values.
use nfstest.Prelude.{
  false, ℕ, zero, suc, ◌≡◌, refl, true, List, [], ◌∷◌, ◌++◌, none, arith, replicate,
}
use nfstest.Xdr.Word.{little}
use nfstest.Xdr.Buffer.{padding_of}
use nfstest.Rpc.Protocol.{ok}
use nfstest.Rpc.Call.{call_message}
use nfstest.Rpc.Transport.{
  Response, moved, interrupted, would_block, Transport, returned, send, recv,
}
use nfstest.Rpc.Transport.Progress.{Serves, Lively}
use nfstest.Rpc.Transport.Sending.{record_of, Sent, send-Sent}
use nfstest.Rpc.Transport.Receiving.{Received, recv-Received}
use nfstest.Rpc.Transport.Record.{socket_of, send_done, recv_done}
use nfstest.Rpc.Client.{RpcClient, call, raw_call}
use nfstest.Rpc.Client.Call.{call_done, raw_call_done}
use nfstest.Rpc.Client.Answer.{Answered, call-Answered}
use nfstest.Xdr.Int.{pos}
use nfstest.Rpc.Exported.{null, CResult, nfstest_rpc_call}
use nfstest.Rpc.Exported.Codes.{CallTold, nfstest_rpc_call-CallTold}
use nfstest.Rpc.Runs.{success}

-- The kernel is interrupted once, would block once, and moves a byte at a time.
abbrev answers : List Response
answers = interrupted ∷ would_block true ∷ replicate 200 (moved 1)

replicate-Lively : (n : ℕ) → Lively (replicate n (moved 1))
replicate-Lively zero = tt
replicate-Lively (suc n) = (tt, replicate-Lively n)

answers-Lively : Lively answers
answers-Lively = (tt, (tt, replicate-Lively 200))

abbrev connection : Transport
connection = record {
  is_connected = true;
  socket = socket_of (7 ∷ []) (record_of success ++ (1 ∷ 2 ∷ [])) answers;
}

abbrev hello : List ℕ
hello = b'h' ∷ b'i' ∷ []

send_done_example :
    (later : List Response) × (send little connection hello
      ≡ returned true (socket_of ((7 ∷ []) ++ record_of hello) connection.socket.incoming later))
    × Serves answers 6 later
send_done_example = send_done little connection hello refl answers-Lively (omega arith)

recv_done_example :
    (later : List Response) × (recv little connection
      ≡ returned (true, success) (socket_of (7 ∷ []) (1 ∷ 2 ∷ []) later))
    × Serves answers 30 later
unfolding padding_of
recv_done_example =
    recv_done little connection success (1 ∷ 2 ∷ []) refl refl (omega arith) answers-Lively
      (omega arith)

send-Sent_example :
    Sent (record_of hello) (7 ∷ []) connection.socket.incoming (send little connection hello)
send-Sent_example = send-Sent little connection hello

recv-Received_example : Received little (7 ∷ []) connection.socket.incoming (recv little connection)
recv-Received_example = recv-Received little connection

abbrev client : RpcClient
client = record { transport = connection; xid = 6 }

call_done_example :
    (later : List Response) × (call little client 100003 3 0 []
      ≡ returned
          (record { result = (ok, 8 ∷ 9 ∷ []); next_xid = 7 })
          (socket_of ((7 ∷ []) ++ record_of (call_message 6 100003 3 0 [])) (1 ∷ 2 ∷ []) later))
unfolding padding_of
call_done_example =
    call_done little client 100003 3 0 [] 0 [] 0 (8 ∷ 9 ∷ []) (1 ∷ 2 ∷ []) refl (omega arith)
      (omega arith) (omega arith) (omega arith) (omega arith) (omega arith) refl answers-Lively
      (omega arith)

raw_call_done_example :
    (later : List Response) × (raw_call little client hello
      ≡ returned (ok, success) (socket_of ((7 ∷ []) ++ record_of hello) (1 ∷ 2 ∷ []) later))
unfolding padding_of
raw_call_done_example =
    raw_call_done little client hello success (1 ∷ 2 ∷ []) refl refl (omega arith) answers-Lively
      (omega arith)

call-Answered_example :
    Answered little client (call_message 6 100003 3 0 []) (call little client 100003 3 0 [])
call-Answered_example = call-Answered little client 100003 3 0 []

abbrev untouched : CResult
untouched = record { code = pos 0; resp_data = none; resp_len = 0 }

nfstest_rpc_call-CallTold_example :
    CallTold little client
      (call_message 6 100003 3 0 [])
      (nfstest_rpc_call little true false false client 100003 3 0 (null 0) untouched)
nfstest_rpc_call-CallTold_example =
    nfstest_rpc_call-CallTold little true client 100003 3 0 (null 0) untouched refl
