-- ===== src/Rpc/Transport/Record.antt =====
-- `send` and `recv` of simple_rpc/src/rpc_transport.cpp, with a kernel that works.
use nfstest.Prelude.{
  ℕ, ◌+◌, ◌%◌, ◌^◌, ◌≡◌, ◌≤◌, ◌<◌, true, List, [], ◌++◌, append_assoc, length, length-append, arith,
  drop-append, take-append,
}
use nfstest.Xdr.Word.{
  Endianness, network_bytes32, network_order32, host_order32, network_to_host32, word_of32,
}
use nfstest.Rpc.Transport.{Response, Socket, returned, read_all, send, recv, frag_word, Transport}
use nfstest.Rpc.Transport.Sending.{record_of}
use nfstest.Rpc.Transport.Progress.{Lively, moves, Serves, write_all_done, read_all_done}

-- The socket of a transport, with what is left after a transfer.
abbrev pub socket_of : List ℕ → List ℕ → List Response → Socket
socket_of sent incoming rs = record { sent = sent; incoming = incoming; responses = rs }

-- A message is sent as one record behind what was sent before, if the socket is there and every
-- answer of the kernel moves bytes, is an interruption or a wait that ends, with as many that move
-- bytes as the record has bytes. What is left of the answers is of this kind, and has at most so
-- many moves less.
pub send_done :
    (e : Endianness) (t : Transport) (message : List ℕ)
    → t.is_connected ≡ true
    → Lively t.socket.responses
    → 4 + length message ≤ moves t.socket.responses
    → (later : List Response) × (send e t message
        ≡ returned true (socket_of (t.socket.sent ++ record_of message) t.socket.incoming later))
      × Serves t.socket.responses (4 + length message) later
unfolding send
send_done e t message k live enough =
    let s = t.socket in
    let header = network_bytes32 (frag_word (length message)) in
    let (mid, first, (live', served)) =
      write_all_done header s.sent s.incoming s.responses live (omega arith) in
    let (later, second, (live'', served')) =
      write_all_done message (s.sent ++ header) s.incoming mid live' (omega arith) in
    (
      later,
      rw
          (
            k,
            network_order32 e (frag_word (length message)),
            first,
            ← append_assoc s.sent header message,
          )
          second,
      (live'', omega arith),
    )

message_done :
    (e : Endianness) (message sent later_bytes : List ℕ) (rs : List Response)
    → length message < 2 ^ 31
    → Lively rs
    → length message ≤ moves rs
    → (later : List Response) × (read_all
          (network_to_host32 e (word_of32 e (network_bytes32 (frag_word (length message))))
            % 2 ^ 31)
          []
          sent
          (message ++ later_bytes)
          rs
        ≡ returned (true, message) (socket_of sent later_bytes later))
      × Serves rs (length message) later
message_done e message sent later_bytes rs short live enough =
    let (later, done, served) =
      read_all_done (length message) [] sent (message ++ later_bytes) rs live enough
        (omega (arith, length-append message later_bytes)) in
    let size : frag_word (length message) % 2 ^ 31 ≡ length message = omega arith in
    (
      later,
      rw (host_order32 e (frag_word (length message)) (omega arith), size)
          (rw (take-append message later_bytes, drop-append message later_bytes) at done),
      served,
    )

-- The record of a message below 2^31 bytes at the front of the stream is received whole, and what
-- is behind it is left in the stream, if the socket is there and every answer of the kernel moves
-- bytes, is an interruption or a wait that ends, with as many that move bytes as the record has
-- bytes. What is left of the answers is of this kind, and has at most so many moves less.
pub recv_done :
    (e : Endianness) (t : Transport) (message later_bytes : List ℕ)
    → t.is_connected ≡ true
    → t.socket.incoming ≡ record_of message ++ later_bytes
    → length message < 2 ^ 31
    → Lively t.socket.responses
    → 4 + length message ≤ moves t.socket.responses
    → (later : List Response) × (recv e t
        ≡ returned (true, message) (socket_of t.socket.sent later_bytes later))
      × Serves t.socket.responses (4 + length message) later
unfolding recv
recv_done e t message later_bytes k here short live enough =
    let s = t.socket in
    let header = network_bytes32 (frag_word (length message)) in
    let (mid, first, (live', served)) =
      read_all_done 4 [] s.sent (record_of message ++ later_bytes) s.responses live (omega arith)
        (omega arith) in
    let (later, second, (live'', served')) =
      message_done e message s.sent later_bytes mid short live' (omega arith) in
    (later, rw (k, here, first) second, (live'', omega arith))
