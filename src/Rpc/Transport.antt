-- ===== src/Rpc/Transport.antt =====
-- class TcpTransport: simple_rpc/src/rpc_transport.cpp, its transfers over a connected socket.
-- The kernel is not part of the program: a list of responses says how it answers the calls of
-- `read`, `write` and `poll`, in their order, and two byte streams hold what the peer has sent and
-- what it was sent. A timeout is an answer of `poll`. The making of a connection is not modelled.
pub mod Progress
pub mod Record
pub mod Sending
pub mod Receiving
use nfstest.Prelude.{
  ℕ, zero, suc, ◌+◌, ◌-◌, ◌%◌, ◌^◌, min, Bool, true, false, List, [], ◌∷◌, ◌++◌, not, ltb,
  if◌then◌else◌, length, take, drop,
}
use nfstest.Xdr.Word.{Endianness, bytes_of32, word_of32, host_to_network32, network_to_host32}

-- How the kernel answers `::read` or `::write`: it moved up to so many bytes, it was interrupted
-- (EINTR), it would block (EAGAIN) and `poll` then said whether the socket is ready, or it failed.
pub data Response : Type 0 where
  moved : ℕ → Response
  interrupted : Response
  would_block : Bool → Response
  failed : Response

pub record Socket : Type 0 where
  pub sent : List ℕ
  pub incoming : List ℕ
  pub responses : List Response

-- A method returns; or it waits for an answer of the kernel that never comes; or it reads outside
-- of a buffer, which C++ leaves undefined.
pub data Io (A : Type 0) : Type 0 where
  returned : A → Socket → Io A
  blocked : Io A
  fault : Io A

-- `write_all`; `rest` is `data + written` up to `data + len`.
unfoldable pub write_all : List ℕ → List ℕ → List ℕ → List Response → Io Bool
write_all [] sent incoming rs =
    returned true (record { sent = sent; incoming = incoming; responses = rs })
write_all (x ∷ rest) sent incoming [] = blocked
write_all (x ∷ rest) sent incoming (moved n ∷ rs) =
    write_all (drop n (x ∷ rest)) (sent ++ take n (x ∷ rest)) incoming rs
write_all (x ∷ rest) sent incoming (interrupted ∷ rs) = write_all (x ∷ rest) sent incoming rs
write_all (x ∷ rest) sent incoming (would_block true ∷ rs) = write_all (x ∷ rest) sent incoming rs
write_all (x ∷ rest) sent incoming (would_block false ∷ rs) =
    returned false (record { sent = sent; incoming = incoming; responses = rs })
write_all (x ∷ rest) sent incoming (failed ∷ rs) =
    returned false (record { sent = sent; incoming = incoming; responses = rs })

-- `read_all`; `want` is `len - readn`, and `got` holds the bytes read so far. The kernel gives no
-- more bytes than it is asked for, and none only at the end of the stream.
unfoldable pub read_all : ℕ → List ℕ → List ℕ → List ℕ → List Response → Io (Bool × List ℕ)
read_all zero got sent incoming rs =
    returned (true, got) (record { sent = sent; incoming = incoming; responses = rs })
read_all (suc want) got sent incoming [] = blocked
read_all (suc want) got sent incoming (moved n ∷ rs) =
    let chunk = take (min n (suc want)) incoming in
    let later = drop (min n (suc want)) incoming in
    let more = read_all (suc want - length chunk) (got ++ chunk) sent later rs in
    if ltb 0 (length chunk)
    then more
    else returned (false, got) (record { sent = sent; incoming = later; responses = rs })
read_all (suc want) got sent incoming (interrupted ∷ rs) = read_all (suc want) got sent incoming rs
read_all (suc want) got sent incoming (would_block true ∷ rs) =
    read_all (suc want) got sent incoming rs
read_all (suc want) got sent incoming (would_block false ∷ rs) =
    returned (false, got) (record { sent = sent; incoming = incoming; responses = rs })
read_all (suc want) got sent incoming (failed ∷ rs) =
    returned (false, got) (record { sent = sent; incoming = incoming; responses = rs })

module _ {A B : Type 0} where
  infixl 5 ◌>>=◌
  abbrev pub ◌>>=◌ : Io A → (A → Socket → Io B) → Io B
  returned a s >>= f = f a s
  blocked >>= f = blocked
  fault >>= f = fault

-- The socket is there, `fd_ >= 0`, or not.
pub record Transport : Type 0 where
  pub is_connected : Bool
  pub socket : Socket

unfoldable pub disconnect : Transport → Transport
disconnect t = record t { is_connected = false }

-- `size | LAST_FRAG_FLAG` on uint32_t: the low 31 bits of the size and the highest bit.
abbrev pub frag_word : ℕ → ℕ
frag_word size = 2 ^ 31 + size % 2 ^ 31

unfoldable pub send : Endianness → Transport → List ℕ → Io Bool
unfolding write_all
send e t message =
    if not t.is_connected
    then returned false t.socket
    else write_all (bytes_of32 e (host_to_network32 e (frag_word (length message)))) t.socket.sent
        t.socket.incoming t.socket.responses
      >>= λ header_sent s.
          if not header_sent
          then returned false s
          else write_all message s.sent s.incoming s.responses

-- The message is what `message` holds at the end; it is only looked at after a success.
unfoldable pub recv : Endianness → Transport → Io (Bool × List ℕ)
unfolding read_all
recv e t =
    if not t.is_connected
    then returned (false, []) t.socket
    else read_all 4 [] t.socket.sent t.socket.incoming t.socket.responses >>= λ (done, header) s.
        if not done
        then returned (false, []) s
        else read_all (network_to_host32 e (word_of32 e header) % 2 ^ 31) [] s.sent s.incoming
            s.responses
