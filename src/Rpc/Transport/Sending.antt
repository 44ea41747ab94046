-- ===== src/Rpc/Transport/Sending.antt =====
-- `write_all` and `send` of simple_rpc/src/rpc_transport.cpp, whatever the kernel answers.
use nfstest.Prelude.{
  ℕ, ◌≡◌, refl, sym, ap, ◌∙◌, Bool, true, false, not, List, [], ◌∷◌, ◌++◌, append_assoc, append-nil,
  length, take, drop, take-drop, if◌then◌else◌, inl, inr, Bool-cases,
}
use nfstest.Xdr.Word.{Endianness, network_bytes32, network_order32}
use nfstest.Rpc.Transport.{
  Response, moved, interrupted, would_block, failed, Io, returned, blocked, fault, ◌>>=◌, write_all,
  send, frag_word, Transport,
}

-- A record as RFC 5531 marks it: a word with the highest bit set and the length, modulo 2^31, and
-- the message.
abbrev pub record_of : List ℕ → List ℕ
record_of message = network_bytes32 (frag_word (length message)) ++ message

-- A success has sent all the bytes behind what was sent before, a failure the first of them;
-- nothing was read.
abbrev pub Sent : List ℕ → List ℕ → List ℕ → Io Bool → Type 0
Sent bytes sent incoming (returned true s) = (s.sent ≡ sent ++ bytes) × (s.incoming ≡ incoming)
Sent bytes sent incoming (returned false s) =
    (front : List ℕ) × (back : List ℕ) × (bytes ≡ front ++ back)
    × (s.sent ≡ sent ++ front)
    × (s.incoming ≡ incoming)
Sent bytes sent incoming blocked = Unit
Sent bytes sent incoming fault = ⊥

Sent-none :
    (bytes sent incoming : List ℕ) (rs : List Response)
    → Sent bytes sent incoming
        (returned false (record { sent = sent; incoming = incoming; responses = rs }))
Sent-none bytes sent incoming rs = ([], bytes, refl, sym (append-nil sent), refl)

-- The bytes in front are sent, and the rest is on its way.
Sent-behind :
    (front back sent incoming : List ℕ) (o : Io Bool)
    → Sent back (sent ++ front) incoming o
    → Sent (front ++ back) sent incoming o
Sent-behind front back sent incoming (returned true s) (h, k) =
    (h ∙ append_assoc sent front back, k)
Sent-behind front back sent incoming (returned false s) (a, b, h, k, l) = (
  front ++ a,
  b,
  ap (λ t. front ++ t) h ∙ sym (append_assoc front a b),
  k ∙ append_assoc sent front a,
  l,
)
Sent-behind front back sent incoming blocked h = h
Sent-behind front back sent incoming fault h = h

write_all-Sent :
    (bytes sent incoming : List ℕ) (rs : List Response)
    → Sent bytes sent incoming (write_all bytes sent incoming rs)
unfolding write_all
write_all-Sent [] sent incoming rs = (sym (append-nil sent), refl)
write_all-Sent (x ∷ rest) sent incoming [] = _
write_all-Sent (x ∷ rest) sent incoming (moved n ∷ rs) =
    let bytes = x ∷ rest in
    let next = write_all-Sent (drop n bytes) (sent ++ take n bytes) incoming rs in
    rw take-drop at (Sent-behind (take n bytes) (drop n bytes) sent incoming _ next)
write_all-Sent (x ∷ rest) sent incoming (interrupted ∷ rs) =
    write_all-Sent (x ∷ rest) sent incoming rs
write_all-Sent (x ∷ rest) sent incoming (would_block true ∷ rs) =
    write_all-Sent (x ∷ rest) sent incoming rs
write_all-Sent (x ∷ rest) sent incoming (would_block false ∷ rs) =
    Sent-none (x ∷ rest) sent incoming rs
write_all-Sent (x ∷ rest) sent incoming (failed ∷ rs) = Sent-none (x ∷ rest) sent incoming rs

-- The message behind its header.
Sent-then :
    (header message sent incoming : List ℕ) (o : Io Bool)
    → Sent header sent incoming o
    → Sent (header ++ message) sent incoming (
        o >>= λ done s.
        if not done then returned false s else write_all message s.sent s.incoming s.responses)
Sent-then header message sent incoming (returned true s) (h, k) =
    Sent-behind header message sent incoming _
      (rw (← h, ← k) (write_all-Sent message s.sent s.incoming s.responses))
Sent-then header message sent incoming (returned false s) (a, b, h, k, l) =
    (a, b ++ message, ap (λ t. t ++ message) h ∙ append_assoc a b message, k, l)
Sent-then header message sent incoming blocked h = h
Sent-then header message sent incoming fault h = h

-- Whatever the kernel answers, a message that `send` reports as sent stands on the wire whole and
-- once, as a record, behind what was sent before; of one that it reports as failed a first part of
-- the record stands there, which may be empty. Nothing is read.
pub send-Sent :
    (e : Endianness) (t : Transport) (message : List ℕ)
    → Sent (record_of message) t.socket.sent t.socket.incoming (send e t message)
unfolding send
send-Sent e t message =
    let s = t.socket in
    let header = network_bytes32 (frag_word (length message)) in
    elim (Bool-cases t.is_connected) [
      | inl k ↦
          rw (k, network_order32 e (frag_word (length message)))
            (Sent-then header message s.sent s.incoming _
              (write_all-Sent header s.sent s.incoming s.responses))
      | inr k ↦ rw (k) (Sent-none (record_of message) s.sent s.incoming s.responses)
    ]
