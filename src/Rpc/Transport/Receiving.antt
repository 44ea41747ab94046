-- ===== src/Rpc/Transport/Receiving.antt =====
-- `read_all` and `recv` of simple_rpc/src/rpc_transport.cpp, whatever the kernel answers.
use nfstest.Prelude.{
  ℕ, zero, suc, ◌-◌, ◌%◌, ◌^◌, ◌≡◌, ◌≤◌, refl, sym, ap, ◌∙◌, min, Bool, true, false, not, List, [],
  ◌∷◌, ◌++◌, append_assoc, append-nil, length, length-append, length-take, take, drop, take-drop,
  ltb, if◌then◌else◌, arith, inl, inr, Bool-cases,
}
use nfstest.Xdr.Word.{Endianness, network_to_host32, word_of32}
use nfstest.Rpc.Transport.{
  Response, moved, interrupted, would_block, failed, Io, returned, blocked, fault, ◌>>=◌, read_all,
  recv, Transport,
}

-- Bytes were taken off the front of the stream: after a success as many as were wanted, which are
-- put behind those that were there; nothing was sent.
abbrev Took : ℕ → List ℕ → List ℕ → List ℕ → Io (Bool × List ℕ) → Type 0
Took want got sent incoming (returned (true, bytes) s) =
    (taken : List ℕ) × (length taken ≡ want)
    × (bytes ≡ got ++ taken)
    × (incoming ≡ taken ++ s.incoming)
    × (s.sent ≡ sent)
Took want got sent incoming (returned (false, bytes) s) =
    (taken : List ℕ) × (incoming ≡ taken ++ s.incoming) × (s.sent ≡ sent)
Took want got sent incoming blocked = Unit
Took want got sent incoming fault = ⊥

Took-behind :
    (front : List ℕ) (want : ℕ) (got sent rest : List ℕ) (o : Io (Bool × List ℕ))
    → length front ≤ want
    → Took (want - length front) (got ++ front) sent rest o
    → Took want got sent (front ++ rest) o
Took-behind front want got sent rest (returned (true, bytes) s) short (a, n, h, k, l) = (
  front ++ a,
  omega (arith, length-append front a),
  h ∙ append_assoc got front a,
  ap (λ t. front ++ t) k ∙ sym (append_assoc front a s.incoming),
  l,
)
Took-behind front want got sent rest (returned (false, bytes) s) short (a, k, l) =
    (front ++ a, ap (λ t. front ++ t) k ∙ sym (append_assoc front a s.incoming), l)
Took-behind front want got sent rest blocked short h = h
Took-behind front want got sent rest fault short h = h

read_all-Took :
    (want : ℕ) (got sent incoming : List ℕ) (rs : List Response)
    → Took want got sent incoming (read_all want got sent incoming rs)
unfolding read_all
read_all-Took zero got sent incoming rs = ([], refl, sym (append-nil got), refl, refl)
read_all-Took (suc want) got sent incoming [] = _
read_all-Took (suc want) got sent incoming (moved n ∷ rs) =
    let k = min n (suc want) in
    let chunk = take k incoming in
    let short : length chunk ≤ suc want = omega (arith, length-take k incoming) in
    let next = read_all-Took (suc want - length chunk) (got ++ chunk) sent (drop k incoming) rs in
    elim (Bool-cases (ltb 0 (length chunk))) [
      | inl some_came ↦
          rw (some_came)
            (rw take-drop at (Took-behind chunk (suc want) got sent (drop k incoming) _ short next))
      | inr none_came ↦ rw (none_came) (chunk, sym (take-drop k incoming), refl)
    ]
read_all-Took (suc want) got sent incoming (interrupted ∷ rs) =
    read_all-Took (suc want) got sent incoming rs
read_all-Took (suc want) got sent incoming (would_block true ∷ rs) =
    read_all-Took (suc want) got sent incoming rs
read_all-Took (suc want) got sent incoming (would_block false ∷ rs) = ([], refl, refl)
read_all-Took (suc want) got sent incoming (failed ∷ rs) = ([], refl, refl)

-- After a success a header of four octets and as many bytes as it states were taken off the
-- stream, after a failure some bytes; nothing was sent.
abbrev pub Received : Endianness → List ℕ → List ℕ → Io (Bool × List ℕ) → Type 0
Received e sent incoming (returned (true, message) s) =
    (header : List ℕ) × (length header ≡ 4)
    × (length message ≡ network_to_host32 e (word_of32 e header) % 2 ^ 31)
    × (incoming ≡ header ++ (message ++ s.incoming))
    × (s.sent ≡ sent)
Received e sent incoming (returned (false, message) s) =
    (taken : List ℕ) × (incoming ≡ taken ++ s.incoming) × (s.sent ≡ sent)
Received e sent incoming blocked = Unit
Received e sent incoming fault = ⊥

message-Received :
    (e : Endianness) (header sent incoming : List ℕ) (o : Io (Bool × List ℕ))
    → length header ≡ 4
    → Took (network_to_host32 e (word_of32 e header) % 2 ^ 31) [] sent incoming o
    → Received e sent (header ++ incoming) o
message-Received e header sent incoming (returned (true, message) s) four (a, n, h, k, l) =
    (header, four, ap length h ∙ n, ap (λ t. header ++ t) (rw (h) k), l)
message-Received e header sent incoming (returned (false, message) s) four (a, k, l) =
    (header ++ a, ap (λ t. header ++ t) k ∙ sym (append_assoc header a s.incoming), l)
message-Received e header sent incoming blocked four h = h
message-Received e header sent incoming fault four h = h

header-Received :
    (e : Endianness) (sent incoming : List ℕ) (o : Io (Bool × List ℕ))
    → Took 4 [] sent incoming o
    → Received e sent incoming (
        o >>= λ (done, header) s.
        if not done
        then returned (false, []) s
        else read_all
            (network_to_host32 e (word_of32 e header) % 2 ^ 31)
            []
            s.sent
            s.incoming
            s.responses)
header-Received e sent incoming (returned (true, header) s) (a, n, h, k, l) =
    rw (k, ← h, ← l)
      (message-Received e header s.sent s.incoming _ (ap length h ∙ n)
        (read_all-Took _ [] s.sent s.incoming s.responses))
header-Received e sent incoming (returned (false, header) s) h = h
header-Received e sent incoming blocked h = h
header-Received e sent incoming fault h = h

-- Whatever the kernel answers, a message that `recv` gives stands whole in the stream, in as many
-- bytes as the header in front of it states, and what is behind it is left in the stream. A failure
-- takes bytes off the front of the stream too. Nothing is sent.
pub recv-Received :
    (e : Endianness) (t : Transport) → Received e t.socket.sent t.socket.incoming (recv e t)
unfolding recv
recv-Received e t =
    let s = t.socket in
    elim (Bool-cases t.is_connected) [
      | inl k ↦
          rw (k) (
            header-Received e s.sent s.incoming _
              (read_all-Took 4 [] s.sent s.incoming s.responses))
      | inr k ↦ rw (k) ([], refl, refl)
    ]
