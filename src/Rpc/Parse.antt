-- ===== src/Rpc/Parse.antt =====
-- What `parse_reply` of simple_rpc/include/nfstest/rpc_protocol.hpp makes of an RFC 5531 reply.
pub mod Safety
use nfstest.Prelude.{
  ℕ, zero, suc, ◌+◌, ◌^◌, ◌≤◌, ◌<◌, ◌≡◌, ◌≢◌, refl, ap, ◌∙◌, List, [], ◌∷◌, ◌++◌, Option, none,
  some, append_assoc, length, length-append, length-drop, length-replicate, drop, drop-append,
  arith, le→leb, ◌==◌, if◌then◌else◌,
}
use nfstest.Xdr.Word.{
  Endianness, IsU32, big, little, network_bytes32, word_of32, host_order32, network_to_host32,
}
use nfstest.Xdr.Buffer.{padding_of}
use nfstest.Xdr.Opaque.{network_opaque, pad}
use nfstest.Rpc.Protocol.{
  RpcStatus, ok, prog_unavail, prog_mismatch, proc_unavail, garbage_args, auth_error, proto_err,
  read_uint32_be,
}
use nfstest.Rpc.Reply.{
  Parsed, parse_reply, parse_accepted, parse_rejected, skip_verifier, on_accept_stat, take_body,
  round_up,
}
use nfstest.Rpc.Call.{words}

word_of32-append :
    (e : Endianness) (n : ℕ) (back : List ℕ)
    → word_of32 e (network_bytes32 n ++ back) ≡ word_of32 e (network_bytes32 n)
unfolding word_of32
word_of32-append big n back = refl
word_of32-append little n back = refl

-- A word is read where it stands.
read_word :
    (e : Endianness) (front : List ℕ) (n : ℕ) (back : List ℕ)
    → IsU32 n
    → read_uint32_be e (front ++ (network_bytes32 n ++ back)) (length front) ≡ some n
unfolding read_uint32_be
read_word e front n back h = rw (
  le→leb (length front + 4) (length (front ++ (network_bytes32 n ++ back)))
      (omega (arith, length-append front (network_bytes32 n ++ back))),
  drop-append front (network_bytes32 n ++ back),
  word_of32-append e n back,
  host_order32 e n h,
)

round_up-padding : (n : ℕ) → n + 3 < 2 ^ 32 → round_up n ≡ n + padding_of n
unfolding round_up padding_of
round_up-padding n h = omega arith

-- An accepted reply as RFC 5531 states it.
abbrev pub accepted_reply : ℕ → ℕ → List ℕ → ℕ → List ℕ → List ℕ
accepted_reply xid flavor verf accept_stat results =
    words (xid ∷ 1 ∷ 0 ∷ flavor ∷ [])
    ++ (network_opaque verf ++ (network_bytes32 accept_stat ++ results))

-- The status for each `accept_stat` but SUCCESS.
abbrev pub accept_error : ℕ → RpcStatus
accept_error (suc zero) = prog_unavail
accept_error (suc (suc zero)) = prog_mismatch
accept_error (suc (suc (suc zero))) = proc_unavail
accept_error (suc (suc (suc (suc zero)))) = garbage_args
accept_error _ = proto_err

-- The five words in front of the verifier's body.
abbrev pub Header : Endianness → List ℕ → ℕ → ℕ → ℕ → Type 0
Header e bytes xid flavor auth_len =
    (read_uint32_be e bytes 0 ≡ some xid)
    × (read_uint32_be e bytes 4 ≡ some 1)
    × (read_uint32_be e bytes 8 ≡ some 0)
    × (read_uint32_be e bytes 12 ≡ some flavor)
    × (read_uint32_be e bytes 16 ≡ some auth_len)

parse_accepted_lem :
    (e : Endianness) (bytes out_body : List ℕ) (xid flavor auth_len n : ℕ)
    → Header e bytes xid flavor auth_len
    → flavor ≢ 1
    → 24 + round_up auth_len ≤ length bytes
    → read_uint32_be e bytes (20 + round_up auth_len) ≡ some n
    → parse_reply e bytes out_body xid
      ≡ some
          (if n == 0 then (ok, drop (24 + round_up auth_len) bytes) else (accept_error n, out_body))
unfolding parse_reply parse_accepted skip_verifier take_body on_accept_stat
parse_accepted_lem e bytes out_body xid flavor auth_len n (h0, h4, h8, h12, h16) other l h20 =
    ground arith

accepted-Header :
    (e : Endianness) (xid flavor : ℕ) (verf : List ℕ) (accept_stat : ℕ) (results : List ℕ)
    → IsU32 xid
    → IsU32 flavor
    → IsU32 (length verf)
    → Header e (accepted_reply xid flavor verf accept_stat results) xid flavor (length verf)
accepted-Header e xid flavor verf accept_stat results hx hf hv = (
  read_word e [] xid _ hx,
  read_word e (words (xid ∷ [])) 1 _ (omega arith),
  read_word e (words (xid ∷ 1 ∷ [])) 0 _ (omega arith),
  read_word e (words (xid ∷ 1 ∷ 0 ∷ [])) flavor _ hf,
  read_word e (words (xid ∷ 1 ∷ 0 ∷ flavor ∷ [])) (length verf) _ hv,
)

behind_status :
    (front : List ℕ) (n : ℕ) (results : List ℕ)
    → drop (4 + length front) (front ++ (network_bytes32 n ++ results)) ≡ results
behind_status front n results =
    let measured : 4 + length front ≡ length (front ++ network_bytes32 n) =
      omega (arith, length-append front (network_bytes32 n)) in
    rw (measured, ← append_assoc front (network_bytes32 n) results)
      (drop-append (front ++ network_bytes32 n) results)

parse_status :
    (e : Endianness) (bytes front out_body : List ℕ) (xid flavor auth_len n : ℕ) (results : List ℕ)
    → bytes ≡ front ++ (network_bytes32 n ++ results)
    → Header e bytes xid flavor auth_len
    → length front ≡ 20 + round_up auth_len
    → flavor ≢ 1
    → IsU32 n
    → parse_reply e bytes out_body xid
      ≡ some (if n == 0 then (ok, results) else (accept_error n, out_body))
parse_status e bytes front out_body xid flavor auth_len n results joined header measured other hn =
    let back = network_bytes32 n ++ results in
    let enough : 24 + round_up auth_len ≤ length bytes =
      omega (arith, ap length joined, length-append front back) in
    let status : read_uint32_be e bytes (20 + round_up auth_len) ≡ some n =
      rw (joined, ← measured) (read_word e front n results hn) in
    let body : drop (24 + round_up auth_len) bytes ≡ results =
      rw (joined)
        (ap (λ k. drop k (front ++ back)) (omega arith) ∙ behind_status front n results) in
    parse_accepted_lem e bytes out_body xid flavor auth_len n header other enough status
    ∙ ap (λ b. some (if n == 0 then (ok, b) else (accept_error n, out_body))) body

-- An RFC 5531 success or error reply to the call, under any verifier but an AUTH_SYS one: its
-- results are the bytes behind the status word, and an error is told by its status. Its numbers are
-- below 2^32, its verifier below 2^32 - 3 bytes.
pub parse_reply_accepted :
    (e : Endianness) (out_body : List ℕ) (xid flavor : ℕ) (verf : List ℕ) (accept_stat : ℕ)
    (results : List ℕ)
    → IsU32 xid
    → IsU32 flavor
    → flavor ≢ 1
    → IsU32 accept_stat
    → length verf + 3 < 2 ^ 32
    → parse_reply e (accepted_reply xid flavor verf accept_stat results) out_body xid
      ≡ some (if accept_stat == 0 then (ok, results) else (accept_error accept_stat, out_body))
parse_reply_accepted e out_body xid flavor verf accept_stat results hx hf other ha hv =
    let head = words (xid ∷ 1 ∷ 0 ∷ flavor ∷ length verf ∷ []) in
    let front = head ++ (verf ++ pad verf) in
    let back = network_bytes32 accept_stat ++ results in
    let bytes = accepted_reply xid flavor verf accept_stat results in
    let joined : bytes ≡ front ++ back = refl in
    let measured : length front ≡ 20 + round_up (length verf) = omega (
      arith,
      round_up-padding (length verf) hv,
      length-append verf (pad verf),
      length-replicate {A = ℕ} (padding_of (length verf)) 0,
    ) in
    let header = accepted-Header e xid flavor verf accept_stat results hx hf (omega arith) in
    parse_status e bytes front out_body xid flavor (length verf) accept_stat results joined header
      measured other ha
