-- ===== src/Rpc/Call.antt =====
-- What `build_call` of simple_rpc/include/nfstest/rpc_protocol.hpp puts into a message.
use nfstest.Prelude.{
  ℕ, ◌+◌, ◌-◌, ◌*◌, ◌%◌, ◌^◌, ◌<◌, ◌≡◌, refl, sym, ◌∙◌, List, [], ◌∷◌, ◌++◌, append_assoc,
  append-nil, length, length-append, drop, take-append, drop-append, arith,
}
use nfstest.Xdr.Word.{Endianness, bytes_of32, host_to_network32, network_bytes32, network_order32}
use nfstest.Rpc.Protocol.{
  write_cred_body, write_uint32_be, write_uint32s, write_groups, write_auth_none,
  write_auth_sys_cred, build_call, hostname, overwrite, write_group,
}

-- Numbers on the wire, one after the other.
abbrev pub words : List ℕ → List ℕ
words [] = []
words (n ∷ ns) = network_bytes32 n ++ words ns

-- The body of an AUTH_SYS credential as RFC 5531 states it.
abbrev pub auth_sys_body : ℕ → ℕ → ℕ → List ℕ → List ℕ
auth_sys_body stamp uid gid gids =
    words (stamp ∷ 9 ∷ [])
    ++ (hostname ++ (0 ∷ 0 ∷ 0 ∷ []))
    ++ words (uid ∷ gid ∷ length gids ∷ gids)

-- A credential: its flavor, the length of its body, and the body.
abbrev pub auth_sys_cred : ℕ → ℕ → ℕ → List ℕ → List ℕ
auth_sys_cred stamp uid gid gids =
    let body = auth_sys_body stamp uid gid gids in words (1 ∷ length body ∷ []) ++ body

write_word :
    (e : Endianness) (buf : List ℕ) (n : ℕ) → write_uint32_be e buf n ≡ buf ++ network_bytes32 n
unfolding write_uint32_be
write_word e buf n = rw (network_order32 e n)

write_words : (e : Endianness) (buf ns : List ℕ) → write_uint32s e buf ns ≡ buf ++ words ns
unfolding write_uint32s
write_words e buf [] = sym (append-nil buf)
write_words e buf (n ∷ ns) =
    write_words e (write_uint32_be e buf n) ns
    ∙ rw (write_word e buf n) (append_assoc buf (network_bytes32 n) (words ns))

write_name : (buf : List ℕ) → write_groups 9 buf 0 ≡ buf ++ (hostname ++ (0 ∷ 0 ∷ 0 ∷ []))
unfolding write_groups write_group
write_name buf = simp append_assoc

drop_both :
    (front old rest : List ℕ) → drop (length front + length old) (front ++ (old ++ rest)) ≡ rest
drop_both front old rest =
    rw (← length-append front old, ← append_assoc front old rest) (drop-append (front ++ old) rest)

overwrite_lem :
    (front old rest new : List ℕ)
    → length old ≡ length new
    → overwrite (front ++ (old ++ rest)) (length front) new ≡ front ++ (new ++ rest)
overwrite_lem front old rest new h =
    rw (← h, take-append front (old ++ rest), drop_both front old rest)

length-words : (ns : List ℕ) → length (words ns) ≡ 4 * length ns
length-words [] = refl
length-words (n ∷ ns) = omega (arith, length-words ns)

write_body :
    (e : Endianness) (buf : List ℕ) (stamp uid gid : ℕ) (gids : List ℕ)
    → length gids < 2 ^ 29
    → write_cred_body e buf stamp uid gid gids ≡ buf ++ auth_sys_body stamp uid gid gids
unfolding write_cred_body
write_body e buf stamp uid gid gids h =
    let fits : length gids % 2 ^ 32 ≡ length gids = omega arith in
    rw (fits, write_words)
      (rw (write_word, write_word, write_word, write_name, write_word, write_word)
        (simp append_assoc))

-- Zeros written for a length word, and the length put in their place.
patched :
    (e : Endianness) (front body : List ℕ)
    → length body < 2 ^ 32
    → let start = front ++ network_bytes32 0 in
      overwrite
        (start ++ body)
        (length front)
        (bytes_of32 e (host_to_network32 e ((length (start ++ body) - length start) % 2 ^ 32)))
      ≡ front ++ (network_bytes32 (length body) ++ body)
patched e front body h =
    let start = front ++ network_bytes32 0 in
    let count : (length (start ++ body) - length start) % 2 ^ 32 ≡ length body =
      omega (arith, length-append start body) in
    rw (count, network_order32 e (length body), append_assoc front (network_bytes32 0) body)
      (overwrite_lem front (network_bytes32 0) body (network_bytes32 (length body)) refl)

-- The credential is written behind what the buffer holds: its flavor, the length of its body,
-- which is patched in last, and the body. The group ids are fewer than 2^29, so that the length
-- fits its word.
pub write_auth_sys_cred_lem :
    (e : Endianness) (buf : List ℕ) (stamp uid gid : ℕ) (gids : List ℕ)
    → length gids < 2 ^ 29
    → write_auth_sys_cred e buf stamp uid gid gids ≡ buf ++ auth_sys_cred stamp uid gid gids
unfolding write_auth_sys_cred
write_auth_sys_cred_lem e buf stamp uid gid gids h =
    rw
      (
        write_word e buf 1,
        write_word e (buf ++ network_bytes32 1) 0,
        write_body e _ stamp uid gid gids h,
      )
      (patched e (buf ++ network_bytes32 1) (auth_sys_body stamp uid gid gids)
          (omega (arith, length-words gids))
        ∙ append_assoc buf _ _)

-- A call message as RFC 5531 states it: the header, an AUTH_SYS credential of the host
-- "localhost" with no group, an empty AUTH_NONE verifier, and the arguments.
abbrev pub call_message : ℕ → ℕ → ℕ → ℕ → List ℕ → List ℕ
call_message xid prog vers proc args_body =
    words (xid ∷ 0 ∷ 2 ∷ prog ∷ vers ∷ proc ∷ [])
    ++ (auth_sys_cred 0 0 0 [] ++ (words (0 ∷ 0 ∷ []) ++ args_body))

-- The client's calls are RFC 5531 call messages, on a host of either byte order.
pub build_call_lem :
    (e : Endianness) (xid prog vers proc : ℕ) (args_body : List ℕ)
    → build_call e xid prog vers proc args_body ≡ call_message xid prog vers proc args_body
unfolding build_call write_auth_none
build_call_lem e xid prog vers proc args_body =
    simp (write_word, append_assoc) (rw (write_auth_sys_cred_lem e _ 0 0 0 [] (omega arith)))
