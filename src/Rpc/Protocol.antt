-- ===== src/Rpc/Protocol.antt =====
-- ONC RPC messages: simple_rpc/include/nfstest/rpc_protocol.hpp.
-- `htonl` and `ntohl` are the conversions of Xdr/Word; a host of either byte order is meant.
use nfstest.Prelude.{
  ℕ, zero, suc, ◌+◌, ◌-◌, ◌%◌, ◌^◌, List, [], ◌∷◌, ◌++◌, Option, none, some, ltb, leb,
  if◌then◌else◌, length, take, drop, replicate,
}
use nfstest.Xdr.Word.{Endianness, bytes_of32, word_of32, host_to_network32, network_to_host32}

abbrev pub msg_call : ℕ
msg_call = 0

abbrev pub msg_reply : ℕ
msg_reply = 1

abbrev pub rpcvers : ℕ
rpcvers = 2

abbrev pub auth_none : ℕ
auth_none = 0

abbrev pub auth_sys : ℕ
auth_sys = 1

pub data RpcStatus : Type 0 where
  ok conn_err timeout prog_unavail prog_mismatch proc_unavail garbage_args auth_error proto_err
        send_err recv_err :
      RpcStatus

module _ (e : Endianness) where
  unfoldable pub write_uint32_be : List ℕ → ℕ → List ℕ
  write_uint32_be buf val = buf ++ bytes_of32 e (host_to_network32 e val)

  -- `none` is a read outside of `data`, which C++ leaves undefined.
  unfoldable pub read_uint32_be : List ℕ → ℕ → Option ℕ
  read_uint32_be bytes offset =
      if leb (offset + 4) (length bytes)
      then some (network_to_host32 e (word_of32 e (drop offset bytes)))
      else none

  unfoldable pub write_auth_none : List ℕ → List ℕ
  write_auth_none buf = write_uint32_be (write_uint32_be buf auth_none) 0

-- `hostname`: "localhost".
abbrev pub hostname : List ℕ
hostname = b'l' ∷ b'o' ∷ b'c' ∷ b'a' ∷ b'l' ∷ b'h' ∷ b'o' ∷ b's' ∷ b't' ∷ []

-- One round of the loop over the host name: up to 4 characters, and the zeros that fill the last
-- group.
unfoldable pub write_group : List ℕ → ℕ → List ℕ
write_group buf i = (buf ++ take 4 (drop i hostname)) ++ replicate (4 - (length hostname - i)) 0

-- `for (i = 0; i < hostname_len; i += 4)`; a round for each character is more than enough.
unfoldable pub write_groups : ℕ → List ℕ → ℕ → List ℕ
unfolding write_group
write_groups zero buf i = buf
write_groups (suc fuel) buf i =
    let rest = write_groups fuel (write_group buf i) (i + 4) in
    if ltb i (length hostname) then rest else buf

-- `std::memcpy(&buf[offset], word, 4)`
abbrev pub overwrite : List ℕ → ℕ → List ℕ → List ℕ
overwrite buf offset word = take offset buf ++ (word ++ drop (offset + length word) buf)

module _ (e : Endianness) where
  unfoldable pub write_uint32s : List ℕ → List ℕ → List ℕ
  write_uint32s buf [] = buf
  write_uint32s buf (g ∷ gids) = write_uint32s (write_uint32_be e buf g) gids

  -- From `size_t cred_start = buf.size();` to the last group id.
  unfoldable pub write_cred_body : List ℕ → ℕ → ℕ → ℕ → List ℕ → List ℕ
  write_cred_body buf2 stamp uid gid gids =
      let buf3 = write_uint32_be e buf2 stamp in
      let buf4 = write_uint32_be e buf3 (length hostname) in
      let buf5 = write_groups (length hostname) buf4 0 in
      let buf6 = write_uint32_be e buf5 uid in
      let buf7 = write_uint32_be e buf6 gid in
      let buf8 = write_uint32_be e buf7 (length gids % 2 ^ 32) in write_uint32s buf8 gids

  unfoldable pub write_auth_sys_cred : List ℕ → ℕ → ℕ → ℕ → List ℕ → List ℕ
  write_auth_sys_cred buf0 stamp uid gid gids =
      let buf1 = write_uint32_be e buf0 auth_sys in
      let cred_len_offset = length buf1 in
      let buf2 = write_uint32_be e buf1 0 in
      let cred_start = length buf2 in
      let buf3 = write_cred_body buf2 stamp uid gid gids in
      let cred_len = host_to_network32 e ((length buf3 - cred_start) % 2 ^ 32) in
      overwrite buf3 cred_len_offset (bytes_of32 e cred_len)

  unfoldable pub build_call : ℕ → ℕ → ℕ → ℕ → List ℕ → List ℕ
  build_call xid prog vers proc args_body =
      let buf1 = write_uint32_be e [] xid in
      let buf2 = write_uint32_be e buf1 msg_call in
      let buf3 = write_uint32_be e buf2 rpcvers in
      let buf4 = write_uint32_be e buf3 prog in
      let buf5 = write_uint32_be e buf4 vers in
      let buf6 = write_uint32_be e buf5 proc in
      let buf7 = write_auth_sys_cred buf6 0 0 0 [] in
      let buf8 = write_auth_none e buf7 in buf8 ++ args_body
