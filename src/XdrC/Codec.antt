-- ===== src/XdrC/Codec.antt =====
-- The functions that pack and unpack: nfs3_rpc_tests_c/src/xdr_codec.c.
-- `(uint32_t)val` of an `int32_t` is `to_u32`, and `(int32_t)u` is `to_i32`.
use nfstest.Prelude.{
  ℕ, ◌+◌, ◌-◌, ◌%◌, ◌^◌, Bool, not, Option, none, some, List, leb, ltb, ◌==◌, if◌then◌else◌, length,
  take, drop, replicate,
}
use nfstest.Xdr.Int.{ℤ, to_u32, to_i32}
use nfstest.Xdr.Word.{bytes_of32, bytes_of64, word_of32, word_of64}
use nfstest.XdrC.Order.{host_to_network32, network_to_host32, host_to_network64, network_to_host64}
use nfstest.XdrC.Growth.{
  M, returned, fault, pure, malloc, append, ensure_write_capacity, ensure_read_space, ◌>>=◌, ◌>>◌,
}

-- The bytes of a word, as `memcpy` from it sees them, go to the end of the block.
unfoldable pub xdr_pack_uint32 : ℕ → M (Unit {0})
unfolding ◌>>=◌ ◌>>◌
xdr_pack_uint32 val = do
  ensure_write_capacity 4
  λ e. append (bytes_of32 e (host_to_network32 e val)) e

unfoldable pub xdr_pack_uint64 : ℕ → M (Unit {0})
unfolding ◌>>=◌ ◌>>◌
xdr_pack_uint64 val = do
  ensure_write_capacity 8
  λ e. append (bytes_of64 e (host_to_network64 e val)) e

unfoldable pub xdr_pack_int32 : ℤ → M (Unit {0})
xdr_pack_int32 val = xdr_pack_uint32 (to_u32 val)

unfoldable pub xdr_pack_bool : Bool → M (Unit {0})
xdr_pack_bool val = xdr_pack_uint32 (if val then 1 else 0)

unfoldable pub pad_to_4_bytes : M (Unit {0})
unfolding ◌>>=◌ ◌>>◌ pure
pad_to_4_bytes e h b =
    let pad = (4 - length b.contents % 4) % 4 in
    (if pad == 0 then pure tt else do ensure_write_capacity pad; append (replicate pad 0)) e h b

-- `memcpy(buf->data + buf->size, source, len)` behind `ensure_write_capacity(buf, len)`: the source
-- has the bytes of the list.
unfoldable pub append_copy : List ℕ → ℕ → M (Unit {0})
unfolding ◌>>=◌ ◌>>◌
append_copy source len = do
  ensure_write_capacity len
  if leb len (length source) then append (take len source) else λ e h b. fault

-- A null pointer is `none`; a string is the characters in front of its null character, so `strlen`
-- is the length.
unfoldable pub xdr_pack_cstring : Option (List ℕ) → M (Unit {0})
unfolding ◌>>=◌ ◌>>◌
xdr_pack_cstring none = do xdr_pack_uint32 0; pad_to_4_bytes
xdr_pack_cstring (some s) =
    let len = length s % 2 ^ 32 in
    do xdr_pack_uint32 len; if ltb 0 len then append_copy s len else pure tt; pad_to_4_bytes

unfoldable pub xdr_pack_bytes : Option (List ℕ) → ℕ → M (Unit {0})
unfolding pure
xdr_pack_bytes none len = pure tt
xdr_pack_bytes (some bytes) len = if ltb 0 len then append_copy bytes len else pure tt

unfoldable pub xdr_pack_opaque : Option (List ℕ) → ℕ → M (Unit {0})
unfolding ◌>>=◌ ◌>>◌
xdr_pack_opaque bytes len = do xdr_pack_uint32 len; xdr_pack_bytes bytes len; pad_to_4_bytes

-- `memcpy(to, buf->data + buf->pos, n)`
unfoldable pub copy_out : ℕ → M (List ℕ)
copy_out n e h b =
    if leb (b.pos + n) (length b.contents)
    then returned (take n (drop b.pos b.contents)) h b
    else fault

-- `buf->pos += n`
unfoldable pub advance : ℕ → M (Unit {0})
advance n e h b = returned tt h (record b { pos = b.pos + n })

-- A function that returned 0 is `none`; it left `*val` alone.
unfoldable pub xdr_unpack_uint32 : M (Option ℕ)
unfolding ◌>>=◌ ◌>>◌ pure
xdr_unpack_uint32 = do
  space ← ensure_read_space 4
  if not space
      then pure none
      else do nv ← copy_out 4; advance 4; λ e. pure (some (network_to_host32 e (word_of32 e nv))) e

unfoldable pub xdr_unpack_uint64 : M (Option ℕ)
unfolding ◌>>=◌ ◌>>◌ pure
xdr_unpack_uint64 = do
  space ← ensure_read_space 8
  if not space
      then pure none
      else do nv ← copy_out 8; advance 8; λ e. pure (some (network_to_host64 e (word_of64 e nv))) e

-- What follows `if (!xdr_unpack_uint32(buf, &u)) return 0;`
abbrev pub on_word : {A : Type 0} → A → (ℕ → M A) → Option ℕ → M A
unfolding pure
on_word failed f none = pure failed
on_word failed f (some u) = f u

unfoldable pub xdr_unpack_int32 : M (Option ℤ)
unfolding ◌>>=◌ pure
xdr_unpack_int32 = do u ← xdr_unpack_uint32; on_word none (λ u'. pure (some (to_i32 u'))) u

unfoldable pub xdr_unpack_bool : M (Option Bool)
unfolding ◌>>=◌ pure
xdr_unpack_bool = do u ← xdr_unpack_uint32; on_word none (λ u'. pure (some (not (u' == 0)))) u

-- `buf->pos += len;` and the padding behind
unfoldable pub skip : ℕ → M (Unit {0})
unfolding ◌>>=◌ ◌>>◌
skip len = do advance len; advance ((4 - len % 4) % 4)

-- The block is of `len + 1` bytes, a uint32_t; the null character is written last.
unfoldable pub string_behind : ℕ → M (Option (List ℕ))
unfolding ◌>>=◌ ◌>>◌ pure
string_behind len = do
  space ← ensure_read_space len
  if not space then pure none else do
    room ← malloc ((len + 1) % 2 ^ 32)
    s ← copy_out len
    if leb room len then (λ e h b. fault) else do skip len; pure (some s)

-- The new string.
unfoldable pub xdr_unpack_cstring : M (Option (List ℕ))
unfolding ◌>>=◌
xdr_unpack_cstring = do len ← xdr_unpack_uint32; on_word none string_behind len

unfoldable pub opaque_behind : ℕ → M (ℕ × Option (List ℕ))
unfolding ◌>>=◌ ◌>>◌ pure
opaque_behind len = do
  space ← ensure_read_space len
  if not space then pure (len, none) else do
    room ← malloc (if len == 0 then 1 else len)
    bytes ← copy_out len
    if ltb room len then (λ e h b. fault) else do skip len; pure (len, some bytes)

-- What the function leaves in `*len`, and the block it makes for `*data`: it may return 0 with the
-- length set.
unfoldable pub xdr_unpack_opaque : ℕ → M (ℕ × Option (List ℕ))
unfolding ◌>>=◌
xdr_unpack_opaque old = do len ← xdr_unpack_uint32; on_word (old, none) opaque_behind len
