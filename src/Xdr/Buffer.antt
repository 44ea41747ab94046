-- ===== src/Xdr/Buffer.antt =====
-- class XdrBuffer: nfs3_rpc_tests/include/nfs3/xdr_codec.hpp and src/xdr_codec.cpp.
-- The capacity of `buffer_` is not modelled: `ensure_write_space` changes nothing else.
-- A `size_t` sum of a position and a length is below 2^64 (a vector holds fewer than 2^63 bytes, the
-- position is at most 3 past its end, a length is a uint32_t), so it is written without wrap-around.
use nfstest.Prelude.{
  ℕ, ◌+◌, ◌-◌, ◌%◌, ◌^◌, Bool, List, [], ◌++◌, leb, ltb, ◌==◌, not, if◌then◌else◌, length, take,
  drop, replicate,
}
use nfstest.Xdr.Int.{ℤ, to_u32, to_i32}
use nfstest.Xdr.Word.{
  Endianness, bytes_of32, bytes_of64, word_of32, word_of64, host_to_network32, network_to_host32,
  host_to_network64, network_to_host64,
}

pub record XdrBuffer : Type 0 where
  pub buffer : List ℕ
  pub pos : ℕ

-- The exception, with the numbers that its message shows.
pub data XdrError : Type 0 where
  insufficient_data : ℕ → ℕ → ℕ → XdrError
  string_too_long : ℕ → XdrError
  opaque_too_long : ℕ → XdrError

-- A method returns, or throws and leaves the buffer as it then is; `fault` is a read outside
-- `buffer_`, which C++ leaves undefined. `stuck` is a recursion of the model that ran out of fuel.
pub data Outcome (A : Type 0) : Type 0 where
  ok : A → XdrBuffer → Outcome A
  threw : XdrError → XdrBuffer → Outcome A
  fault : Outcome A
  stuck : Outcome A

-- A method that runs on a host of the given byte order (`NATIVE_ENDIAN`).
abbrev pub M : Type 0 → Type 0
M A = Endianness → XdrBuffer → Outcome A

module _ {A : Type 0} where
  unfoldable pub pure : A → M A
  pure a e b = ok a b

  unfoldable pub throw : XdrError → M A
  throw x e b = threw x b

module _ {A B : Type 0} where
  infixl 5 ◌>>=◌ ◌>>◌
  abbrev pub continue : Outcome A → Endianness → (A → M B) → Outcome B
  continue (ok a b) e f = f a e b
  continue (threw x b) e f = threw x b
  continue fault e f = fault
  continue stuck e f = stuck

  unfoldable pub ◌>>=◌ : M A → (A → M B) → M B
  ◌>>=◌ m f e b = continue (m e b) e f

  unfoldable pub ◌>>◌ : M A → M B → M B
  unfolding ◌>>=◌
  m >> n = m >>= λ _. n

unfoldable pub native_endian : M Endianness
native_endian e b = ok e b

-- `buffer_.insert(buffer_.end(), ...)`
unfoldable pub insert : List ℕ → M (Unit {0})
insert bytes e b = ok tt (record b { buffer = b.buffer ++ bytes })

-- `std::memcpy(to, &buffer_[pos_], n)`
unfoldable pub copy_out : ℕ → M (List ℕ)
copy_out n e b =
    if leb (b.pos + n) (length b.buffer) then ok (take n (drop b.pos b.buffer)) b else fault

-- `pos_ += n`
unfoldable pub advance : ℕ → M (Unit {0})
advance n e b = ok tt (record b { pos = b.pos + n })

-- The `have` of the message is a `size_t` difference.
unfoldable pub ensure_read_space : ℕ → M (Unit {0})
ensure_read_space bytes e b =
    if ltb (length b.buffer) (b.pos + bytes)
    then threw (insufficient_data bytes b.pos ((length b.buffer + 2 ^ 64 - b.pos) % 2 ^ 64)) b
    else ok tt b

unfoldable pub padding_of : ℕ → ℕ
padding_of n = (4 - n % 4) % 4

unfoldable pub pad_to_4_bytes : M (Unit {0})
unfolding padding_of
pad_to_4_bytes e b =
    ok tt (record b { buffer = b.buffer ++ replicate (padding_of (length b.buffer)) 0 })

abbrev pub uint32_max : ℕ
uint32_max = 0xffff_ffff

unfoldable pub pack_u32 : ℕ → M (Unit {0})
unfolding native_endian insert ◌>>=◌
pack_u32 val = do e ← native_endian; insert (bytes_of32 e (host_to_network32 e val))

unfoldable pub pack_i32 : ℤ → M (Unit {0})
unfolding native_endian insert ◌>>=◌
pack_i32 val = do e ← native_endian; insert (bytes_of32 e (host_to_network32 e (to_u32 val)))

unfoldable pub pack_u64 : ℕ → M (Unit {0})
unfolding native_endian insert ◌>>=◌
pack_u64 val = do e ← native_endian; insert (bytes_of64 e (host_to_network64 e val))

unfoldable pub pack_bool : Bool → M (Unit {0})
pack_bool val = pack_u32 (if val then 1 else 0)

unfoldable pub pack_string : List ℕ → M (Unit {0})
unfolding throw ◌>>◌
pack_string s =
    if ltb uint32_max (length s)
    then throw (string_too_long (length s))
    else do pack_u32 (length s % 2 ^ 32); insert s; pad_to_4_bytes

unfoldable pub pack_bytes : List ℕ → M (Unit {0})
unfolding throw ◌>>◌
pack_bytes bytes =
    if ltb uint32_max (length bytes) then throw (opaque_too_long (length bytes)) else do
      pack_u32 (length bytes % 2 ^ 32)
      insert bytes
      insert (replicate (padding_of (length bytes)) 0)

unfoldable pub unpack_u32 : M ℕ
unfolding pure native_endian ◌>>=◌ ◌>>◌
unpack_u32 = do
  ensure_read_space 4
  e ← native_endian
  bytes ← copy_out 4
  advance 4
  pure (network_to_host32 e (word_of32 e bytes))

unfoldable pub unpack_i32 : M ℤ
unfolding pure native_endian ◌>>=◌ ◌>>◌
unpack_i32 = do
  ensure_read_space 4
  e ← native_endian
  bytes ← copy_out 4
  advance 4
  pure (to_i32 (network_to_host32 e (word_of32 e bytes)))

unfoldable pub unpack_u64 : M ℕ
unfolding pure native_endian ◌>>=◌ ◌>>◌
unpack_u64 = do
  ensure_read_space 8
  e ← native_endian
  bytes ← copy_out 8
  advance 8
  pure (network_to_host64 e (word_of64 e bytes))

unfoldable pub unpack_bool : M Bool
unfolding pure ◌>>=◌
unpack_bool = do int_val ← unpack_u32; pure (not (int_val == 0))

unfoldable pub unpack_string : M (List ℕ)
unfolding pure ◌>>=◌ ◌>>◌
unpack_string = do
  len ← unpack_u32
  ensure_read_space len
  s ← copy_out len
  advance len
  advance (padding_of len)
  pure s

unfoldable pub unpack_bytes : M (List ℕ)
unfolding pure ◌>>=◌ ◌>>◌
unpack_bytes = do
  len ← unpack_u32
  ensure_read_space len
  bytes ← copy_out len
  advance len
  advance (padding_of len)
  pure bytes

-- A new buffer, and `clear`.
abbrev pub empty_buffer : XdrBuffer
empty_buffer = record { buffer = []; pos = 0 }

unfoldable pub reset_read : M (Unit {0})
reset_read e b = ok tt (record b { pos = 0 })
