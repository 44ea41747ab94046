-- ===== src/Xdr/Encoding.antt =====
-- The methods `pack` and `unpack` of class XdrBuffer (nfs3_rpc_tests/src/xdr_codec.cpp) against
-- the encodings of RFC 4506.
use nfstest.Prelude.{
  ℕ, ◌<◌, ◌≡◌, Bool, List, ◌++◌, length, ltb, ltb→lt, lt→ltb, if◌then◌else◌, arith, Bool-cases, inl,
  inr,
}
use nfstest.Xdr.Word.{Endianness, IsU32, IsU64, network_bytes32, network_bytes64}
use nfstest.Xdr.Int.{ℤ, IsI32, to_u32}
use nfstest.Xdr.Buffer.{
  XdrBuffer, Outcome, ok, threw, string_too_long, opaque_too_long, throw, uint32_max, pack_u32,
  pack_i32, pack_u64, pack_bool, pack_string, pack_bytes, unpack_u32, unpack_i32, unpack_u64,
  unpack_bool, unpack_string, unpack_bytes,
}
use nfstest.Xdr.Wire.{IsAligned, RoundTrip, Wire-RoundTrip}
use nfstest.Xdr.Words.{
  pack_u32-Packs, pack_i32-Packs, pack_u64-Packs, pack_bool-Packs, Wire-u32, Wire-i32, Wire-u64,
  Wire-bool,
}
use nfstest.Xdr.Opaque.{
  network_opaque, IsShort, pack_bytes-Packs, pack_string-Packs, Wire-bytes, Wire-string,
}

-- What a method that appends `bytes` leaves.
abbrev pub appended : XdrBuffer → List ℕ → Outcome (Unit {0})
appended b bytes = ok tt (record b { buffer = b.buffer ++ bytes })

-- On a host of either byte order an integer is packed as RFC 4506 states it: 32 bits in two's
-- complement, 64 bits, and a Boolean as 1 or 0, the highest octet first. The buffer holds whole
-- units before.
pub pack_scalar_lem :
    (e : Endianness) (b : XdrBuffer) (n m : ℕ) (z : ℤ) (flag : Bool)
    → IsAligned b.buffer
    → (pack_u32 n e b ≡ appended b (network_bytes32 n))
      × (pack_i32 z e b ≡ appended b (network_bytes32 (to_u32 z)))
      × (pack_u64 m e b ≡ appended b (network_bytes64 m))
      × (pack_bool flag e b ≡ appended b (network_bytes32 (if flag then 1 else 0)))
pack_scalar_lem e b n m z flag h = (
  (pack_u32-Packs n).appends e b h,
  (pack_i32-Packs z).appends e b h,
  (pack_u64-Packs m).appends e b h,
  (pack_bool-Packs flag).appends e b h,
)

-- What a method that packs `bytes` leaves, of whatever length they are.
abbrev pub packed : XdrBuffer → List ℕ → Outcome (Unit {0}) → Outcome (Unit {0})
packed b bytes too_long =
    if ltb uint32_max (length bytes) then too_long else appended b (network_opaque bytes)

packed_cases :
    (b : XdrBuffer) (bytes : List ℕ) (o too_long : Outcome (Unit {0}))
    → (uint32_max < length bytes → o ≡ too_long)
    → (IsShort bytes → o ≡ appended b (network_opaque bytes))
    → o ≡ packed b bytes too_long
packed_cases b bytes o too_long long short = elim (Bool-cases (ltb uint32_max (length bytes))) [
  | inl k ↦ rw (k) (long (ltb→lt uint32_max (length bytes) k))
  | inr k ↦ rw (k) (short (ground (arith, k)))
]

pack_bytes_refused :
    (e : Endianness) (b : XdrBuffer) (bytes : List ℕ)
    → uint32_max < length bytes
    → pack_bytes bytes e b ≡ threw (opaque_too_long (length bytes)) b
unfolding pack_bytes throw
pack_bytes_refused e b bytes k = rw (lt→ltb uint32_max (length bytes) k)

pack_string_refused :
    (e : Endianness) (b : XdrBuffer) (bytes : List ℕ)
    → uint32_max < length bytes
    → pack_string bytes e b ≡ threw (string_too_long (length bytes)) b
unfolding pack_string throw
pack_string_refused e b bytes k = rw (lt→ltb uint32_max (length bytes) k)

-- Strings and opaque data are packed in the same way, behind whole units: the length, the bytes,
-- and zeros up to a multiple of four. More than 2^32 - 1 bytes are refused, and the buffer is left
-- as it was.
pub pack_opaque_lem :
    (e : Endianness) (b : XdrBuffer) (bytes : List ℕ)
    → IsAligned b.buffer
    → (pack_bytes bytes e b ≡ packed b bytes (threw (opaque_too_long (length bytes)) b))
      × (pack_string bytes e b ≡ packed b bytes (threw (string_too_long (length bytes)) b))
pack_opaque_lem e b bytes h = (
  packed_cases b bytes _ _ (pack_bytes_refused e b bytes)
      λ k. (pack_bytes-Packs bytes k).appends e b h,
  packed_cases b bytes _ _ (pack_string_refused e b bytes)
      λ k. (pack_string-Packs bytes k).appends e b h,
)

-- An integer in its machine range is unpacked as it was packed, on hosts of either byte order.
scalar-RoundTrip :
    (n m : ℕ) (z : ℤ) (flag : Bool)
    → IsU32 n
    → IsU64 m
    → IsI32 z
    → RoundTrip (pack_u32 n) unpack_u32 n
      × RoundTrip (pack_u64 m) unpack_u64 m
      × RoundTrip (pack_i32 z) unpack_i32 z
      × RoundTrip (pack_bool flag) unpack_bool flag
scalar-RoundTrip n m z flag hn hm hz = (
  Wire-RoundTrip (Wire-u32 n hn),
  Wire-RoundTrip (Wire-u64 m hm),
  Wire-RoundTrip (Wire-i32 z hz),
  Wire-RoundTrip (Wire-bool flag),
)

-- A string or opaque data below 2^32 bytes is unpacked as it was packed, its padding read too, on
-- hosts of either byte order.
opaque-RoundTrip :
    (bytes : List ℕ)
    → IsShort bytes
    → RoundTrip (pack_bytes bytes) unpack_bytes bytes
      × RoundTrip (pack_string bytes) unpack_string bytes
opaque-RoundTrip bytes h =
    (Wire-RoundTrip (Wire-bytes bytes h), Wire-RoundTrip (Wire-string bytes h))

-- An integer in its machine range, a Boolean, and a string or opaque data below 2^32 bytes are
-- unpacked as they were packed, on hosts of either byte order, with every byte read.
pub methods-RoundTrip :
    (n m : ℕ) (z : ℤ) (flag : Bool) (bytes : List ℕ)
    → IsU32 n
    → IsU64 m
    → IsI32 z
    → IsShort bytes
    → (RoundTrip (pack_u32 n) unpack_u32 n
        × RoundTrip (pack_u64 m) unpack_u64 m
        × RoundTrip (pack_i32 z) unpack_i32 z
        × RoundTrip (pack_bool flag) unpack_bool flag)
      × RoundTrip (pack_bytes bytes) unpack_bytes bytes
      × RoundTrip (pack_string bytes) unpack_string bytes
methods-RoundTrip n m z flag bytes hn hm hz h =
    let (of_bytes, of_string) = opaque-RoundTrip bytes h in
    (scalar-RoundTrip n m z flag hn hm hz, of_bytes, of_string)
