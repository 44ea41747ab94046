-- ===== src/Xdr/Opaque.antt =====
-- Strings and variable-length opaque data: what is on the wire, and that it is read back.
use nfstest.Prelude.{
  ℕ, zero, ◌%◌, ◌^◌, ◌≤◌, ◌≡◌, List, ◌++◌, append_assoc, arith, length, length-append,
  length-replicate, replicate, le→ltb,
}
use nfstest.Xdr.Word.{Endianness, network_bytes32}
use nfstest.Xdr.Buffer.{
  ok, pure, ◌>>=◌, ◌>>◌, copy_out, ensure_read_space, advance, insert, pad_to_4_bytes, padding_of,
  uint32_max, pack_string, pack_bytes, unpack_u32, unpack_string, unpack_bytes,
}
use nfstest.Xdr.Wire.{IsAligned, Packs, Reads, Wire, between}
use nfstest.Xdr.Words.{copy_out-Reads, enough_data, advance-Reads, pack_u32-Packs, unpack_u32-Reads}

abbrev pub pad : List ℕ → List ℕ
pad bytes = replicate (padding_of (length bytes)) 0

-- The XDR encoding of a string or of variable-length opaque data, as RFC 4506 states it: the
-- length, the bytes, and zeros up to a multiple of four.
abbrev pub network_opaque : List ℕ → List ℕ
network_opaque bytes = network_bytes32 (length bytes) ++ (bytes ++ pad bytes)

abbrev pub IsShort : List ℕ → Type 0
IsShort bytes = length bytes ≤ uint32_max

network_opaque-IsAligned : (bytes : List ℕ) → IsAligned (network_opaque bytes)
unfolding padding_of
network_opaque-IsAligned bytes = omega (
  arith,
  length-append bytes (replicate (padding_of (length bytes)) 0),
  length-replicate (padding_of (length bytes)) (zero),
)

pub length_word : (bytes : List ℕ) → IsShort bytes → length bytes % 2 ^ 32 ≡ length bytes
length_word bytes h = omega arith

-- Behind whole units, the padding to the buffer's size is the padding to the data's.
pub same_padding :
    (front bytes : List ℕ)
    → IsAligned front
    → padding_of (length ((front ++ network_bytes32 (length bytes)) ++ bytes))
      ≡ padding_of (length bytes)
unfolding padding_of
same_padding front bytes h = omega (
  arith,
  length-append (front ++ network_bytes32 (length bytes)) bytes,
  length-append front (network_bytes32 (length bytes)),
)

pub pack_bytes-Packs :
    (bytes : List ℕ) → IsShort bytes → Packs (pack_bytes bytes) (network_opaque bytes)
unfolding pack_bytes insert
pack_bytes-Packs bytes h = record {
  aligned = network_opaque-IsAligned bytes;
  appends = λ e b k. rw (
    le→ltb uint32_max (length bytes) h,
    length_word bytes h,
    (pack_u32-Packs (length bytes)).appends e b k,
    append_assoc (b.buffer ++ network_bytes32 (length bytes)) bytes (pad bytes),
    append_assoc b.buffer (network_bytes32 (length bytes)) (bytes ++ pad bytes),
  );
}

pub pack_string-Packs : (s : List ℕ) → IsShort s → Packs (pack_string s) (network_opaque s)
unfolding pack_string insert pad_to_4_bytes
pack_string-Packs s h = record {
  aligned = network_opaque-IsAligned s;
  appends = λ e b k. rw (
    le→ltb uint32_max (length s) h,
    length_word s h,
    (pack_u32-Packs (length s)).appends e b k,
    same_padding b.buffer s k,
    append_assoc (b.buffer ++ network_bytes32 (length s)) s (pad s),
    append_assoc b.buffer (network_bytes32 (length s)) (s ++ pad s),
  );
}

advance_padding :
    (e : Endianness) (n : ℕ) (front back : List ℕ)
    → advance (padding_of n) e (between front (replicate (padding_of n) 0 ++ back))
      ≡ ok tt (between (front ++ replicate (padding_of n) 0) back)
advance_padding e n front back =
    rw length-replicate at (advance-Reads e front (replicate (padding_of n) zero) back)

module _ (bytes : List ℕ) (h : IsShort bytes) (e : Endianness) (front back : List ℕ) where
  length_read :
      unpack_u32 e (between front (network_opaque bytes ++ back))
      ≡ ok
          (length bytes)
          (between (front ++ network_bytes32 (length bytes)) (bytes ++ (pad bytes ++ back)))
  length_read = rw (append_assoc bytes (pad bytes) back) (
      (unpack_u32-Reads (length bytes) (omega arith)).consumes e front
        (bytes ++ (pad bytes ++ back)))

  data_read :
      (do
        ensure_read_space (length bytes)
        data_bytes ← copy_out (length bytes)
        advance (length bytes)
        advance (padding_of (length bytes))
        pure data_bytes)
        e
        (between (front ++ network_bytes32 (length bytes)) (bytes ++ (pad bytes ++ back)))
      ≡ ok bytes (between (front ++ network_opaque bytes) back)
  unfolding ◌>>=◌ ◌>>◌ pure
  data_read =
      let start = front ++ network_bytes32 (length bytes) in
      let rest = pad bytes ++ back in
      rw (
        enough_data e start bytes rest,
        copy_out-Reads e start bytes rest,
        advance-Reads e start bytes rest,
        advance_padding e (length bytes) (start ++ bytes) back,
        append_assoc start bytes (pad bytes),
        append_assoc front (network_bytes32 (length bytes)) (bytes ++ pad bytes),
      )

pub unpack_bytes-Reads :
    (bytes : List ℕ) → IsShort bytes → Reads unpack_bytes (network_opaque bytes) bytes
unfolding unpack_bytes
unpack_bytes-Reads bytes h = record {
  consumes = λ e front back. rw (length_read bytes h e front back) (data_read bytes h e front back);
}

pub unpack_string-Reads : (s : List ℕ) → IsShort s → Reads unpack_string (network_opaque s) s
unfolding unpack_string
unpack_string-Reads s h = record {
  consumes = λ e front back. rw (length_read s h e front back) (data_read s h e front back);
}

pub Wire-bytes : (bytes : List ℕ) → IsShort bytes → Wire (pack_bytes bytes) unpack_bytes bytes
Wire-bytes bytes h = record {
  bytes = network_opaque bytes;
  packs = pack_bytes-Packs bytes h;
  reads = unpack_bytes-Reads bytes h;
}

pub Wire-string : (s : List ℕ) → IsShort s → Wire (pack_string s) unpack_string s
Wire-string s h = record {
  bytes = network_opaque s;
  packs = pack_string-Packs s h;
  reads = unpack_string-Reads s h;
}
