-- ===== src/Xdr/Words.antt =====
-- What the packed words are on the wire, and that they are read back.
use nfstest.Prelude.{
  ℕ, ◌+◌, ◌≤◌, ◌≡◌, refl, Bool, true, false, List, ◌++◌, append_assoc, arith, length, length-append,
  take-append, drop-append, le→ltb, le→leb, if◌then◌else◌,
}
use nfstest.Xdr.Int.{ℤ, IsI32, to_u32, to_i32-to_u32, to_u32-lt}
use nfstest.Xdr.Word.{
  Endianness, IsU32, IsU64, network_bytes32, network_bytes64, network_order32, network_order64,
  host_order32, host_order64,
}
use nfstest.Xdr.Buffer.{
  ok, copy_out, ensure_read_space, advance, pack_u32, pack_u64, pack_i32, pack_bool, unpack_u32,
  unpack_u64, unpack_i32, unpack_bool,
}
use nfstest.Xdr.Wire.{Packs, Reads, Wire, Reads-last, between}

-- The bytes at the read position are there to be read.
present :
    (front bytes back : List ℕ) → length front + length bytes ≤ length (front ++ (bytes ++ back))
present front bytes back =
    omega (arith, length-append front (bytes ++ back), length-append bytes back)

pub copy_out-Reads :
    (e : Endianness) (front bytes back : List ℕ)
    → copy_out (length bytes) e (between front (bytes ++ back))
      ≡ ok bytes (between front (bytes ++ back))
unfolding copy_out between
copy_out-Reads e front bytes back = rw (
  le→leb _ _ (present front bytes back),
  drop-append front (bytes ++ back),
  take-append bytes back,
)

pub enough_data :
    (e : Endianness) (front bytes back : List ℕ)
    → ensure_read_space (length bytes) e (between front (bytes ++ back))
      ≡ ok tt (between front (bytes ++ back))
unfolding ensure_read_space between
enough_data e front bytes back = rw (le→ltb _ _ (present front bytes back))

pub advance-Reads :
    (e : Endianness) (front bytes back : List ℕ)
    → advance (length bytes) e (between front (bytes ++ back))
      ≡ ok tt (between (front ++ bytes) back)
unfolding advance between
advance-Reads e front bytes back = rw (length-append, append_assoc)

pub pack_u32-Packs : (val : ℕ) → Packs (pack_u32 val) (network_bytes32 val)
unfolding pack_u32
pack_u32-Packs val = record { aligned = refl; appends = λ e b h. rw (network_order32 e val) }

pub pack_i32-Packs : (val : ℤ) → Packs (pack_i32 val) (network_bytes32 (to_u32 val))
unfolding pack_i32
pack_i32-Packs val = record {
  aligned = refl;
  appends = λ e b h. rw (network_order32 e (to_u32 val));
}

pub pack_u64-Packs : (val : ℕ) → Packs (pack_u64 val) (network_bytes64 val)
unfolding pack_u64
pack_u64-Packs val = record { aligned = refl; appends = λ e b h. rw (network_order64 e val) }

pub unpack_u32-Reads : (val : ℕ) → IsU32 val → Reads unpack_u32 (network_bytes32 val) val
unfolding unpack_u32
unpack_u32-Reads val h = record {
  consumes = λ e front back.
      let bytes = network_bytes32 val in
      rw (
        enough_data e front bytes back,
        copy_out-Reads e front bytes back,
        advance-Reads e front bytes back,
        host_order32 e val h,
      );
}

pub unpack_i32-Reads : (val : ℤ) → IsI32 val → Reads unpack_i32 (network_bytes32 (to_u32 val)) val
unfolding unpack_i32
unpack_i32-Reads val h = record {
  consumes = λ e front back.
      let bytes = network_bytes32 (to_u32 val) in
      rw (
        enough_data e front bytes back,
        copy_out-Reads e front bytes back,
        advance-Reads e front bytes back,
        host_order32 e (to_u32 val) (to_u32-lt val),
        to_i32-to_u32 val h,
      );
}

pub unpack_u64-Reads : (val : ℕ) → IsU64 val → Reads unpack_u64 (network_bytes64 val) val
unfolding unpack_u64
unpack_u64-Reads val h = record {
  consumes = λ e front back.
      let bytes = network_bytes64 val in
      rw (
        enough_data e front bytes back,
        copy_out-Reads e front bytes back,
        advance-Reads e front bytes back,
        host_order64 e val h,
      );
}

pub Wire-u32 : (val : ℕ) → IsU32 val → Wire (pack_u32 val) unpack_u32 val
Wire-u32 val h = record {
  bytes = network_bytes32 val;
  packs = pack_u32-Packs val;
  reads = unpack_u32-Reads val h;
}

pub Wire-i32 : (val : ℤ) → IsI32 val → Wire (pack_i32 val) unpack_i32 val
Wire-i32 val h = record {
  bytes = network_bytes32 (to_u32 val);
  packs = pack_i32-Packs val;
  reads = unpack_i32-Reads val h;
}

pub Wire-u64 : (val : ℕ) → IsU64 val → Wire (pack_u64 val) unpack_u64 val
Wire-u64 val h = record {
  bytes = network_bytes64 val;
  packs = pack_u64-Packs val;
  reads = unpack_u64-Reads val h;
}

abbrev pub flag_word : Bool → ℕ
flag_word val = if val then 1 else 0

pub pack_bool-Packs : (val : Bool) → Packs (pack_bool val) (network_bytes32 (flag_word val))
unfolding pack_bool
pack_bool-Packs val = pack_u32-Packs (flag_word val)

pub unpack_bool-Reads : (val : Bool) → Reads unpack_bool (network_bytes32 (flag_word val)) val
unfolding unpack_bool
unpack_bool-Reads true = Reads-last _ (unpack_u32-Reads 1 (omega arith))
unpack_bool-Reads false = Reads-last _ (unpack_u32-Reads 0 (omega arith))

pub Wire-bool : (val : Bool) → Wire (pack_bool val) unpack_bool val
Wire-bool val = record {
  bytes = network_bytes32 (flag_word val);
  packs = pack_bool-Packs val;
  reads = unpack_bool-Reads val;
}
