-- ===== src/XdrC/Runs.antt =====
-- The functions of nfs3_rpc_tests_c/src/xdr_codec.c at concrete buffers.
use nfstest.Prelude.{ℕ, ◌≡◌, refl, true, false, none, some, List, [], ◌∷◌, arith}
use nfstest.Xdr.Word.{little}
use nfstest.Xdr.Int.{negsuc}
use nfstest.Xdr.Buffer.{
  pack_u32, pack_i32, pack_u64, pack_bool, pack_string, pack_bytes, unpack_u32, unpack_i32,
  unpack_u64, unpack_bool, unpack_string, unpack_bytes,
}
use nfstest.XdrC.Growth.{XdrBuf, Heap, fault, ensure_write_capacity}
use nfstest.XdrC.Capacity.{IsValid, Ready, ensure_write_capacity-Ready}
use nfstest.XdrC.Codec.{
  xdr_pack_uint32, xdr_pack_uint64, xdr_pack_int32, xdr_pack_bool, xdr_pack_cstring,
  xdr_pack_opaque, xdr_unpack_uint32, xdr_unpack_uint64, xdr_unpack_int32, xdr_unpack_bool,
  xdr_unpack_cstring, xdr_unpack_opaque,
}
use nfstest.XdrC.Agree.{view, PackedAlike, packers_same_bytes}
use nfstest.XdrC.Reading.{told, SameRead, Readable, answer}
use nfstest.XdrC.Unpacking.{unpackers_same}
use nfstest.XdrC.Buffers.{refused_growth}

abbrev all_granted : Heap
all_granted n = true

abbrev all_refused : Heap
all_refused n = false

-- A full block, at the word for 3 and the string `cat`.
abbrev with_cat : XdrBuf
with_cat = record {
  contents = 0 ∷ 0 ∷ 0 ∷ 3 ∷ b'c' ∷ b'a' ∷ b't' ∷ 0 ∷ [];
  room = 8;
  capacity = 8;
  pos = 0;
}

abbrev five_bytes : List ℕ
five_bytes = b'h' ∷ b'e' ∷ b'l' ∷ b'l' ∷ b'o' ∷ []

with_cat-IsValid : IsValid with_cat
with_cat-IsValid = record { written = omega arith; held = omega arith }

with_cat-Readable : Readable with_cat
with_cat-Readable = record { below = omega arith; reach = omega arith }

ensure_write_capacity-Ready_example :
    Ready with_cat 100 216 (ensure_write_capacity 100 little all_granted with_cat)
ensure_write_capacity-Ready_example =
    ensure_write_capacity-Ready little all_granted with_cat 100 with_cat-IsValid (λ k. refl)
      (omega arith)

packers_same_bytes_example :
    PackedAlike
      (xdr_pack_uint32 258 little all_granted with_cat)
      (pack_u32 258 little (view with_cat))
    × PackedAlike
        (xdr_pack_uint64 77 little all_granted with_cat)
        (pack_u64 77 little (view with_cat))
    × PackedAlike
        (xdr_pack_int32 (negsuc 0) little all_granted with_cat)
        (pack_i32 (negsuc 0) little (view with_cat))
    × PackedAlike
        (xdr_pack_bool true little all_granted with_cat)
        (pack_bool true little (view with_cat))
    × PackedAlike
        (xdr_pack_cstring (some five_bytes) little all_granted with_cat)
        (pack_string five_bytes little (view with_cat))
    × PackedAlike
        (xdr_pack_opaque (some five_bytes) 5 little all_granted with_cat)
        (pack_bytes five_bytes little (view with_cat))
packers_same_bytes_example =
    packers_same_bytes little all_granted with_cat 258 77 (negsuc 0) true five_bytes
      with_cat-IsValid (λ k. refl) refl (omega arith) (omega arith)

unpackers_same_example :
    SameRead with_cat
      (told (unpack_u32 little (view with_cat)))
      (xdr_unpack_uint32 little all_granted with_cat)
      (unpack_u32 little (view with_cat))
    × SameRead with_cat
        (told (unpack_u64 little (view with_cat)))
        (xdr_unpack_uint64 little all_granted with_cat)
        (unpack_u64 little (view with_cat))
    × SameRead with_cat
        (told (unpack_i32 little (view with_cat)))
        (xdr_unpack_int32 little all_granted with_cat)
        (unpack_i32 little (view with_cat))
    × SameRead with_cat
        (told (unpack_bool little (view with_cat)))
        (xdr_unpack_bool little all_granted with_cat)
        (unpack_bool little (view with_cat))
    × SameRead with_cat
        (told (unpack_string little (view with_cat)))
        (xdr_unpack_cstring little all_granted with_cat)
        (unpack_string little (view with_cat))
    × SameRead with_cat
        (answer
          (0, none)
          (λ n o. (n, o))
          (unpack_u32 little (view with_cat))
          (told (unpack_bytes little (view with_cat))))
        (xdr_unpack_opaque 0 little all_granted with_cat)
        (unpack_bytes little (view with_cat))
unpackers_same_example = unpackers_same little all_granted with_cat 0 with_cat-Readable λ k. refl

refused_growth_example :
    (xdr_pack_uint32 258 little all_refused with_cat ≡ fault)
    × (xdr_pack_int32 (negsuc 0) little all_refused with_cat ≡ fault)
    × (xdr_pack_bool true little all_refused with_cat ≡ fault)
    × (xdr_pack_cstring (some five_bytes) little all_refused with_cat ≡ fault)
    × (xdr_pack_opaque (some five_bytes) 258 little all_refused with_cat ≡ fault)
refused_growth_example =
    refused_growth little all_refused with_cat 258 (negsuc 0) true (some five_bytes) refl
      (record { room = refl; short = omega arith; small = omega arith })
