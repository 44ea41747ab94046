-- ===== src/Xdr/Runs.antt =====
-- The methods of class XdrBuffer (nfs3_rpc_tests/src/xdr_codec.cpp) at concrete values.
use nfstest.Prelude.{ℕ, ◌≡◌, refl, true, false, List, [], ◌∷◌, arith}
use nfstest.Xdr.Word.{little, network_bytes32, network_bytes64}
use nfstest.Xdr.Int.{negsuc, to_u32}
use nfstest.Xdr.Buffer.{
  XdrBuffer, threw, string_too_long, opaque_too_long, pack_u32, pack_i32, pack_u64, pack_bool,
  pack_string, pack_bytes, unpack_u32, unpack_i32, unpack_u64, unpack_bool, unpack_string,
  unpack_bytes,
}
use nfstest.Xdr.Wire.{RoundTrip}
use nfstest.Xdr.Encoding.{appended, packed, pack_scalar_lem, pack_opaque_lem, methods-RoundTrip}

abbrev one_unit : XdrBuffer
one_unit = record { buffer = 0 ∷ 0 ∷ 0 ∷ 9 ∷ []; pos = 0 }

abbrev five_bytes : List ℕ
five_bytes = b'h' ∷ b'e' ∷ b'l' ∷ b'l' ∷ b'o' ∷ []

pack_scalar_lem_example :
    (pack_u32 258 little one_unit ≡ appended one_unit (network_bytes32 258))
    × (pack_i32 (negsuc 0) little one_unit
        ≡ appended one_unit (network_bytes32 (to_u32 (negsuc 0))))
    × (pack_u64 77 little one_unit ≡ appended one_unit (network_bytes64 77))
    × (pack_bool true little one_unit ≡ appended one_unit (network_bytes32 1))
pack_scalar_lem_example = pack_scalar_lem little one_unit 258 77 (negsuc 0) true refl

pack_opaque_lem_example :
    (pack_bytes five_bytes little one_unit
      ≡ packed one_unit five_bytes (threw (opaque_too_long 5) one_unit))
    × (pack_string five_bytes little one_unit
        ≡ packed one_unit five_bytes (threw (string_too_long 5) one_unit))
pack_opaque_lem_example = pack_opaque_lem little one_unit five_bytes refl

methods-RoundTrip_example :
    (RoundTrip (pack_u32 258) unpack_u32 258
      × RoundTrip (pack_u64 0x1_0000_0000) unpack_u64 0x1_0000_0000
      × RoundTrip (pack_i32 (negsuc 41)) unpack_i32 (negsuc 41)
      × RoundTrip (pack_bool false) unpack_bool false)
    × RoundTrip (pack_bytes five_bytes) unpack_bytes five_bytes
    × RoundTrip (pack_string five_bytes) unpack_string five_bytes
methods-RoundTrip_example =
    methods-RoundTrip 258 0x1_0000_0000 (negsuc 41) false five_bytes (omega arith) (omega arith)
      (omega arith) (omega arith)
