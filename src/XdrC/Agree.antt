-- ===== src/XdrC/Agree.antt =====
-- The functions that pack of nfs3_rpc_tests_c/src/xdr_codec.c beside the class XdrBuffer of
-- nfs3_rpc_tests/src/xdr_codec.cpp.
use nfstest.Prelude.{
  ℕ, ◌+◌, ◌≤◌, ◌≡◌, ◌^◌, refl, Bool, some, List, ◌++◌, length, length-append, length-replicate,
  replicate, zero, arith,
}
use nfstest.Xdr.Word.{Endianness}
use nfstest.Xdr.Int.{ℤ}
use nfstest.Xdr.Buffer
use nfstest.Xdr.Buffer.{
  XdrBuffer, padding_of, pack_u32, pack_i32, pack_u64, pack_bool, pack_string, pack_bytes,
}
use nfstest.Xdr.Wire.{IsAligned}
use nfstest.Xdr.Encoding.{appended}
use nfstest.Xdr.Words.{pack_u32-Packs, pack_i32-Packs, pack_u64-Packs, pack_bool-Packs}
use nfstest.Xdr.Opaque.{network_opaque, IsShort, pack_bytes-Packs, pack_string-Packs}
use nfstest.XdrC.Growth.{XdrBuf, Heap, Outcome, M, returned}
use nfstest.XdrC.Capacity.{IsValid, Grants}
use nfstest.XdrC.Codec.{
  xdr_pack_uint32, xdr_pack_uint64, xdr_pack_int32, xdr_pack_bool, xdr_pack_cstring,
  xdr_pack_opaque,
}
use nfstest.XdrC.Packing.{
  Appends, uint32-Appends, uint64-Appends, int32-Appends, bool-Appends, cstring-Appends,
  opaque-Appends,
}

-- The buffer of the C++ program that holds the same bytes and stands at the same position.
abbrev pub view : XdrBuf → XdrBuffer
view b = record { buffer = b.contents; pos = b.pos }

-- The function of the C suite returned, with its buffer inside its block, and the method of the C++
-- program left the same bytes and the same position.
pub record PackedAlike (o : Outcome (Unit {0})) (p : Buffer.Outcome (Unit {0})) : Type 0 where
  pub heap : Heap
  pub after : XdrBuf
  pub ends : o ≡ returned tt heap after
  pub grants : Grants heap
  pub valid : IsValid after
  pub same : p ≡ Buffer.ok tt (view after)

pub same_bytes :
    (e : Endianness) (h : Heap) (b : XdrBuf) (bytes : List ℕ) (w : M (Unit {0}))
    (p : Buffer.Outcome (Unit {0}))
    → IsValid b
    → Grants h
    → length b.contents + length bytes ≤ 2 ^ 63
    → Appends b.contents w bytes
    → p ≡ appended (view b) bytes
    → PackedAlike (w e h b) p
same_bytes e h b bytes w p v g small a same =
    let left = a.appends e h b refl v g (omega (arith, length-append b.contents bytes)) in
    record {
      heap = left.heap;
      after = record {
        contents = b.contents ++ bytes;
        room = left.room;
        capacity = left.capacity;
        pos = b.pos;
      };
      ends = left.ends;
      grants = left.grants;
      valid = record { written = left.written; held = left.held };
      same = same;
    }

network_opaque_room :
    (bytes : List ℕ) (n : ℕ)
    → n + length bytes + 8 ≤ 2 ^ 63
    → n + length (network_opaque bytes) ≤ 2 ^ 63
unfolding padding_of
network_opaque_room bytes n small = omega (
  arith,
  length-append bytes (replicate (padding_of (length bytes)) 0),
  length-replicate (padding_of (length bytes)) (zero),
)

-- On a buffer of whole units that stays below 2^63 bytes, where no request for memory is refused,
-- each function that packs a number, a flag, a string or opaque data returns, never writes outside
-- its block, keeps its buffer valid, and leaves the bytes and the position that the method of
-- XdrBuffer leaves. A string has fewer than 2^32 bytes.
pub packers_same_bytes :
    (e : Endianness) (h : Heap) (b : XdrBuf) (n m : ℕ) (z : ℤ) (flag : Bool) (s : List ℕ)
    → IsValid b
    → Grants h
    → IsAligned b.contents
    → IsShort s
    → length b.contents + length s + 8 ≤ 2 ^ 63
    → PackedAlike (xdr_pack_uint32 n e h b) (pack_u32 n e (view b))
      × PackedAlike (xdr_pack_uint64 m e h b) (pack_u64 m e (view b))
      × PackedAlike (xdr_pack_int32 z e h b) (pack_i32 z e (view b))
      × PackedAlike (xdr_pack_bool flag e h b) (pack_bool flag e (view b))
      × PackedAlike (xdr_pack_cstring (some s) e h b) (pack_string s e (view b))
      × PackedAlike (xdr_pack_opaque (some s) (length s) e h b) (pack_bytes s e (view b))
packers_same_bytes e h b n m z flag s v g aligned short small = (
  same_bytes e h b _ _ _ v g (omega arith) (uint32-Appends b.contents n)
      ((pack_u32-Packs n).appends e (view b) aligned),
  same_bytes e h b _ _ _ v g (omega arith) (uint64-Appends b.contents m)
      ((pack_u64-Packs m).appends e (view b) aligned),
  same_bytes e h b _ _ _ v g (omega arith) (int32-Appends b.contents z)
      ((pack_i32-Packs z).appends e (view b) aligned),
  same_bytes e h b _ _ _ v g (omega arith) (bool-Appends b.contents flag)
      ((pack_bool-Packs flag).appends e (view b) aligned),
  same_bytes e h b _ _ _ v g (network_opaque_room s _ small)
      (cstring-Appends b.contents s aligned short)
      ((pack_string-Packs s short).appends e (view b) aligned),
  same_bytes e h b _ _ _ v g (network_opaque_room s _ small) (opaque-Appends b.contents s aligned)
      ((pack_bytes-Packs s short).appends e (view b) aligned),
)
