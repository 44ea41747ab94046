-- ===== src/XdrC/Buffers.antt =====
-- The making and the emptying of buffers, and refused requests for memory:
-- nfs3_rpc_tests_c/src/xdr_codec.c.
use nfstest.Prelude.{
  ℕ, ◌+◌, ◌%◌, ◌≤◌, ◌<◌, ◌≡◌, ◌^◌, refl, Bool, false, Option, none, some, List, length, arith,
}
use nfstest.Xdr.Word.{Endianness}
use nfstest.XdrC.Growth.{XdrBuf, Heap, Outcome, returned, fault, ◌>>=◌, ◌>>◌, append}
use nfstest.XdrC.Capacity.{IsValid, refused_capacity, lt→leb}
use nfstest.XdrC.Order.{same_order32}
use nfstest.XdrC.Codec.{
  xdr_pack_uint32, xdr_pack_int32, xdr_pack_bool, xdr_pack_cstring, xdr_pack_opaque,
}
use nfstest.Xdr.Word.{network_order32}
use nfstest.Xdr.Int.{ℤ}

-- The function returned, with a buffer inside its block that holds these bytes from its start.
pub record Holds (contents : List ℕ) (o : Outcome (Unit {0})) : Type 0 where
  pub heap : Heap
  pub after : XdrBuf
  pub ends : o ≡ returned tt heap after
  pub valid : IsValid after
  pub holds : after.contents ≡ contents
  pub rewound : after.pos ≡ 0

-- A buffer whose block is full, and a word that does not fit.
pub record Full (b : XdrBuf) : Type 0 where
  pub room : b.room ≡ b.capacity
  pub short : b.capacity < length b.contents + 4
  pub small : length b.contents + 4 ≤ 2 ^ 63

word_outside :
    (e : Endianness) (h : Heap) (b : XdrBuf) (val : ℕ)
    → h 0 ≡ false
    → Full b
    → xdr_pack_uint32 val e h b ≡ fault
unfolding xdr_pack_uint32 append ◌>>=◌ ◌>>◌
word_outside e h b val refused full =
    rw
      (
        refused_capacity e h b 4 refused full.short full.small,
        same_order32 e val,
        network_order32 e val,
        lt→leb (length b.contents + 4) b.room (omega (arith, full.room, full.short)),
      )
      refl

cstring_outside :
    (e : Endianness) (h : Heap) (b : XdrBuf) (s : Option (List ℕ))
    → h 0 ≡ false
    → Full b
    → xdr_pack_cstring s e h b ≡ fault
unfolding xdr_pack_cstring ◌>>=◌ ◌>>◌
cstring_outside e h b none refused full = rw (word_outside e h b 0 refused full) refl
cstring_outside e h b (some s) refused full =
    rw (word_outside e h b (length s % 2 ^ 32) refused full) refl

-- When a block is full and the request for a larger one is refused, each function that packs a word
-- first writes it outside the block: ensure_write_capacity tells nobody of the refusal.
pub refused_growth :
    (e : Endianness) (h : Heap) (b : XdrBuf) (n : ℕ) (z : ℤ) (flag : Bool) (s : Option (List ℕ))
    → h 0 ≡ false
    → Full b
    → (xdr_pack_uint32 n e h b ≡ fault)
      × (xdr_pack_int32 z e h b ≡ fault)
      × (xdr_pack_bool flag e h b ≡ fault)
      × (xdr_pack_cstring s e h b ≡ fault)
      × (xdr_pack_opaque s n e h b ≡ fault)
unfolding xdr_pack_int32 xdr_pack_bool xdr_pack_opaque ◌>>=◌ ◌>>◌
refused_growth e h b n z flag s refused full = (
  word_outside e h b n refused full,
  word_outside e h b _ refused full,
  word_outside e h b _ refused full,
  cstring_outside e h b s refused full,
  rw (word_outside e h b n refused full) refl,
)
