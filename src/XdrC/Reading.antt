-- ===== src/XdrC/Reading.antt =====
-- The functions that unpack of nfs3_rpc_tests_c/src/xdr_codec.c beside the class XdrBuffer of
-- nfs3_rpc_tests/src/xdr_codec.cpp.
use nfstest.Prelude.{
  ℕ, ◌+◌, ◌<◌, ◌≡◌, ◌^◌, refl, ap, Option, none, some, List, length, leb, arith, Bool-cases, inl,
  inr, leb→le, lt→ltb, le→ltb,
}
use nfstest.Xdr.Word.{Endianness}
use nfstest.Xdr.Buffer
use nfstest.Xdr.Buffer.{
  XdrBuffer, padding_of, unpack_u32, unpack_i32, unpack_u64, unpack_bool, unpack_string,
  unpack_bytes,
}
use nfstest.Xdr.Safety.{InReach, ReadOn, Sound, Sound-trans}
use nfstest.XdrC.Order.{same_host_order32, same_host_order64}
use nfstest.XdrC.Growth.{XdrBuf, Heap, Outcome, M, returned, pure, ◌>>=◌, ◌>>◌, ensure_read_space}
use nfstest.XdrC.Capacity.{Grants}
use nfstest.XdrC.Codec.{
  on_word, copy_out, advance, xdr_unpack_uint32, xdr_unpack_uint64, xdr_unpack_int32,
}
use nfstest.XdrC.Agree.{view}

module _ {A : Type 0} where
  -- The value that a method of XdrBuffer gave, none where it threw.
  abbrev pub told : Buffer.Outcome A → Option A
  told (Buffer.ok a c) = some a
  told (Buffer.threw x c) = none
  told Buffer.fault = none
  told Buffer.stuck = none

  -- Where it left the position.
  abbrev pub position : Buffer.Outcome A → ℕ
  position (Buffer.ok a c) = c.pos
  position (Buffer.threw x c) = c.pos
  position Buffer.fault = 0
  position Buffer.stuck = 0

-- The function of the C suite returned `a`, with the position where the method of the C++ program
-- left it, and nothing else of the buffer changed; that method did not read outside the buffer.
pub record SameRead {A B : Type 0} (b : XdrBuf) (a : B) (o : Outcome B) (p : Buffer.Outcome A)
    : Type 0 where
  pub heap : Heap
  pub ends : o ≡ returned a heap (record b { pos = position p })
  pub grants : Grants heap
  pub sound : Sound (view b) p

-- A buffer as the C suite reads it: the bytes number less than 2^32 - 1, and the position is at most
-- 3 past them.
pub record Readable (b : XdrBuf) : Type 0 where
  pub below : length b.contents + 1 < 2 ^ 32
  pub reach : InReach (view b)

-- `c` reads as `r` does, and gives what `give` makes of the value.
pub record SameReader {A B : Type 0} (give : Option A → B) (c : M B) (r : Buffer.M A) : Type 0 where
  pub at :
      (e : Endianness) (h : Heap) (b : XdrBuf)
      → Readable b
      → Grants h
      → SameRead b (give (told (r e (view b)))) (c e h b) (r e (view b))

pub SameReader-uint32 : SameReader (λ o. o) xdr_unpack_uint32 unpack_u32
unfolding xdr_unpack_uint32 unpack_u32 ensure_read_space copy_out advance Buffer.ensure_read_space
    Buffer.copy_out Buffer.advance Buffer.native_endian pure ◌>>=◌ ◌>>◌ Buffer.pure Buffer.◌>>=◌
    Buffer.◌>>◌
SameReader-uint32 = record {
  at = λ e h b k g. elim (Bool-cases (leb (b.pos + 4) (length b.contents))) [
    | inl t ↦
        rw (le→ltb (length b.contents) (b.pos + 4) (leb→le _ _ t), t, t)
          (record {
            heap = h;
            ends = rw (same_host_order32 e _) refl;
            grants = g;
            sound = record { same = refl; onward = omega arith; reach = ground (arith, t) };
          })
    | inr t ↦
        rw (t, lt→ltb (length b.contents) (b.pos + 4) (ground (arith, t)))
          (record {
            heap = h;
            ends = refl;
            grants = g;
            sound = record { same = refl; onward = omega arith; reach = k.reach };
          })
  ];
}

pub SameReader-uint64 : SameReader (λ o. o) xdr_unpack_uint64 unpack_u64
unfolding xdr_unpack_uint64 unpack_u64 ensure_read_space copy_out advance Buffer.ensure_read_space
    Buffer.copy_out Buffer.advance Buffer.native_endian pure ◌>>=◌ ◌>>◌ Buffer.pure Buffer.◌>>=◌
    Buffer.◌>>◌
SameReader-uint64 = record {
  at = λ e h b k g. elim (Bool-cases (leb (b.pos + 8) (length b.contents))) [
    | inl t ↦
        rw (le→ltb (length b.contents) (b.pos + 8) (leb→le _ _ t), t, t)
          (record {
            heap = h;
            ends = rw (same_host_order64 e _) refl;
            grants = g;
            sound = record { same = refl; onward = omega arith; reach = ground (arith, t) };
          })
    | inr t ↦
        rw (t, lt→ltb (length b.contents) (b.pos + 8) (ground (arith, t)))
          (record {
            heap = h;
            ends = refl;
            grants = g;
            sound = record { same = refl; onward = omega arith; reach = k.reach };
          })
  ];
}

pub SameReader-int32 : SameReader (λ o. o) xdr_unpack_int32 unpack_i32
unfolding xdr_unpack_int32 unpack_i32 ensure_read_space copy_out advance Buffer.ensure_read_space
    Buffer.copy_out Buffer.advance Buffer.native_endian pure ◌>>=◌ ◌>>◌ Buffer.pure Buffer.◌>>=◌
    Buffer.◌>>◌ xdr_unpack_uint32
SameReader-int32 = record {
  at = λ e h b k g. elim (Bool-cases (leb (b.pos + 4) (length b.contents))) [
    | inl t ↦
        rw (le→ltb (length b.contents) (b.pos + 4) (leb→le _ _ t), t, t)
          (record {
            heap = h;
            ends = rw (same_host_order32 e _) refl;
            grants = g;
            sound = record { same = refl; onward = omega arith; reach = ground (arith, t) };
          })
    | inr t ↦
        rw (t, lt→ltb (length b.contents) (b.pos + 4) (ground (arith, t)))
          (record {
            heap = h;
            ends = refl;
            grants = g;
            sound = record { same = refl; onward = omega arith; reach = k.reach };
          })
  ];
}

-- Behind a method that returned, the buffer is the old one with another position.
pub same_buffer :
    (b : XdrBuf) (c : XdrBuffer) → ReadOn (view b) c → c ≡ view (record b { pos = c.pos })
same_buffer b c s = ap (λ (xs : List ℕ). record c { buffer = xs }) s.same

-- What a function gives whose length word is what `o` is: `give` where there is one.
abbrev pub answer : {B C : Type 0} → C → (ℕ → Option B → C) → Buffer.Outcome ℕ → Option B → C
answer failed give (Buffer.ok a c) t = give a t
answer failed give (Buffer.threw x c) t = failed
answer failed give Buffer.fault t = failed
answer failed give Buffer.stuck t = failed

module _ {B C : Type 0} (failed : C) (give : ℕ → Option B → C) (f : ℕ → Buffer.M B) (k : ℕ → M C)
    (q : (a : ℕ) → SameReader (give a) (k a) (f a)) (e : Endianness) where
  read_on :
      (h : Heap) (b : XdrBuf) (o : Buffer.Outcome ℕ)
      → Readable b
      → Grants h
      → Sound (view b) o
      → SameRead b
          (answer failed give o (told (Buffer.continue o e f)))
          (on_word failed k (told o) e h (record b { pos = position o }))
          (Buffer.continue o e f)
  unfolding pure
  read_on h b (Buffer.ok a c) readable g s =
      let second =
        (q a).at e h (record b { pos = c.pos }) (record { below = readable.below; reach = s.reach })
          g in
      rw (same_buffer b c s) (record {
        heap = second.heap;
        ends = second.ends;
        grants = second.grants;
        sound =
            Sound-trans _ (record { same = refl; onward = s.onward; reach = s.reach }) second.sound;
      })
  read_on h b (Buffer.threw x c) readable g s = record {
    heap = h;
    ends = refl;
    grants = g;
    sound = s;
  }
  read_on h b Buffer.fault readable g s = absurd s
  read_on h b Buffer.stuck readable g s = absurd s

  -- A length word first, and then what it counts.
  pub word_first :
      (h : Heap) (b : XdrBuf)
      → Readable b
      → Grants h
      → SameRead b
          (answer failed give (unpack_u32 e (view b)) (told (Buffer.◌>>=◌ unpack_u32 f e (view b))))
          ((xdr_unpack_uint32 >>= on_word failed k) e h b)
          (Buffer.◌>>=◌ unpack_u32 f e (view b))
  unfolding ◌>>=◌ Buffer.◌>>=◌
  word_first h b readable g =
      let first = SameReader-uint32.at e h b readable g in
      rw (first.ends)
        (read_on first.heap b (unpack_u32 e (view b)) readable first.grants first.sound)
