-- ===== src/XdrC/Unpacking.antt =====
-- Flags, strings and opaque data as nfs3_rpc_tests_c/src/xdr_codec.c reads them, beside the class
-- XdrBuffer of nfs3_rpc_tests/src/xdr_codec.cpp.
use nfstest.Prelude.{
  ℕ, suc, ◌+◌, ◌%◌, ◌≤◌, ◌<◌, ◌≡◌, ◌^◌, refl, sym, not, Option, none, some, List, length, leb, ◌==◌,
  if◌then◌else◌, arith, Bool-cases, inl, inr, leb→le, lt→ltb, le→ltb,
}
use nfstest.Xdr.Word.{Endianness}
use nfstest.Xdr.Buffer
use nfstest.Xdr.Buffer.{
  XdrBuffer, padding_of, unpack_u32, unpack_i32, unpack_u64, unpack_bool, unpack_string,
  unpack_bytes,
}
use nfstest.XdrC.Growth.{XdrBuf, Heap, M, pure, ◌>>=◌, ◌>>◌, ensure_read_space, malloc}
use nfstest.XdrC.Capacity.{Grants, lt→leb}
use nfstest.XdrC.Codec.{
  on_word, copy_out, advance, skip, xdr_unpack_uint32, xdr_unpack_uint64, xdr_unpack_int32,
  xdr_unpack_bool, xdr_unpack_cstring, xdr_unpack_opaque, string_behind, opaque_behind,
}
use nfstest.XdrC.Agree.{view}
use nfstest.XdrC.Reading.{
  told, SameRead, Readable, SameReader, answer, word_first, SameReader-uint32, SameReader-uint64,
  SameReader-int32,
}

answer-told :
    {B : Type 0} (f : ℕ → Buffer.M B) (e : Endianness) (o : Buffer.Outcome ℕ)
    → answer none (λ a t. t) o (told (Buffer.continue o e f)) ≡ told (Buffer.continue o e f)
answer-told f e (Buffer.ok a c) = refl
answer-told f e (Buffer.threw x c) = refl
answer-told f e Buffer.fault = refl
answer-told f e Buffer.stuck = refl

module _ {B : Type 0} where
  SameReader-word :
      (f : ℕ → Buffer.M B) (k : ℕ → M (Option B))
      → ((a : ℕ) → SameReader (λ o. o) (k a) (f a))
      → SameReader (λ o. o) (xdr_unpack_uint32 >>= on_word none k) (Buffer.◌>>=◌ unpack_u32 f)
  unfolding Buffer.◌>>=◌
  SameReader-word f k q = record {
    at = λ e h b readable g.
        rw (sym (answer-told f e (unpack_u32 e (view b))))
          (word_first none (λ a t. t) f k q e h b readable g);
  }

  SameReader-pure : (a : B) → SameReader (λ o. o) (pure (some a)) (Buffer.pure a)
  unfolding pure Buffer.pure
  SameReader-pure a = record {
    at = λ e h b readable g. record {
      heap = h;
      ends = refl;
      grants = g;
      sound = record { same = refl; onward = omega arith; reach = readable.reach };
    };
  }

pub SameReader-bool : SameReader (λ o. o) xdr_unpack_bool unpack_bool
unfolding xdr_unpack_bool unpack_bool
SameReader-bool = SameReader-word _ _ (λ a. SameReader-pure (not (a == 0)))

-- What `unpack` of a string or of opaque data does behind the length.
abbrev pub counted : ℕ → Buffer.M (List ℕ)
counted len = Buffer.◌>>◌ (Buffer.ensure_read_space len) (
    Buffer.◌>>=◌ (Buffer.copy_out len) λ bytes.
      Buffer.◌>>◌ (Buffer.advance len)
        (Buffer.◌>>◌ (Buffer.advance (padding_of len)) (Buffer.pure bytes)))

room_for_null : (len : ℕ) → len + 1 < 2 ^ 32 → len < (len + 1) % 2 ^ 32
room_for_null len h = omega arith

room_for_data : (len : ℕ) → len ≤ (if len == 0 then 1 else len)
room_for_data len = ground arith

SameReader-string_behind : (len : ℕ) → SameReader (λ o. o) (string_behind len) (counted len)
unfolding string_behind ensure_read_space malloc copy_out skip advance pure ◌>>=◌ ◌>>◌ padding_of
    Buffer.ensure_read_space Buffer.copy_out Buffer.advance Buffer.pure Buffer.◌>>=◌ Buffer.◌>>◌
SameReader-string_behind len = record {
  at = λ e h b k g. elim (Bool-cases (leb (b.pos + len) (length b.contents))) [
    | inl t ↦
        rw
          (
            le→ltb (length b.contents) (b.pos + len) (leb→le _ _ t),
            t,
            g 0,
            t,
            lt→leb ((len + 1) % 2 ^ 32) len
                (room_for_null len (omega (arith, leb→le _ _ t, k.below))),
          )
          (record {
            heap = λ n. h (suc n);
            ends = refl;
            grants = λ n. g (suc n);
            sound = record { same = refl; onward = omega arith; reach = ground (arith, t) };
          })
    | inr t ↦
        rw (t, lt→ltb (length b.contents) (b.pos + len) (ground (arith, t)))
          (record {
            heap = h;
            ends = refl;
            grants = g;
            sound = record { same = refl; onward = omega arith; reach = k.reach };
          })
  ];
}

SameReader-opaque_behind : (len : ℕ) → SameReader (λ o. (len, o)) (opaque_behind len) (counted len)
unfolding opaque_behind ensure_read_space malloc copy_out skip advance pure ◌>>=◌ ◌>>◌ padding_of
    Buffer.ensure_read_space Buffer.copy_out Buffer.advance Buffer.pure Buffer.◌>>=◌ Buffer.◌>>◌
SameReader-opaque_behind len = record {
  at = λ e h b k g. elim (Bool-cases (leb (b.pos + len) (length b.contents))) [
    | inl t ↦
        rw
          (
            le→ltb (length b.contents) (b.pos + len) (leb→le _ _ t),
            t,
            g 0,
            t,
            le→ltb (if len == 0 then 1 else len) len (room_for_data len),
          )
          (record {
            heap = λ n. h (suc n);
            ends = refl;
            grants = λ n. g (suc n);
            sound = record { same = refl; onward = omega arith; reach = ground (arith, t) };
          })
    | inr t ↦
        rw (t, lt→ltb (length b.contents) (b.pos + len) (ground (arith, t)))
          (record {
            heap = h;
            ends = refl;
            grants = g;
            sound = record { same = refl; onward = omega arith; reach = k.reach };
          })
  ];
}

SameReader-cstring : SameReader (λ o. o) xdr_unpack_cstring unpack_string
unfolding xdr_unpack_cstring unpack_string
SameReader-cstring = SameReader-word _ _ SameReader-string_behind

-- Where no request for memory is refused, on a buffer of fewer than 2^32 - 1 bytes, each function
-- that unpacks gives what the method of XdrBuffer gives and 0 where that throws, and leaves the
-- position where that leaves it and the rest of its buffer alone; it reads and writes inside its
-- blocks. Opaque data leaves the length word too, if there was one.
pub unpackers_same :
    (e : Endianness) (h : Heap) (b : XdrBuf) (len : ℕ)
    → Readable b
    → Grants h
    → SameRead b (told (unpack_u32 e (view b))) (xdr_unpack_uint32 e h b) (unpack_u32 e (view b))
      × SameRead b (told (unpack_u64 e (view b))) (xdr_unpack_uint64 e h b) (unpack_u64 e (view b))
      × SameRead b (told (unpack_i32 e (view b))) (xdr_unpack_int32 e h b) (unpack_i32 e (view b))
      × SameRead b (told (unpack_bool e (view b))) (xdr_unpack_bool e h b) (unpack_bool e (view b))
      × SameRead b
          (told (unpack_string e (view b)))
          (xdr_unpack_cstring e h b)
          (unpack_string e (view b))
      × SameRead b
          (answer
            (len, none)
            (λ n o. (n, o))
            (unpack_u32 e (view b))
            (told (unpack_bytes e (view b))))
          (xdr_unpack_opaque len e h b)
          (unpack_bytes e (view b))
unfolding unpack_bytes xdr_unpack_opaque
unpackers_same e h b len k g = (
  SameReader-uint32.at e h b k g,
  SameReader-uint64.at e h b k g,
  SameReader-int32.at e h b k g,
  SameReader-bool.at e h b k g,
  SameReader-cstring.at e h b k g,
  word_first (len, none) (λ n o. (n, o)) _ opaque_behind SameReader-opaque_behind e h b k g,
)
