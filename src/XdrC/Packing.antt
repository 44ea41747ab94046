-- ===== src/XdrC/Packing.antt =====
-- What the functions that pack append: nfs3_rpc_tests_c/src/xdr_codec.c.
use nfstest.Prelude.{
  ℕ, ◌+◌, ◌≤◌, ◌≡◌, ◌^◌, refl, sym, ap, Bool, true, some, List, [], ◌++◌, append-nil, append_assoc,
  ltb, ◌==◌, if◌then◌else◌, length, length-append, length-replicate, take-length, replicate, arith,
  Bool-cases, inl, inr, le→leb, lt→ltb, ◌∷◌,
}
use nfstest.Xdr.Word.{
  Endianness, network_bytes32, network_bytes64, network_order32, network_order64,
}
use nfstest.Xdr.Int.{ℤ, to_u32}
use nfstest.Xdr.Buffer.{padding_of}
use nfstest.Xdr.Wire.{IsAligned}
use nfstest.Xdr.Opaque.{network_opaque, pad, IsShort, same_padding, length_word}
use nfstest.XdrC.Order.{same_order32, same_order64}
use nfstest.XdrC.Growth.{
  XdrBuf, Heap, Outcome, M, returned, pure, append, ensure_write_capacity, ◌>>=◌, ◌>>◌,
}
use nfstest.XdrC.Capacity.{IsValid, Grants, ensure_write_capacity-Ready}
use nfstest.XdrC.Codec.{
  xdr_pack_uint32, xdr_pack_uint64, xdr_pack_int32, xdr_pack_bool, pad_to_4_bytes, append_copy,
  xdr_pack_cstring, xdr_pack_bytes, xdr_pack_opaque,
}

-- The function returned, and the buffer then has these bytes and this position, and room for them.
pub record Left (contents : List ℕ) (pos : ℕ) (o : Outcome (Unit {0})) : Type 0 where
  pub heap : Heap
  pub room : ℕ
  pub capacity : ℕ
  pub ends :
      o
      ≡ returned tt heap
          (record { contents = contents; room = room; capacity = capacity; pos = pos })
  pub grants : Grants heap
  pub written : length contents ≤ capacity
  pub held : capacity ≤ room

-- On a buffer that has `front`, `w` appends `bytes`, as long as the buffer stays below 2^63 bytes
-- and no request is refused.
pub record Appends (front : List ℕ) (w : M (Unit {0})) (bytes : List ℕ) : Type 0 where
  pub appends :
      (e : Endianness) (h : Heap) (b : XdrBuf)
      → b.contents ≡ front
      → IsValid b
      → Grants h
      → length (front ++ bytes) ≤ 2 ^ 63
      → Left (front ++ bytes) b.pos (w e h b)

pub Appends-pure : (front : List ℕ) → Appends front (pure tt) []
unfolding pure
Appends-pure front = record {
  appends = λ e h b same v g small. record {
    heap = h;
    room = b.room;
    capacity = b.capacity;
    ends = rw (append-nil front, sym same) refl;
    grants = g;
    written = rw (append-nil front, sym same) v.written;
    held = v.held;
  };
}

pub Appends->> :
    {w v : M (Unit {0})} (front xs ys : List ℕ)
    → Appends front w xs
    → Appends (front ++ xs) v ys
    → Appends front (w >> v) (xs ++ ys)
unfolding ◌>>◌ ◌>>=◌
Appends->> {v = v} front xs ys p q = record {
  appends = λ e h b same k g small.
      let first = p.appends e h b same k g (
        omega
          (arith, length-append front xs, length-append front (xs ++ ys), length-append xs ys)) in
      rw (first.ends, sym (append_assoc front xs ys))
        (q.appends e first.heap
          (record {
            contents = front ++ xs;
            room = first.room;
            capacity = first.capacity;
            pos = b.pos;
          })
          refl (record { written = first.written; held = first.held }) first.grants
          (rw (append_assoc front xs ys) small));
}

-- `ensure_write_capacity` and the copy of as many bytes behind it.
put :
    (front bytes : List ℕ) (n : ℕ) (f : Endianness → List ℕ)
    → ((e : Endianness) → f e ≡ bytes)
    → length bytes ≡ n
    → Appends front (ensure_write_capacity n >> λ e. append (f e) e) bytes
unfolding ◌>>◌ ◌>>=◌ append
put front bytes n f same size = record {
  appends = λ e h b at v g small.
      let ready =
        ensure_write_capacity-Ready e h b n v g
          (omega (arith, ap length at, size, length-append front bytes)) in
      rw
        (
          ready.ends,
          same e,
          le→leb (length b.contents + length bytes) ready.room
              (omega (arith, ready.enough, ready.held, size)),
        )
        record {
          heap = ready.heap;
          room = ready.room;
          capacity = ready.capacity;
          ends = rw (at) refl;
          grants = ready.grants;
          written = omega (arith, ap length at, size, ready.enough, length-append front bytes);
          held = ready.held;
        };
}

pub uint32-Appends :
    (front : List ℕ) (val : ℕ) → Appends front (xdr_pack_uint32 val) (network_bytes32 val)
unfolding xdr_pack_uint32
uint32-Appends front val =
    put front (network_bytes32 val) 4 _ (λ e. rw (same_order32 e val) (network_order32 e val)) refl

pub uint64-Appends :
    (front : List ℕ) (val : ℕ) → Appends front (xdr_pack_uint64 val) (network_bytes64 val)
unfolding xdr_pack_uint64
uint64-Appends front val =
    put front (network_bytes64 val) 8 _ (λ e. rw (same_order64 e val) (network_order64 e val)) refl

pub int32-Appends :
    (front : List ℕ) (val : ℤ) → Appends front (xdr_pack_int32 val) (network_bytes32 (to_u32 val))
unfolding xdr_pack_int32
int32-Appends front val = uint32-Appends front (to_u32 val)

pub bool-Appends :
    (front : List ℕ) (val : Bool)
    → Appends front (xdr_pack_bool val) (network_bytes32 (if val then 1 else 0))
unfolding xdr_pack_bool
bool-Appends front val = uint32-Appends front (if val then 1 else 0)

copy-Appends :
    (front bytes : List ℕ)
    → Appends front
        (if ltb 0 (length bytes) then append_copy bytes (length bytes) else pure tt)
        bytes
unfolding append_copy
copy-Appends front [] = Appends-pure front
copy-Appends front (x ∷ bytes) =
    rw
      (
        lt→ltb 0 (length (x ∷ bytes)) (omega arith),
        le→leb (length (x ∷ bytes)) (length (x ∷ bytes)) (omega arith),
        take-length (x ∷ bytes),
      )
      (put front (x ∷ bytes) (length (x ∷ bytes)) (λ e. x ∷ bytes) (λ e. refl) refl)

no_padding : (n : ℕ) → (n == 0) ≡ true → n ≡ 0
no_padding n t = ground (arith, t)

zeros-Appends :
    (front : List ℕ) (n : ℕ)
    → Appends front
        (if n == 0 then pure tt else (ensure_write_capacity n >> append (replicate n 0)))
        (replicate n 0)
zeros-Appends front n = elim (Bool-cases (n == 0)) [
  | inl t ↦ rw (t, no_padding n t) (Appends-pure front)
  | inr t ↦
      rw (t) (put front (replicate n 0) n (λ e. replicate n 0) (λ e. refl) (length-replicate n 0))
]

same_length : {xs ys : List ℕ} → xs ≡ ys → length xs ≡ length ys
same_length at = ap (λ t. length t) at

padding-Appends :
    (front : List ℕ) → Appends front pad_to_4_bytes (replicate (padding_of (length front)) 0)
unfolding pad_to_4_bytes padding_of
padding-Appends front = record {
  appends = λ e h b at v g small.
      rw (same_length at)
        ((zeros-Appends front (padding_of (length front))).appends e h b at v g small);
}

-- The length, the bytes and the padding, behind whole units.
opaque_layout :
    (front bytes : List ℕ) (copy : M (Unit {0}))
    → IsAligned front
    → Appends (front ++ network_bytes32 (length bytes)) copy bytes
    → Appends front
        (xdr_pack_uint32 (length bytes) >> (copy >> pad_to_4_bytes))
        (network_opaque bytes)
opaque_layout front bytes copy aligned p =
    Appends->> front (network_bytes32 (length bytes)) (bytes ++ pad bytes)
      (uint32-Appends front (length bytes))
      (Appends->> (front ++ network_bytes32 (length bytes)) bytes (pad bytes) p (
        rw (sym (same_padding front bytes aligned))
          (padding-Appends ((front ++ network_bytes32 (length bytes)) ++ bytes))))

pub cstring-Appends :
    (front s : List ℕ)
    → IsAligned front
    → IsShort s
    → Appends front (xdr_pack_cstring (some s)) (network_opaque s)
unfolding xdr_pack_cstring
cstring-Appends front s aligned short =
    rw (length_word s short)
      (opaque_layout front s _ aligned (copy-Appends (front ++ network_bytes32 (length s)) s))

pub opaque-Appends :
    (front bytes : List ℕ)
    → IsAligned front
    → Appends front (xdr_pack_opaque (some bytes) (length bytes)) (network_opaque bytes)
unfolding xdr_pack_opaque xdr_pack_bytes
opaque-Appends front bytes aligned =
    opaque_layout front bytes _ aligned
      (copy-Appends (front ++ network_bytes32 (length bytes)) bytes)
