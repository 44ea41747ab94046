-- ===== src/XdrC/Capacity.antt =====
-- `ensure_write_capacity` of nfs3_rpc_tests_c/src/xdr_codec.c.
use nfstest.Prelude.{
  ℕ, zero, suc, ◌+◌, ◌*◌, ◌%◌, ◌^◌, ◌≤◌, ◌<◌, ◌≡◌, ◌⊎◌, refl, true, false, Option, some, leb, ltb,
  ◌==◌, if◌then◌else◌, length, arith, Bool-cases, inl, inr, le→ltb, ltb→lt, leb→le,
}
use Prim.Native.Nat.{max}
use nfstest.Xdr.Word.{Endianness}
use nfstest.XdrC.Growth.{
  XdrBuf, Heap, Outcome, returned, doubled, reallocated, xdr_min_capacity, ensure_write_capacity,
}

-- The bytes written are within the capacity, and the capacity within the block.
pub record IsValid (b : XdrBuf) : Type 0 where
  pub written : length b.contents ≤ b.capacity
  pub held : b.capacity ≤ b.room

-- No request of the program is refused.
abbrev pub Grants : Heap → Type 0
Grants h = (k : ℕ) → h k ≡ true

-- `c` after `k` rounds of the loop, without wrap-around.
abbrev rounds : ℕ → ℕ → ℕ
rounds zero c = c
rounds (suc k) c = rounds k (c * 2)

record Doubled (o : Option ℕ) (needed most : ℕ) : Type 0 where
  result : ℕ
  ends : o ≡ some result
  enough : needed ≤ result
  bounded : result ≤ most

-- One round of the loop.
round :
    (k needed c : ℕ)
    → doubled (suc k) needed c
      ≡ (if ltb c needed then doubled k needed (c * 2 % 2 ^ 64) else some c)
unfolding doubled
round k needed c = refl

loop_ends :
    (k needed c most : ℕ) → needed ≤ c → c ≤ most → Doubled (doubled (suc k) needed c) needed most
loop_ends k needed c most reach h =
    rw (round k needed c, le→ltb c needed reach)
      (record { result = c; ends = refl; enough = reach; bounded = h })

no_wrap : (c : ℕ) → c < 2 ^ 63 → c * 2 % 2 ^ 64 ≡ c * 2
no_wrap c h = omega arith

doubled-Doubled :
    (k needed c most : ℕ)
    → needed ≤ 2 ^ 63
    → needed ≤ rounds k c
    → needed * 2 ≤ most
    → c ≤ most
    → Doubled (doubled (suc k) needed c) needed most
doubled-Doubled zero needed c most small reach twice h = loop_ends zero needed c most reach h
doubled-Doubled (suc k) needed c most small reach twice h = elim (Bool-cases (ltb c needed)) [
  | inl t ↦
      rw (round (suc k) needed c, t, no_wrap c (omega (arith, ltb→lt c needed t)))
        (doubled-Doubled k needed (c * 2) most small reach twice (omega (arith, ltb→lt c needed t)))
  | inr t ↦ loop_ends (suc k) needed c most (ground (arith, t)) h
]

-- What is left when `bytes` more bytes have been asked for.
pub record Ready (b : XdrBuf) (bytes most : ℕ) (o : Outcome (Unit {0})) : Type 0 where
  pub heap : Heap
  pub room : ℕ
  pub capacity : ℕ
  pub ends : o ≡ returned tt heap (record b { room = room; capacity = capacity })
  pub grants : Grants heap
  pub enough : length b.contents + bytes ≤ capacity
  pub held : capacity ≤ room
  pub bounded : (capacity ≡ b.capacity) ⊎ (capacity ≤ most)

pub lt→leb : (m n : ℕ) → n < m → leb m n ≡ false
lt→leb m n h = ground arith

no_wrap_sum : (n : ℕ) → n ≤ 2 ^ 63 → n % 2 ^ 64 ≡ n
no_wrap_sum n h = omega arith

doubles_far : (c needed : ℕ) → 0 < c → needed ≤ 2 ^ 63 → needed ≤ rounds 63 (c * 2)
doubles_far c needed h small = omega arith

grown_enough :
    (needed c : ℕ)
    → needed ≤ 2 ^ 63
    → c < needed
    → Doubled
        (doubled 64 needed (if c == 0 then xdr_min_capacity else c * 2 % 2 ^ 64))
        needed
        (max 64 (needed * 2))
grown_enough needed c small short = elim (Bool-cases (c == 0)) [
  | inl t ↦ rw (t) (doubled-Doubled 63 needed 64 _ small (omega arith) (omega arith) (omega arith))
  | inr t ↦
      rw (t, no_wrap c (omega arith))
        (doubled-Doubled 63 needed (c * 2) _ small (doubles_far c needed (ground (arith, t)) small)
          (omega arith) (omega arith))
]

-- A refused request leaves the buffer as it is, and the function returns all the same.
pub refused_capacity :
    (e : Endianness) (h : Heap) (b : XdrBuf) (bytes : ℕ)
    → h 0 ≡ false
    → b.capacity < length b.contents + bytes
    → length b.contents + bytes ≤ 2 ^ 63
    → ensure_write_capacity bytes e h b ≡ returned tt (λ k. h (suc k)) b
unfolding ensure_write_capacity reallocated
refused_capacity e h b bytes refused short small =
    let d = grown_enough (length b.contents + bytes) b.capacity small short in
    rw
      (
        no_wrap_sum (length b.contents + bytes) small,
        lt→leb (length b.contents + bytes) b.capacity short,
        d.ends,
        refused,
      )
      refl

granted :
    (e : Endianness) (h : Heap) (b : XdrBuf) (bytes most : ℕ) (o : Option ℕ)
    → Grants h
    → Doubled o (length b.contents + bytes) most
    → Ready b bytes most (reallocated o e h b)
unfolding reallocated
granted e h b bytes most o g d =
    rw (d.ends, g 0)
      (record {
        heap = λ k. h (suc k);
        room = d.result;
        capacity = d.result;
        ends = refl;
        grants = λ k. g (suc k);
        enough = d.enough;
        held = omega arith;
        bounded = inr d.bounded;
      })

-- Where no request is refused and at most 2^63 bytes are needed, ensure_write_capacity comes to
-- an end after at most 64 rounds of its loop: the capacity is then enough for the bytes asked for,
-- the block has it, the bytes written and the position are what they were, and the capacity is the
-- old one or at most twice the bytes needed, or at most 64 if that is more.
pub ensure_write_capacity-Ready :
    (e : Endianness) (h : Heap) (b : XdrBuf) (bytes : ℕ)
    → IsValid b
    → Grants h
    → length b.contents + bytes ≤ 2 ^ 63
    → Ready b bytes (max 64 ((length b.contents + bytes) * 2)) (ensure_write_capacity bytes e h b)
unfolding ensure_write_capacity
ensure_write_capacity-Ready e h b bytes v g small =
    rw (no_wrap_sum (length b.contents + bytes) small)
      (elim (Bool-cases (leb (length b.contents + bytes) b.capacity)) [
        | inl t ↦ rw (t) (record {
          heap = h;
          room = b.room;
          capacity = b.capacity;
          ends = refl;
          grants = g;
          enough = leb→le _ _ t;
          held = v.held;
          bounded = inl refl;
        })
        | inr t ↦ rw (t) (
            granted e h b bytes _ _ g
              (grown_enough (length b.contents + bytes) b.capacity small (ground (arith, t))))
      ])
