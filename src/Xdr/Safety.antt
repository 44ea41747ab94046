-- ===== src/Xdr/Safety.antt =====
-- Reading never looks outside the buffer: rules for the methods that read.
use nfstest.Prelude.{
  ℕ, ◌+◌, ◌≤◌, ◌≡◌, refl, Bool, true, false, arith, length, le→leb, le→ltb, lt→ltb, if◌then◌else◌,
  inl, inr, ◌⊎◌, ◌∙◌, ◌<◌,
}
use nfstest.Xdr.Word.{Endianness}
use nfstest.Xdr.Buffer.{
  XdrBuffer, Outcome, M, ok, threw, fault, stuck, pure, ◌>>=◌, ◌>>◌, continue, copy_out, advance,
  ensure_read_space, padding_of, unpack_u32, unpack_i32, unpack_u64, unpack_bool, unpack_string,
  unpack_bytes,
}

-- The read position may stand at most 3 bytes past the end, behind padding that was not checked.
abbrev pub InReach : XdrBuffer → Type 0
InReach b = b.pos ≤ length b.buffer + 3

-- From `b` to `c`: the bytes are the same, and the position has not gone back.
pub record ReadOn (b c : XdrBuffer) : Type 0 where
  pub same : c.buffer ≡ b.buffer
  pub onward : b.pos ≤ c.pos
  pub reach : c.pos ≤ length b.buffer + 3

-- The method returned or threw, having only read on: it did not read outside the buffer, and its
-- recursion ended.
abbrev pub Sound : {A : Type 0} → XdrBuffer → Outcome A → Type 0
Sound b (ok a c) = ReadOn b c
Sound b (threw x c) = ReadOn b c
Sound b fault = ⊥
Sound b stuck = ⊥

pub record Safe {A : Type 0} (r : M A) : Type 0 where
  pub at : (e : Endianness) (b : XdrBuffer) → InReach b → Sound b (r e b)

pub ReadOn-trans : {b c d : XdrBuffer} → ReadOn b c → ReadOn c d → ReadOn b d
ReadOn-trans h k = record { same = k.same ∙ h.same; onward = omega arith; reach = ground arith }

pub ReadOn-InReach : {b c : XdrBuffer} → ReadOn b c → InReach c
ReadOn-InReach h = rw h.same h.reach

pub ReadOn-refl : {b : XdrBuffer} → InReach b → ReadOn b b
ReadOn-refl h = record { same = refl; onward = omega arith; reach = h }

module _ {A : Type 0} where
  pub Sound-trans : {b c : XdrBuffer} (o : Outcome A) → ReadOn b c → Sound c o → Sound b o
  Sound-trans (ok a d) h k = ReadOn-trans h k
  Sound-trans (threw x d) h k = ReadOn-trans h k
  Sound-trans fault h k = k
  Sound-trans stuck h k = k

  pub Safe-pure : (a : A) → Safe (pure a)
  unfolding pure
  Safe-pure a = record { at = λ e b h. ReadOn-refl h }

  pub Safe-if : (flag : Bool) (r s : M A) → Safe r → Safe s → Safe (if flag then r else s)
  Safe-if true r s p q = p
  Safe-if false r s p q = q

module _ {A B : Type 0} where
  -- The rest of the method may use what the first part gave.
  pub Sound-bind :
      (b : XdrBuffer) (o : Outcome A) (e : Endianness) (f : A → M B)
      → Sound b o
      → ((a : A) (c : XdrBuffer) → o ≡ ok a c → ReadOn b c → Sound c (f a e c))
      → Sound b (continue o e f)
  Sound-bind b (ok a c) e f h k = Sound-trans (f a e c) h (k a c refl h)
  Sound-bind b (threw x c) e f h k = h
  Sound-bind b fault e f h k = h
  Sound-bind b stuck e f h k = h

  pub Safe->>= : (r : M A) (f : A → M B) → Safe r → ((a : A) → Safe (f a)) → Safe (r >>= f)
  unfolding ◌>>=◌
  Safe->>= r f p q = record {
    at =
        λ e b h. Sound-bind b (r e b) e f (p.at e b h) (λ a c _ k. (q a).at e c (ReadOn-InReach k));
  }

le-or-lt : (m n : ℕ) → (m ≤ n) ⊎ (n < m)
le-or-lt m n = grind arith

padding_of-le : (n : ℕ) → padding_of n ≤ 3
unfolding padding_of
padding_of-le n = omega arith

pub Safe-u32 : Safe unpack_u32
unfolding unpack_u32 ensure_read_space copy_out advance
Safe-u32 = record {
  at = λ e b h. elim (le-or-lt (b.pos + 4) (length b.buffer)) [
    | inl fits ↦
        rw (le→ltb _ _ fits, le→leb _ _ fits)
          (record { same = refl; onward = omega arith; reach = omega arith })
    | inr short ↦ rw (lt→ltb _ _ short) (ReadOn-refl h)
  ];
}

pub Safe-i32 : Safe unpack_i32
unfolding unpack_i32 ensure_read_space copy_out advance
Safe-i32 = record {
  at = λ e b h. elim (le-or-lt (b.pos + 4) (length b.buffer)) [
    | inl fits ↦
        rw (le→ltb _ _ fits, le→leb _ _ fits)
          (record { same = refl; onward = omega arith; reach = omega arith })
    | inr short ↦ rw (lt→ltb _ _ short) (ReadOn-refl h)
  ];
}

pub Safe-u64 : Safe unpack_u64
unfolding unpack_u64 ensure_read_space copy_out advance
Safe-u64 = record {
  at = λ e b h. elim (le-or-lt (b.pos + 8) (length b.buffer)) [
    | inl fits ↦
        rw (le→ltb _ _ fits, le→leb _ _ fits)
          (record { same = refl; onward = omega arith; reach = omega arith })
    | inr short ↦ rw (lt→ltb _ _ short) (ReadOn-refl h)
  ];
}

pub Safe-bool : Safe unpack_bool
unfolding unpack_bool
Safe-bool = Safe->>= _ _ Safe-u32 (λ n. Safe-pure _)

-- A flag that was read is 4 bytes long, and lay in the buffer.
pub unpack_bool_took :
    (e : Endianness) (b : XdrBuffer) (v : Bool) (c : XdrBuffer)
    → unpack_bool e b ≡ ok v c
    → (b.pos + 4 ≡ c.pos) × (c.pos ≤ length b.buffer)
unfolding unpack_bool unpack_u32 ensure_read_space copy_out advance
unpack_bool_took e b v c h = ground arith

-- The data behind a length word, whatever the word says.
Safe-opaque :
    (len : ℕ)
    → Safe do
      ensure_read_space len
      bytes ← copy_out len
      advance len
      advance (padding_of len)
      pure bytes
unfolding ◌>>=◌ ◌>>◌ pure ensure_read_space copy_out advance
Safe-opaque len = record {
  at = λ e b h. elim (le-or-lt (b.pos + len) (length b.buffer)) [
    | inl fits ↦
        rw (le→ltb _ _ fits, le→leb _ _ fits)
          (record { same = refl; onward = omega arith; reach = omega (arith, padding_of-le len) })
    | inr short ↦ rw (lt→ltb _ _ short) (ReadOn-refl h)
  ];
}

pub Safe-bytes : Safe unpack_bytes
unfolding unpack_bytes
Safe-bytes = Safe->>= _ _ Safe-u32 Safe-opaque

pub Safe-string : Safe unpack_string
unfolding unpack_string
Safe-string = Safe->>= _ _ Safe-u32 Safe-opaque

pub ruleset safe_rules =
    (Safe->>=, Safe-pure, Safe-if, Safe-u32, Safe-i32, Safe-u64, Safe-bool, Safe-bytes, Safe-string)
