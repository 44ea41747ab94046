-- ===== src/Nfs/Chain/Safety.antt =====
-- Linked entries: reading stays inside the buffer, and ends.
use nfstest.Prelude.{
  ℕ, zero, suc, ◌+◌, ◌≤◌, ◌<◌, Bool, true, false, List, [], ◌∷◌, length, arith, if◌then◌else◌,
}
use nfstest.Xdr.Word.{Endianness}
use nfstest.Xdr.Buffer.{XdrBuffer, M, pure, ◌>>=◌, unpack_bool}
use nfstest.Xdr.Codec.{Codec, Fresh, unpack, fresh}
use nfstest.Xdr.Safety.{
  InReach, Sound, Safe, ReadOn-InReach, ReadOn-refl, Sound-bind, Safe-bool, Safe-pure,
  unpack_bool_took,
}
use nfstest.Nfs.Chain.{unpack_chain, unpack_entries}

-- The fuel covers the bytes that are left to read.
abbrev IsEnough : ℕ → XdrBuffer → Type 0
IsEnough fuel b = (1 ≤ fuel) × (length b.buffer < b.pos + fuel)

next-Sound :
    {A : Type 0} (has_next : Bool) (e : Endianness) (b : XdrBuffer) (rest : M (List A))
    → InReach b
    → Sound b (rest e b)
    → Sound b ((if has_next then rest else pure []) e b)
unfolding pure
next-Sound true e b rest h k = k
next-Sound false e b rest h k = ReadOn-refl h

module _ {A : Type 0} ⦃c : Codec A⦄ ⦃f : Fresh A⦄ (item : (old : A) → Safe (unpack old)) where
  unpack_chain-Sound :
      (fuel : ℕ) (e : Endianness) (b : XdrBuffer)
      → InReach b
      → IsEnough fuel b
      → Sound b (unpack_chain {A = A} fuel e b)
  unfolding unpack_chain ◌>>=◌
  unpack_chain-Sound zero e b h k = absurd (omega arith)
  unpack_chain-Sound (suc fuel) e b h k =
      Sound-bind b (unpack fresh e b) e _ ((item fresh).at e b h) λ entry b1 _ h1.
        Sound-bind b1 (unpack_bool e b1) e _ (Safe-bool.at e b1 (ReadOn-InReach h1))
          λ has_next b2 took h2.
            Sound-bind b2 _ e _
              (next-Sound has_next e b2 _ (ReadOn-InReach h2) (
                unpack_chain-Sound fuel e b2 (ReadOn-InReach h2)
                  (ground (arith, unpack_bool_took e b1 has_next b2))))
              (λ next b3 _ h3. (Safe-pure (entry ∷ next)).at e b3 (ReadOn-InReach h3))

  pub Safe-entries : Safe (unpack_entries {A = A})
  unfolding unpack_entries
  Safe-entries = record {
    at = λ e b h. unpack_chain-Sound (suc (length b.buffer)) e b h (omega arith, omega arith);
  }
