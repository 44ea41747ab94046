-- ===== src/Nfs/Chain/RoundTrip.antt =====
-- Linked entries: read back as written.
use nfstest.Prelude.{
  ◌≡◌, if◌then◌else◌, ℕ, zero, suc, ◌≤◌, true, false, List, [], ◌∷◌, ◌++◌, length, length-append,
  arith,
}
use nfstest.Xdr.Word.{network_bytes32}
use nfstest.Xdr.Buffer.{pure}
use nfstest.Xdr.Codec.{Codec, Fresh, pack, unpack, fresh}
use nfstest.Xdr.Wire.{
  Packs, Reads, Packs->>, Reads->>=, Reads-last, Wire, Wire-skip, Packs-pure, Reads-pure, between,
}
use nfstest.Xdr.Words.{flag_word, pack_bool-Packs, unpack_bool-Reads}
use nfstest.Nfs.Chain.{is_set, pack_chain, unpack_chain, unpack_entries}

abbrev pub All : {A : Type 0} → (A → Type 0) → List A → Type 0
All P [] = Unit
All P (x ∷ xs) = P x × All P xs

module _ {A : Type 0} ⦃c : Codec A⦄ ⦃f : Fresh A⦄ {P : A → Type 0}
    (item : (a : A) → P a → Wire (pack a) (unpack fresh) a) where
  -- What the entries are on the wire.
  chain_bytes : (xs : List A) → All P xs → List ℕ
  chain_bytes [] h = []
  chain_bytes (x ∷ xs) (p, h) =
      (item x p).bytes ++ (network_bytes32 (flag_word (is_set xs)) ++ chain_bytes xs h)

  pack_chain-Packs : (xs : List A) (h : All P xs) → Packs (pack_chain xs) (chain_bytes xs h)
  unfolding pack_chain chain_bytes
  pack_chain-Packs [] h = Packs-pure
  pack_chain-Packs (x ∷ xs) (p, h) =
      Packs->> (item x p).packs (Packs->> (pack_bool-Packs (is_set xs)) (pack_chain-Packs xs h))

  unpack_chain-Reads :
      (fuel : ℕ) (x : A) (xs : List A) (h : All P (x ∷ xs))
      → length xs ≤ fuel
      → Reads (unpack_chain (suc fuel)) (chain_bytes (x ∷ xs) h) (x ∷ xs)
  unfolding unpack_chain chain_bytes
  unpack_chain-Reads fuel x [] (p, h) k =
      Reads->>= _ (item x p).reads
        (Reads->>= _ (unpack_bool-Reads false) (Reads-last _ (Reads-pure [])))
  unpack_chain-Reads zero x (y ∷ ys) (p, h) k = absurd (omega arith)
  unpack_chain-Reads (suc fuel) x (y ∷ ys) (p, h) k = Reads->>= _ (item x p).reads (
      Reads->>= _ (unpack_bool-Reads true)
        (Reads-last _ (unpack_chain-Reads fuel y ys h (omega arith))))

  length-chain_bytes : (xs : List A) (h : All P xs) → length xs ≤ length (chain_bytes xs h)
  unfolding chain_bytes
  length-chain_bytes [] h = omega arith
  length-chain_bytes (x ∷ xs) (p, h) = omega (
    arith,
    length-chain_bytes xs h,
    length-append (item x p).bytes (network_bytes32 (flag_word (is_set xs)) ++ chain_bytes xs h),
  )

  -- Entries behind a pointer that is not null.
  pub Wire-entries :
      (x : A) (xs : List A) → All P (x ∷ xs) → Wire (pack_chain (x ∷ xs)) unpack_entries (x ∷ xs)
  unfolding unpack_entries between
  Wire-entries x xs h = record {
    bytes = chain_bytes (x ∷ xs) h;
    packs = pack_chain-Packs (x ∷ xs) h;
    reads = record {
      consumes = λ e front back.
          (unpack_chain-Reads (length (front ++ (chain_bytes (x ∷ xs) h ++ back))) x xs h (
              omega (
                arith,
                length-chain_bytes (x ∷ xs) h,
                length-append front (chain_bytes (x ∷ xs) h ++ back),
                length-append (chain_bytes (x ∷ xs) h) back,
              ))).consumes
            e front back;
    };
  }

-- The entries fit; an empty list leaves nothing of the old one to see.
abbrev pub ChainFits : {A : Type 0} → (A → Type 0) → List A → List A → Type 0
ChainFits P old [] = old ≡ []
ChainFits P old (x ∷ xs) = All P (x ∷ xs)

module _ {A : Type 0} ⦃c : Codec A⦄ ⦃f : Fresh A⦄ {P : A → Type 0}
    (item : (a : A) → P a → Wire (pack a) (unpack fresh) a) where
  pub Wire-chain :
      (old v : List A)
      → ChainFits P old v
      → Wire (pack_chain v) (if is_set v then unpack_entries else pure old) v
  unfolding pack_chain
  Wire-chain old [] h = Wire-skip h
  Wire-chain old (x ∷ xs) h = Wire-entries item x xs h
