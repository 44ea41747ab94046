-- ===== src/Tirpc/Agree.antt =====
-- Rules to show that the functions of nfs3_rpc_tests/src/nfs3_xdr.cpp put the same bytes on a
-- stream as a `serialize` puts into an XdrBuffer, and what they make of these bytes.
pub mod Values
pub mod Attributes
pub mod SetAttributes
pub mod Listing
pub mod Args
pub mod NameArgs
pub mod FileReplies
pub mod NameReplies
pub mod VolumeReplies
pub mod Reply
pub mod AllArgs
pub mod AllReplies
use nfstest.Prelude.{ℕ, ◌≡◌, refl, ap, ◌∙◌, sym, Bool, true, false, List, [], ◌++◌, if◌then◌else◌}
use nfstest.Xdr.Buffer
use nfstest.Xdr.Word.{Endianness}
use nfstest.Xdr.Wire.{Packs, Packs->>, Packs-pure}
use nfstest.Tirpc.Stream.{
  Op, encode, decode, M, done, undefined, pure, halt, ◌>>=◌, XdrLib, XdrLaws,
}

module _ ⦃lib : XdrLib⦄ (laws : XdrLaws lib) where
  open laws use {Moves, none_moves, moves_split}

  -- `w` packs `bytes`; `writes` encodes the same bytes and leaves `a`, and `reads` decodes them
  -- with the outcome `end` behind them.
  pub record Agrees {A : Type 0} (w : Buffer.M (Unit {0})) (writes reads : M lib.Stream A) (a : A)
      (end : M lib.Stream A) : Type 0 where
    pub bytes : List ℕ
    pub packs : Packs w bytes
    pub encodes : (s t : lib.Stream) → Moves encode s bytes t → writes s ≡ done a t
    pub decodes : (s t : lib.Stream) → Moves decode s bytes t → reads s ≡ end t

  runs->>= :
      {A B : Type 0} {op : Op} {m : M lib.Stream A} {a : A} {end : M lib.Stream B} {xs ys : List ℕ}
      (k : A → M lib.Stream B)
      → ((s t : lib.Stream) → Moves op s xs t → m s ≡ done a t)
      → ((s t : lib.Stream) → Moves op s ys t → k a s ≡ end t)
      → (s t : lib.Stream) → Moves op s (xs ++ ys) t
      → (m >>= k) s ≡ end t
  unfolding ◌>>=◌
  runs->>= {op = op} {xs = xs} {ys = ys} k p q s t moved =
      let (mid, first, second) = moves_split op s t xs ys moved in
      rw (p s mid first) (q mid t second)

  stops->>= :
      {A B : Type 0} {op : Op} {m : M lib.Stream A} {xs : List ℕ} (ys : List ℕ)
      (k : A → M lib.Stream B)
      → ((s t : lib.Stream) → Moves op s xs t → m s ≡ undefined)
      → (s t : lib.Stream) → Moves op s (xs ++ ys) t
      → (m >>= k) s ≡ undefined
  unfolding ◌>>=◌
  stops->>= {op = op} {xs = xs} ys k p s t moved =
      let (mid, first, second) = moves_split op s t xs ys moved in rw (p s mid first)

module _ ⦃lib : XdrLib⦄ {laws : XdrLaws lib} where
  module _ {A B : Type 0} {w v : Buffer.M (Unit {0})} {m n : M lib.Stream A} {a : A} {c : B}
      (k l : A → M lib.Stream B) where
    pub Agrees-then :
        {end : M lib.Stream B} (b : A)
        → Agrees laws w m n a (done b)
        → Agrees laws v (k a) (l b) c end
        → Agrees laws (Buffer.◌>>◌ w v) (m >>= k) (n >>= l) c end
    Agrees-then b p q = record {
      bytes = p.bytes ++ q.bytes;
      packs = Packs->> p.packs q.packs;
      encodes = runs->>= laws k p.encodes q.encodes;
      decodes = runs->>= laws l p.decodes q.decodes;
    }

    -- Behind what cannot be decoded the rest need only be encoded.
    pub Agrees-lost :
        {rest : M lib.Stream B} (b : A)
        → Agrees laws w m n a (halt undefined)
        → Agrees laws v (k a) (l b) c rest
        → Agrees laws (Buffer.◌>>◌ w v) (m >>= k) (n >>= l) c (halt undefined)
    unfolding halt
    Agrees-lost b p q = record {
      bytes = p.bytes ++ q.bytes;
      packs = Packs->> p.packs q.packs;
      encodes = runs->>= laws k p.encodes q.encodes;
      decodes = stops->>= laws q.bytes l p.decodes;
    }

  pub Agrees-pure :
      {A : Type 0} (a b : A) → Agrees laws (Buffer.pure tt) (pure a) (pure b) a (done b)
  unfolding pure
  Agrees-pure a b = record {
    bytes = [];
    packs = Packs-pure;
    encodes = λ s t moved. ap (done a) (laws.none_moves encode s t moved);
    decodes = λ s t moved. ap (done b) (laws.none_moves decode s t moved);
  }

  module _ {A B : Type 0} {w : Buffer.M (Unit {0})} {m n : M lib.Stream A} {a : A} where
    pub Agrees-last :
        {b : A} (g h : A → B)
        → Agrees laws w m n a (done b)
        → Agrees laws w (m >>= λ x. pure (g x)) (n >>= λ x. pure (h x)) (g a) (done (h b))
    unfolding ◌>>=◌ pure
    Agrees-last g h p = record {
      bytes = p.bytes;
      packs = p.packs;
      encodes = λ s t moved. rw (p.encodes s t moved);
      decodes = λ s t moved. rw (p.decodes s t moved);
    }

    pub Agrees-last_lost :
        (g h : A → B)
        → Agrees laws w m n a (halt undefined)
        → Agrees laws w (m >>= λ x. pure (g x)) (n >>= λ x. pure (h x)) (g a) (halt undefined)
    unfolding ◌>>=◌ pure halt
    Agrees-last_lost g h p = record {
      bytes = p.bytes;
      packs = p.packs;
      encodes = λ s t moved. rw (p.encodes s t moved);
      decodes = λ s t moved. rw (p.decodes s t moved);
    }

  -- A local object to start from.
  pub Agrees-start :
      {A B : Type 0} {v : Buffer.M (Unit {0})} {c : B} {end : M lib.Stream B}
      (k l : A → M lib.Stream B) (a b : A)
      → Agrees laws v (k a) (l b) c end
      → Agrees laws v (pure a >>= k) (pure b >>= l) c end
  unfolding ◌>>=◌ pure
  Agrees-start k l a b p = p

  -- Both sides branch on a flag that is on the wire.
  pub Agrees-if :
      {A : Type 0} {w v : Buffer.M (Unit {0})} {m n k l : M lib.Stream A} {a : A}
      {end : M lib.Stream A} (flag : Bool)
      → (flag ≡ true → Agrees laws w m n a end)
      → (flag ≡ false → Agrees laws v k l a end)
      → Agrees laws (if flag then w else v) (if flag then m else k) (if flag then n else l) a end
  Agrees-if true p q = p refl
  Agrees-if false p q = q refl

  pub Agrees-skip :
      {A : Type 0} {a b c : A} → b ≡ c → Agrees laws (Buffer.pure tt) (pure a) (pure b) a (done c)
  Agrees-skip {a = a} {b = b} p = rw (← p) (Agrees-pure a b)

  pub Agrees-eq :
      {A : Type 0} {w : Buffer.M (Unit {0})} {m n : M lib.Stream A} {a b c : A}
      → b ≡ c
      → Agrees laws w m n a (done b)
      → Agrees laws w m n a (done c)
  Agrees-eq p h = rw (← p) h

-- The bytes are those of any buffer that `w` leaves.
pub Agrees-same_bytes :
    ⦃lib : XdrLib⦄ (laws : XdrLaws lib)
    → {A : Type 0} {w : Buffer.M (Unit {0})} {m n : M lib.Stream A} {a : A} {end : M lib.Stream A}
    → Agrees laws w m n a end
    → (e : Endianness) (b : Buffer.XdrBuffer) → w e Buffer.empty_buffer ≡ Buffer.ok tt b
    → (s t : lib.Stream) → laws.Moves encode s b.buffer t
    → (s' t' : lib.Stream) → laws.Moves decode s' b.buffer t'
    → (m s ≡ done a t) × (n s' ≡ end t')
Agrees-same_bytes laws p e b packed s t room s' t' next =
    let same : b.buffer ≡ p.bytes = cc (p.packs.appends e Buffer.empty_buffer refl) in
    (p.encodes s t (rw same at room), p.decodes s' t' (rw same at next))
