-- ===== src/Xdr/Wire.antt =====
-- Rules to show that what a `serialize` writes is what a `deserialize` reads: the agreement of a
-- writer and a reader, built up along their do blocks.
use nfstest.Prelude.{
  ℕ, ◌%◌, ◌≡◌, refl, ap, ◌∙◌, sym, Bool, true, false, List, [], ◌++◌, append-nil, append_assoc,
  arith, length, length-append, if◌then◌else◌,
}
use nfstest.Xdr.Buffer.{XdrBuffer, M, ok, pure, ◌>>=◌, ◌>>◌, empty_buffer}
use nfstest.Xdr.Word.{Endianness}

abbrev pub IsAligned : List ℕ → Type 0
IsAligned bytes = length bytes % 4 ≡ 0

-- The buffer that holds `front` and `back`, read up to the end of `front`.
unfoldable pub between : List ℕ → List ℕ → XdrBuffer
between front back = record { buffer = front ++ back; pos = length front }

-- On a buffer of whole XDR units, `w` appends `bytes` and does nothing else.
pub record Packs (w : M (Unit {0})) (bytes : List ℕ) : Type 0 where
  pub aligned : IsAligned bytes
  pub appends :
      (e : Endianness) (b : XdrBuffer)
      → IsAligned b.buffer
      → w e b ≡ ok tt (record b { buffer = b.buffer ++ bytes })

-- Wherever `bytes` stand in a buffer, `r` reads `a` from them and stops behind them.
pub record Reads {A : Type 0} (r : M A) (bytes : List ℕ) (a : A) : Type 0 where
  pub consumes :
      (e : Endianness) (front back : List ℕ)
      → r e (between front (bytes ++ back)) ≡ ok a (between (front ++ bytes) back)

-- `r` reads back the `a` that `w` wrote.
pub record Wire {A : Type 0} (w : M (Unit {0})) (r : M A) (a : A) : Type 0 where
  pub bytes : List ℕ
  pub packs : Packs w bytes
  pub reads : Reads r bytes a

IsAligned-append : (xs ys : List ℕ) → IsAligned xs → IsAligned ys → IsAligned (xs ++ ys)
IsAligned-append xs ys h k = omega (arith, length-append xs ys)

pub Packs->> :
    {w v : M (Unit {0})} {xs ys : List ℕ} → Packs w xs → Packs v ys → Packs (w >> v) (xs ++ ys)
unfolding ◌>>◌
Packs->> {xs = xs} {ys = ys} p q = record {
  aligned = IsAligned-append xs ys p.aligned q.aligned;
  appends = λ e b h. rw (p.appends e b h) (
      q.appends e _ (IsAligned-append b.buffer xs h p.aligned)
      ∙ ap (λ (t : List ℕ). ok tt (record b { buffer = t })) (append_assoc b.buffer xs ys));
}

module _ {A B : Type 0} where
  pub Reads->>= :
      {r : M A} (f : A → M B) {xs ys : List ℕ} {a : A} {c : B}
      → Reads r xs a
      → Reads (f a) ys c
      → Reads (r >>= f) (xs ++ ys) c
  unfolding ◌>>=◌
  Reads->>= f {xs = xs} {ys = ys} {c = c} p q = record {
    consumes = λ e front back.
        rw (append_assoc xs ys back, p.consumes e front (ys ++ back))
          (q.consumes e (front ++ xs) back
            ∙ ap (λ t. ok c (between t back)) (append_assoc front xs ys));
  }

  -- One more item on the wire.
  pub Wire-then :
      {w v : M (Unit {0})} {r : M A} (f : A → M B) {a : A} {c : B}
      → Wire w r a
      → Wire v (f a) c
      → Wire (w >> v) (r >>= f) c
  Wire-then f p q = record {
    bytes = p.bytes ++ q.bytes;
    packs = Packs->> p.packs q.packs;
    reads = Reads->>= f p.reads q.reads;
  }

pub Packs-pure : Packs (pure tt) []
unfolding pure
Packs-pure = record {
  aligned = refl;
  appends =
      λ e b h. ap (λ (t : List ℕ). ok tt (record b { buffer = t })) (sym (append-nil b.buffer));
}

module _ {A : Type 0} where
  pub Reads-pure : (a : A) → Reads (pure a) [] a
  unfolding pure
  Reads-pure a = record {
    consumes = λ e front back. ap (λ t. ok a (between t back)) (sym (append-nil front));
  }

  -- Nothing on the wire.
  pub Wire-pure : (a : A) → Wire (pure tt) (pure a) a
  Wire-pure a = record { bytes = []; packs = Packs-pure; reads = Reads-pure a }

module _ {A : Type 0} where
  pub Wire-eq : {w : M (Unit {0})} {r : M A} {b a : A} → b ≡ a → Wire w r b → Wire w r a
  Wire-eq {w} {r} p h = rw p at h

  pub Wire-skip : {a b : A} → b ≡ a → Wire (pure tt) (pure b) a
  Wire-skip {a} p = rw p (Wire-pure a)

module _ {A B : Type 0} where
  pub Reads-last :
      {r : M A} {bytes : List ℕ} {a : A} (g : A → B)
      → Reads r bytes a
      → Reads (r >>= λ x. pure (g x)) bytes (g a)
  unfolding ◌>>=◌ pure
  Reads-last g p = record { consumes = λ e front back. rw (p.consumes e front back) }

  -- The last item, with the object made from it.
  pub Wire-last :
      {w : M (Unit {0})} {r : M A} {a : A} (g : A → B)
      → Wire w r a
      → Wire w (r >>= λ x. pure (g x)) (g a)
  Wire-last g p = record { bytes = p.bytes; packs = p.packs; reads = Reads-last g p.reads }

module _ {A : Type 0} {w v : M (Unit {0})} {r s : M A} {a : A} where
  -- Both sides branch on a flag that is on the wire.
  pub Wire-if :
      (flag : Bool)
      → (flag ≡ true → Wire w r a)
      → (flag ≡ false → Wire v s a)
      → Wire (if flag then w else v) (if flag then r else s) a
  Wire-if true p q = p refl
  Wire-if false p q = q refl

-- `w` into an empty buffer on one host, then `r` from its start on another, each of either byte
-- order: `r` gives `a` and has read every byte.
abbrev pub RoundTrip : {A : Type 0} → M (Unit {0}) → M A → A → Type 0
RoundTrip w r a =
    (writer reader : Endianness)
    → (b : XdrBuffer) × (w writer empty_buffer ≡ ok tt b)
      × (r reader b ≡ ok a (record b { pos = length b.buffer }))

pub Wire-RoundTrip :
    {A : Type 0} {w : M (Unit {0})} {r : M A} {a : A} → Wire w r a → RoundTrip w r a
unfolding between
Wire-RoundTrip p writer reader = (
  record { buffer = p.bytes; pos = 0 },
  p.packs.appends writer empty_buffer refl,
  rw append-nil at (p.reads.consumes reader [] []),
)
