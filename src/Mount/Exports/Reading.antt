-- ===== src/Mount/Exports/Reading.antt =====
-- What `xdr_unpack_exports` makes of the reply of EXPORT that RFC 1813 states.
use nfstest.Prelude.{
  ℕ, suc, ◌+◌, ◌-◌, ◌%◌, not, ◌==◌, ◌^◌, ◌<◌, ◌≡◌, refl, ap, sym, Bool, true, false, List, [], ◌∷◌,
  ◌++◌, append_assoc, append-nil, length, arith, lt→ltb,
}
use mathlib.Core.Path.{subst}
use nfstest.Xdr.Word.{Endianness, IsU32, network_bytes32}
use nfstest.Xdr.Buffer.{
  XdrBuffer, XdrError, insufficient_data, M, ok, threw, pure, ◌>>=◌, ◌>>◌, ensure_read_space,
  unpack_bool, unpack_string,
}
use nfstest.Xdr.Wire.{Reads, Reads->>=, Reads-last, Reads-pure, between}
use nfstest.Xdr.Words.{flag_word, unpack_u32-Reads, unpack_bool-Reads}
use nfstest.Xdr.Opaque.{network_opaque, IsShort, pad, unpack_string-Reads}
use nfstest.Mount.Exports.{unpack_exports, xdr_unpack_exports}

abbrev pub flag_bytes : Bool → List ℕ
flag_bytes flag = network_bytes32 (flag_word flag)

-- The names of the groups that an export is for, each behind a set flag, and a zero flag.
abbrev pub rfc_groups : List (List ℕ) → List ℕ
rfc_groups [] = flag_bytes false
rfc_groups (name ∷ names) = flag_bytes true ++ (network_opaque name ++ rfc_groups names)

pub record Export : Type 0 where
  pub dir : List ℕ
  pub groups : List (List ℕ)

-- The list of exports as RFC 1813 states it: each behind a set flag, and a zero flag.
abbrev pub rfc_exports : List Export → List ℕ
rfc_exports [] = flag_bytes false
rfc_exports (x ∷ xs) =
    flag_bytes true ++ (network_opaque x.dir ++ (rfc_groups x.groups ++ rfc_exports xs))

pub no_exports : (fuel : ℕ) → Reads (unpack_exports (suc fuel)) (rfc_exports []) []
unfolding unpack_exports
no_exports fuel = Reads->>= _ (unpack_bool-Reads false) (Reads-pure [])

pub one_export :
    (fuel : ℕ) (x : Export)
    → x.groups ≡ []
    → IsShort x.dir
    → Reads (unpack_exports (suc fuel)) (rfc_exports (x ∷ [])) (x.dir ∷ [])
unfolding unpack_exports ◌>>◌
one_export fuel x none h =
    subst
      (λ (g : List (List ℕ)).
        Reads (unpack_exports (suc fuel)) (rfc_exports (record { dir = x.dir; groups = g } ∷ []))
          (x.dir ∷ []))
      (sym none)
      (Reads->>= _ (unpack_bool-Reads true) (
        Reads->>= _ (unpack_string-Reads x.dir h) (
          Reads->>= _ (unpack_bool-Reads false) (
            Reads->>= _ (Reads-pure tt)
              (Reads->>= _ (unpack_bool-Reads false) (Reads-pure (x.dir ∷ [])))))))

-- A reply is read from its start.
pub Reads-whole :
    (bytes : List ℕ) (dirs : List (List ℕ)) (e : Endianness)
    → ((fuel : ℕ) → Reads (unpack_exports (suc fuel)) bytes dirs)
    → (b : XdrBuffer) × (xdr_unpack_exports e (record { buffer = bytes; pos = 0 }) ≡ ok dirs b)
Reads-whole bytes dirs e h =
    subst
      (λ (t : List ℕ).
        (b : XdrBuffer) × (xdr_unpack_exports e (record { buffer = t; pos = 0 }) ≡ ok dirs b))
      (append-nil bytes)
      (
        between bytes [],
        unfold xdr_unpack_exports between in (h (length (bytes ++ []))).consumes e [] [],
      )

abbrev pub Throws : {A : Type 0} → M A → Endianness → XdrBuffer → Type 0
Throws m e b = (x : XdrError) × (c : XdrBuffer) × (m e b ≡ threw x c)

module _ {A B : Type 0} (e : Endianness) where
  Throws->>= : (m : M A) (f : A → M B) (b : XdrBuffer) → Throws m e b → Throws (m >>= f) e b
  unfolding ◌>>=◌
  Throws->>= m f b (x, c, h) = (x, c, rw h)

  -- The first step reads its bytes, and what follows throws behind them.
  Throws-behind :
      {r : M A} {bytes : List ℕ} {a : A} (f : A → M B) (front back : List ℕ)
      → Reads r bytes a
      → Throws (f a) e (between (front ++ bytes) back)
      → Throws (r >>= f) e (between front (bytes ++ back))
  unfolding ◌>>=◌
  Throws-behind f front back p (x, c, h) = (x, c, rw (p.consumes e front back) h)

-- A length word above the size of the buffer.
long_string-Throws :
    {B : Type 0} (f : List ℕ → M B) (e : Endianness) (front back : List ℕ) (word : ℕ)
    → IsU32 word
    → length (front ++ (network_bytes32 word ++ back)) < word
    → Throws (unpack_string >>= f) e (between front (network_bytes32 word ++ back))
unfolding unpack_string ensure_read_space between ◌>>=◌ ◌>>◌
long_string-Throws f e front back word h long =
    let start = front ++ network_bytes32 word in
    let have = (length (start ++ back) + 2 ^ 64 - length start) % 2 ^ 64 in
    (
      insufficient_data word (length start) have,
      between start back,
      rw
          (
            (unpack_u32-Reads word h).consumes e front back,
            lt→ltb (length (start ++ back)) (length start + word)
                (omega (arith, ap length (append_assoc front (network_bytes32 word) back))),
          )
          refl,
    )

word_flag : (n : ℕ) → IsU32 n → 0 < n → Reads unpack_bool (network_bytes32 n) true
unfolding unpack_bool
word_flag n h pos =
    let set : not (n == 0) ≡ true = ground arith in
    rw set at (Reads-last (λ w. not (w == 0)) (unpack_u32-Reads n h))

-- A path is below 2^32 bytes and not empty, and the number that its first four characters make, with
-- the padding behind a shorter one, is above the size of a reply of `size` bytes: that of a path that
-- begins with a slash is at least 788529152.
abbrev pub IsPath : ℕ → List ℕ → Type 0
IsPath size dir =
    IsShort dir
    × (0 < length dir)
    × (word : ℕ) × (path : List ℕ) × (dir ++ pad dir ≡ network_bytes32 word ++ path)
    × IsU32 word
    × (size < word)

same_length : (xs ys : List ℕ) (n : ℕ) → xs ≡ ys → length ys < n → length xs < n
same_length xs ys n p h = rw p h

module _ (fuel : ℕ) (e : Endianness) (word : ℕ) (path dir : List ℕ) where
  -- The length of a path is taken for a flag, and its first characters for its length.
  length-Throws :
      (front rest : List ℕ)
      → IsShort dir
      → 0 < length dir
      → dir ++ pad dir ≡ network_bytes32 word ++ path
      → IsU32 word
      → length (front ++ (network_opaque dir ++ rest)) < word
      → Throws (unpack_exports (suc fuel)) e (between front (network_opaque dir ++ rest))
  unfolding unpack_exports
  length-Throws front rest short some first h long =
      let size = network_bytes32 (length dir) in
      let back = path ++ rest in
      let wire : network_opaque dir ++ rest ≡ size ++ (network_bytes32 word ++ back) =
        rw (first) refl in
      let long' =
        same_length (front ++ (size ++ (network_bytes32 word ++ back)))
          (front ++ (network_opaque dir ++ rest)) word (ap (λ t. front ++ t) (sym wire)) long in
      rw (wire) (
        Throws-behind e _ front (network_bytes32 word ++ back)
          (word_flag (length dir) (omega arith) some)
          (long_string-Throws _ e (front ++ size) back word h
            (rw (append_assoc front size (network_bytes32 word ++ back)) long')))

regroup : (a b c d x : List ℕ) → ((((a ++ b) ++ c) ++ []) ++ d) ++ x ≡ a ++ (b ++ (c ++ (d ++ x)))
regroup a b c d x = simp (append_assoc, append-nil)

module _ (dir : List ℕ) (second : Export) (later : List Export) where
  abbrev reply : List ℕ
  reply = rfc_exports (record { dir = dir; groups = [] } ∷ second ∷ later)

  second_export-Throws :
      (fuel : ℕ) (e : Endianness)
      → IsShort dir
      → IsPath (length reply) second.dir
      → Throws (unpack_exports (suc (suc fuel))) e (between [] reply)
  unfolding unpack_exports ◌>>◌
  second_export-Throws fuel e short (whole, some, word, path, first, h, long) =
      let rest = rfc_groups second.groups ++ rfc_exports later in
      let front =
        (((flag_bytes true ++ network_opaque dir) ++ flag_bytes false) ++ []) ++ flag_bytes true in
      let bytes = network_opaque second.dir ++ rest in
      let same =
        regroup (flag_bytes true) (network_opaque dir) (flag_bytes false) (flag_bytes true) bytes in
      Throws-behind e _ [] _ (unpack_bool-Reads true) (
        Throws-behind e _ _ _ (unpack_string-Reads dir short) (
          Throws-behind e _ _ _ (unpack_bool-Reads false) (
            Throws-behind e {bytes = []} _ _ _ (Reads-pure tt) (
              Throws-behind e _ _ _ (unpack_bool-Reads true) (
                Throws->>= e (unpack_exports (suc fuel)) (λ dirs. pure (dir ∷ dirs))
                  (between front bytes)
                  (length-Throws fuel e word path second.dir front rest whole some first h
                    (same_length _ _ word same long)))))))

  second_in_reply :
      (e : Endianness)
      → IsShort dir
      → IsPath (length reply) second.dir
      → Throws xdr_unpack_exports e (record { buffer = reply; pos = 0 })
  unfolding xdr_unpack_exports between
  second_in_reply e =
      let behind_flag =
        network_opaque dir
        ++ (flag_bytes false
            ++ (flag_bytes true
                ++ (network_opaque second.dir
                    ++ (rfc_groups second.groups ++ rfc_exports later)))) in
      second_export-Throws (suc (suc (suc (length behind_flag)))) e

-- A second export, with no group named for the first.
pub second-Throws :
    (e : Endianness) (x y : Export) (later : List Export)
    → x.groups ≡ []
    → IsShort x.dir
    → IsPath (length (rfc_exports (x ∷ y ∷ later))) y.dir
    → Throws xdr_unpack_exports e (record { buffer = rfc_exports (x ∷ y ∷ later); pos = 0 })
second-Throws e x y later none short path =
    let x' = λ (g : List (List ℕ)). let z : Export = record { dir = x.dir; groups = g } in z in
    subst
      (λ (z : Export).
        IsPath (length (rfc_exports (z ∷ y ∷ later))) y.dir
        → Throws xdr_unpack_exports e (record { buffer = rfc_exports (z ∷ y ∷ later); pos = 0 }))
      (ap x' (sym none)) (second_in_reply x.dir y later e short) path
