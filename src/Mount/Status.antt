-- ===== src/Mount/Status.antt =====
-- `xdr_unpack_fhstatus` of nfs3_rpc_tests/src/mount_client.cpp against RFC 1813.
use nfstest.Prelude.{
  refl, ap, ◌∙◌, take, drop, append_assoc, ℕ, zero, suc, ◌≡◌, List, [], ◌∷◌, ◌++◌, length, ◌==◌,
  arith,
}
use nfstest.Xdr.Word.{Endianness, IsU32, network_bytes32}
use nfstest.Xdr.Int.{ℤ, IsI32, to_u32}
use nfstest.Xdr.Buffer.{ok}
use nfstest.Xdr.Wire.{Reads, Reads->>=, Reads-last, Reads-pure, between}
use nfstest.Xdr.Words.{unpack_u32-Reads, unpack_i32-Reads}
use nfstest.Xdr.Opaque.{network_opaque, IsShort, unpack_bytes-Reads}
use nfstest.Xdr.Safety.{Safe, Safe->>=, Safe-pure, Safe-if, Safe-u32, Safe-i32, Safe-bytes}
use nfstest.Mount.{unpack_flavors, xdr_unpack_fhstatus}

abbrev pub flavor_words : List ℤ → List ℕ
flavor_words [] = []
flavor_words (z ∷ zs) = network_bytes32 (to_u32 z) ++ flavor_words zs

abbrev pub AllI32 : List ℤ → Type 0
AllI32 [] = Unit
AllI32 (z ∷ zs) = IsI32 z × AllI32 zs

-- A successful reply of MNT as RFC 1813 states it, up to `flavors` of its `count` authentication
-- flavors.
abbrev pub mountres_upto : List ℕ → ℕ → List ℤ → List ℕ
mountres_upto fhandle count flavors =
    network_bytes32 0 ++ (network_opaque fhandle ++ (network_bytes32 count ++ flavor_words flavors))

abbrev pub mountres_ok : List ℕ → List ℤ → List ℕ
mountres_ok fhandle flavors = mountres_upto fhandle (length flavors) flavors

unpack_flavors-Reads :
    (rounds : ℕ) (flavors : List ℤ)
    → AllI32 flavors
    → Reads
        (unpack_flavors rounds (length flavors))
        (flavor_words (take rounds flavors))
        (take rounds flavors)
unfolding unpack_flavors
unpack_flavors-Reads zero [] h = Reads-pure []
unpack_flavors-Reads (suc rounds) [] h = Reads-pure []
unpack_flavors-Reads zero (z ∷ zs) h = Reads-pure []
unpack_flavors-Reads (suc rounds) (z ∷ zs) (h, hs) =
    Reads->>= _ (unpack_i32-Reads z h) (Reads-last _ (unpack_flavors-Reads rounds zs hs))

flavor_words_split :
    (n : ℕ) (flavors : List ℤ)
    → flavor_words flavors ≡ flavor_words (take n flavors) ++ flavor_words (drop n flavors)
flavor_words_split zero flavors = refl
flavor_words_split (suc n) [] = refl
flavor_words_split (suc n) (z ∷ zs) =
    ap (λ t. network_bytes32 (to_u32 z) ++ t) (flavor_words_split n zs)

pub fhstatus-Reads :
    (fhandle : List ℕ) (flavors : List ℤ)
    → IsShort fhandle
    → AllI32 flavors
    → IsU32 (length flavors)
    → Reads xdr_unpack_fhstatus
        (mountres_upto fhandle (length flavors) (take 10 flavors))
        (record { status = 0; fhandle = fhandle; auth_flavors = take 10 flavors })
unfolding xdr_unpack_fhstatus
fhstatus-Reads fhandle flavors h hs k = Reads->>= _ (unpack_u32-Reads 0 (omega arith)) (
    Reads->>= _ (unpack_bytes-Reads fhandle h) (
      Reads->>= _ (unpack_u32-Reads (length flavors) k)
        (Reads-last _ (unpack_flavors-Reads 10 flavors hs))))

regrouped :
    (a b c d f back : List ℕ)
    → (a ++ (b ++ (c ++ (d ++ f)))) ++ back ≡ (a ++ (b ++ (c ++ d))) ++ (f ++ back)
regrouped a b c d f back = simp (append_assoc)

mountres_split :
    (fhandle : List ℕ) (flavors : List ℤ) (back : List ℕ)
    → mountres_ok fhandle flavors ++ back
      ≡ mountres_upto fhandle (length flavors) (take 10 flavors)
        ++ (flavor_words (drop 10 flavors) ++ back)
mountres_split fhandle flavors back =
    let split = flavor_words_split 10 flavors in
    ap
      (λ t.
        (network_bytes32 0 ++ (network_opaque fhandle ++ (network_bytes32 (length flavors) ++ t)))
        ++ back)
      split
    ∙ regrouped (network_bytes32 0) (network_opaque fhandle) (network_bytes32 (length flavors))
        (flavor_words (take 10 flavors)) (flavor_words (drop 10 flavors)) back

-- A successful reply of MNT, in the encoding of RFC 1813, is read wherever it stands in a buffer, on
-- a host of either byte order: the handle, below 2^32 bytes, and the first ten of fewer than 2^32
-- authentication flavors that are 32-bit integers, all of them if they are at most ten. What is
-- behind those is not read.
pub xdr_unpack_fhstatus_lem :
    (e : Endianness) (front back : List ℕ) (fhandle : List ℕ) (flavors : List ℤ)
    → IsShort fhandle
    → AllI32 flavors
    → IsU32 (length flavors)
    → xdr_unpack_fhstatus e (between front (mountres_ok fhandle flavors ++ back))
      ≡ ok
          (record { status = 0; fhandle = fhandle; auth_flavors = take 10 flavors })
          (between
            (front ++ mountres_upto fhandle (length flavors) (take 10 flavors))
            (flavor_words (drop 10 flavors) ++ back))
xdr_unpack_fhstatus_lem e front back fhandle flavors h hs k =
    rw (mountres_split fhandle flavors back) (
      (fhstatus-Reads fhandle flavors h hs k).consumes e front
        (flavor_words (drop 10 flavors) ++ back))

Safe-flavors : (rounds count : ℕ) → Safe (unpack_flavors rounds count)
unfolding unpack_flavors
Safe-flavors zero count = Safe-pure []
Safe-flavors (suc rounds) zero = Safe-pure []
Safe-flavors (suc rounds) (suc count) =
    Safe->>= _ _ Safe-i32
      λ flavor. Safe->>= _ _ (Safe-flavors rounds count) λ flavors. Safe-pure (flavor ∷ flavors)

-- Reading the reply of MNT never looks outside the buffer.
pub Safe-fhstatus : Safe xdr_unpack_fhstatus
unfolding xdr_unpack_fhstatus
Safe-fhstatus = Safe->>= _ _ Safe-u32 λ status.
    Safe-if (status == 0) _ _
      (Safe->>= _ _ Safe-bytes λ fhandle.
        Safe->>= _ _ Safe-u32 λ count. Safe->>= _ _ (Safe-flavors 10 count) λ flavors. Safe-pure _)
      (Safe-pure _)
