-- ===== src/Tirpc/Memory.antt =====
-- A libtirpc for the runs: streams in memory, which do what is documented of libtirpc's.
use nfstest.Prelude.{
  ℕ, ◌<◌, ◌≤◌, ◌≡◌, refl, sym, ap, ◌∙◌, List, [], ◌++◌, append-nil, append_assoc, length, leb,
  if◌then◌else◌, le→leb, leb→le, ltb, Bool-cases, inl, inr, drop, length-take, ◌+◌, arith,
}
use nfstest.Xdr.Int.{to_u32}
use nfstest.Xdr.Word.{little, IsU32, network_bytes32, network_bytes64}
use nfstest.Xdr.Buffer
use nfstest.Xdr.Buffer.{
  XdrBuffer, padding_of, copy_out, ensure_read_space, advance, unpack_u32, unpack_u64, unpack_i32,
  unpack_bytes, unpack_string,
}
use nfstest.Xdr.Wire.{Reads, between}
use nfstest.Xdr.Words.{
  unpack_u32-Reads, unpack_u64-Reads, unpack_i32-Reads, copy_out-Reads, enough_data, advance-Reads,
}
use nfstest.Xdr.Opaque.{network_opaque, pad, unpack_bytes-Reads, unpack_string-Reads}
use nfstest.Tirpc.Ensures.{Holds, Ensures, Ensures-done}
use nfstest.Tirpc.Stream.{
  Op, encode, decode, release, Outcome, done, failed, raised, undefined, stuck, M, Pointer, null,
  to, XdrLib, XdrLaws,
}

abbrev pub append : List ℕ → XdrBuffer → XdrBuffer
append bytes s = record s { buffer = s.buffer ++ bytes }

abbrev pub outcome : {A : Type 0} → Buffer.Outcome A → Outcome XdrBuffer A
outcome (Buffer.Outcome.ok a b) = done a b
outcome (Buffer.Outcome.threw x b) = failed
outcome Buffer.Outcome.fault = failed
outcome Buffer.Outcome.stuck = failed

abbrev pub run : {A : Type 0} → Buffer.M A → M XdrBuffer A
run m s = outcome (m little s)

-- Encoding writes `bytes`, decoding reads by `r`.
abbrev pub primitive : {A : Type 0} → (A → List ℕ) → Buffer.M A → Op → A → M XdrBuffer A
primitive bytes r encode a s = done a (append (bytes a) s)
primitive bytes r decode a s = run r s
primitive bytes r release a s = done a s

unfoldable pub read_raw : ℕ → Buffer.M (List ℕ)
unfolding Buffer.◌>>=◌ Buffer.◌>>◌ Buffer.pure
read_raw n =
    Buffer.◌>>◌ (ensure_read_space n)
      (Buffer.◌>>=◌ (copy_out n) (λ bytes. Buffer.◌>>◌ (advance n) (Buffer.pure bytes)))

-- The length is compared with the limit before the data are read.
abbrev pub if_within :
    ℕ → Outcome XdrBuffer (List ℕ) → Outcome XdrBuffer ℕ → Outcome XdrBuffer (List ℕ)
if_within max whole (done n t) = if leb n max then whole else failed
if_within max whole failed = failed
if_within max whole raised = failed
if_within max whole undefined = failed
if_within max whole stuck = failed

abbrev pub within : ℕ → Buffer.M (List ℕ) → M XdrBuffer (List ℕ)
within max r s = if_within max (run r s) (run unpack_u32 s)

abbrev pub counted_data : Buffer.M (List ℕ) → Op → Pointer → ℕ → M XdrBuffer (List ℕ)
counted_data r encode null max s = done [] (append (network_opaque []) s)
counted_data r encode (to bytes) max s =
    if leb (length bytes) max then done bytes (append (network_opaque bytes) s) else failed
counted_data r decode p max s = within max r s
counted_data r release p max s = done [] s

instance abbrev pub memory : XdrLib
memory = record {
  Stream = XdrBuffer;
  host = little;
  xdr_u_int = primitive network_bytes32 unpack_u32;
  xdr_int = primitive (λ v. network_bytes32 (to_u32 v)) unpack_i32;
  xdr_u_hyper = primitive network_bytes64 unpack_u64;
  xdr_opaque = λ op bytes n. primitive (λ b. b) (read_raw n) op bytes;
  xdr_bytes = counted_data unpack_bytes;
  xdr_string = counted_data unpack_string;
}

abbrev pub MemoryMoves : Op → XdrBuffer → List ℕ → XdrBuffer → Type 0
MemoryMoves encode s bytes t = append bytes s ≡ t
MemoryMoves decode s bytes t =
    (front : List ℕ) × (back : List ℕ) × (s ≡ between front (bytes ++ back))
    × (between (front ++ bytes) back ≡ t)
MemoryMoves release s bytes t = s ≡ t

pub none_moves : (op : Op) (s t : XdrBuffer) → MemoryMoves op s [] t → s ≡ t
none_moves encode s t h =
    ap (λ (b : List ℕ). record s { buffer = b }) (sym (append-nil s.buffer)) ∙ h
none_moves decode s t (front, back, p, q) =
    p ∙ ap (λ f. between f back) (sym (append-nil front)) ∙ q
none_moves release s t h = h

pub moves_split :
    (op : Op) (s t : XdrBuffer) (xs ys : List ℕ)
    → MemoryMoves op s (xs ++ ys) t
    → (m : XdrBuffer) × MemoryMoves op s xs m × MemoryMoves op m ys t
moves_split encode s t xs ys h = (
  append xs s,
  refl,
  ap (λ (b : List ℕ). record s { buffer = b }) (append_assoc s.buffer xs ys) ∙ h,
)
moves_split decode s t xs ys (front, back, p, q) = (
  between (front ++ xs) (ys ++ back),
  (front, ys ++ back, p ∙ ap (between front) (append_assoc xs ys back), refl),
  (front ++ xs, back, refl, ap (λ f. between f back) (append_assoc front xs ys) ∙ q),
)
moves_split release s t xs ys h = (s, refl, h)

pub Reads-next :
    {A : Type 0} {r : Buffer.M A} {bytes : List ℕ} {a : A}
    → Reads r bytes a
    → (s t : XdrBuffer) → MemoryMoves decode s bytes t
    → run r s ≡ done a t
Reads-next {a = a} p s t (front, back, before, behind) =
    rw (before, p.consumes little front back) (ap (done a) behind)

pub read_raw-Reads : (bytes : List ℕ) → length bytes ≡ 8 → Reads (read_raw 8) bytes bytes
read_raw-Reads bytes h = record {
  consumes = λ e front back. rw (← h) (
      unfold read_raw in
      rw (
        enough_data e front bytes back,
        copy_out-Reads e front bytes back,
        advance-Reads e front bytes back,
      ));
}

-- The length word in front of the data.
pub length_first :
    (bytes : List ℕ)
    → length bytes ≤ 0xffff_ffff
    → (s t : XdrBuffer) → MemoryMoves decode s (network_opaque bytes) t
    → (m : XdrBuffer) × (run unpack_u32 s ≡ done (length bytes) m)
length_first bytes h s t moved =
    let (m, first, rest) =
      moves_split decode s t (network_bytes32 (length bytes)) (bytes ++ pad bytes) moved in
    (m, Reads-next (unpack_u32-Reads (length bytes) (omega arith)) s m first)

pub within_limit :
    {r : Buffer.M (List ℕ)} (bytes : List ℕ) (max : ℕ) (s t : XdrBuffer)
    → Reads r (network_opaque bytes) bytes
    → IsU32 max
    → length bytes ≤ max
    → MemoryMoves decode s (network_opaque bytes) t
    → within max r s ≡ done bytes t
within_limit bytes max s t p bound short moved =
    let (m, first) = length_first bytes (omega arith) s t moved in
    rw (first, le→leb (length bytes) max short) (Reads-next p s t moved)

pub encoded_value : (v w : ℕ) (s t : XdrBuffer) → done v s ≡ done w t → w ≡ v
encoded_value v w s t h =
    Ensures-done {P = λ a. a ≡ v} (λ b. done v s) (record { holds = λ b. refl }) w s t h

-- `unpack_bytes` behind its length word.
abbrev pub data_of : ℕ → Buffer.M (List ℕ)
data_of n = Buffer.◌>>◌ (ensure_read_space n) (
    Buffer.◌>>=◌ (copy_out n)
      λ bytes. Buffer.◌>>◌ (advance n) (Buffer.◌>>◌ (advance (padding_of n)) (Buffer.pure bytes)))

module _ (max : ℕ) where
  abbrev pub IsWithin : List ℕ → Type 0
  IsWithin bytes = length bytes ≤ max

  pub data_of-IsWithin :
      (n : ℕ) (b : XdrBuffer) → n ≤ max → Holds IsWithin (outcome (data_of n little b))
  unfolding Buffer.◌>>=◌ Buffer.◌>>◌ Buffer.pure ensure_read_space copy_out advance
  data_of-IsWithin n b h = elim (Bool-cases (ltb (length b.buffer) (b.pos + n))) [
    | inl k ↦ rw (k) tt
    | inr k ↦ elim (Bool-cases (leb (b.pos + n) (length b.buffer))) [
      | inl l ↦ rw (k, l) (omega (arith, length-take n (drop b.pos b.buffer)))
      | inr l ↦ rw (k, l) tt
    ]
  ]

  pub if_within-IsWithin :
      (o : Buffer.Outcome ℕ)
      → Holds IsWithin (if_within max (outcome (Buffer.continue o little data_of)) (outcome o))
  if_within-IsWithin (Buffer.Outcome.ok n b) = elim (Bool-cases (leb n max)) [
    | inl k ↦ rw (k) (data_of-IsWithin n b (leb→le n max k))
    | inr k ↦ rw (k) tt
  ]
  if_within-IsWithin (Buffer.Outcome.threw x b) = tt
  if_within-IsWithin Buffer.Outcome.fault = tt
  if_within-IsWithin Buffer.Outcome.stuck = tt

  pub within-IsWithin : Ensures IsWithin (within max unpack_bytes)
  unfolding unpack_bytes Buffer.◌>>=◌
  within-IsWithin = record { holds = λ s. if_within-IsWithin (unpack_u32 little s) }

pub encodes_counted :
    (r : Buffer.M (List ℕ)) (bytes : List ℕ) (max : ℕ) (s t : XdrBuffer)
    → length bytes ≤ max
    → append (network_opaque bytes) s ≡ t
    → counted_data r encode (to bytes) max s ≡ done bytes t
encodes_counted r bytes max s t short moved =
    rw (le→leb (length bytes) max short) (ap (done bytes) moved)

pub refuses_counted :
    (r : Buffer.M (List ℕ)) (bytes : List ℕ) (max : ℕ) (s : XdrBuffer)
    → max < length bytes
    → counted_data r encode (to bytes) max s ≡ failed
refuses_counted r bytes max s long = ground arith

abbrev pub memory_laws : XdrLaws memory
memory_laws = record {
  Moves = MemoryMoves;
  none_moves = none_moves;
  moves_split = moves_split;
  encodes_u_int = λ v s t moved. ap (done v) moved;
  keeps_u_int = λ v w s t h. encoded_value v w (append (network_bytes32 v) s) t h;
  decodes_u_int = λ old v s t h moved. Reads-next (unpack_u32-Reads v h) s t moved;
  encodes_int = λ v s t moved. ap (done v) moved;
  decodes_int = λ old v s t h moved. Reads-next (unpack_i32-Reads v h) s t moved;
  encodes_u_hyper = λ v s t moved. ap (done v) moved;
  decodes_u_hyper = λ old v s t h moved. Reads-next (unpack_u64-Reads v h) s t moved;
  encodes_opaque = λ bytes s t h moved. ap (done bytes) moved;
  decodes_opaque = λ old bytes s t h moved. Reads-next (read_raw-Reads bytes h) s t moved;
  encodes_bytes =
      λ bytes max s t short moved. encodes_counted unpack_bytes bytes max s t short moved;
  decodes_bytes = λ bytes max s t bound short moved.
      within_limit bytes max s t (unpack_bytes-Reads bytes (omega arith)) bound short moved;
  refuses_bytes = λ bytes max s long. refuses_counted unpack_bytes bytes max s long;
  limits_bytes =
      λ bytes max s t h. Ensures-done (within max unpack_bytes) (within-IsWithin max) bytes s t h;
  encodes_string =
      λ bytes max s t short moved. encodes_counted unpack_string bytes max s t short moved;
  decodes_string = λ p bytes max s t bound short moved.
      within_limit bytes max s t (unpack_string-Reads bytes (omega arith)) bound short moved;
}
