-- ===== src/Tirpc/Agree/Values.antt =====
-- Numbers, flags, strings and opaque data: the same bytes from the functions over TI-RPC streams as
-- from XdrBuffer.
use nfstest.Prelude.{
  ℕ, ◌%◌, ◌^◌, ◌≤◌, ◌≡◌, refl, Bool, true, false, List, [], ◌∷◌, ◌==◌, length, take-length, arith,
}
use nfstest.Xdr.Int.{ℤ, IsI32, to_u32}
use nfstest.Xdr.Word.{
  Endianness, big, little, IsU32, IsU64, network_bytes32, network_bytes64, bytes_of64, word_of64,
  host_order64, network_to_host64,
}
use nfstest.Xdr.Buffer.{pack_u32, pack_u64, pack_i32, pack_bool, pack_string, pack_bytes, insert}
use nfstest.Xdr.Wire.{Packs}
use nfstest.Xdr.Words.{flag_word, pack_u32-Packs, pack_u64-Packs, pack_i32-Packs}
use nfstest.Xdr.Opaque.{network_opaque, pack_string-Packs, pack_bytes-Packs}
use nfstest.Tirpc.Stream.{
  encode, decode, null, to, XdrLib, XdrLaws, ◌>>=◌, pure, halt, done, undefined,
}
use nfstest.Tirpc.Idioms.{
  xdr_enum, xdr_flag, xdr_text, xdr_own_text, xdr_raw_u64, xdr_data, xdr_own_data, c_str, counted,
}
use nfstest.Tirpc.Agree.{Agrees, Agrees-last, Agrees-eq}

-- Without a NUL, the C string is the whole string.
abbrev pub HasNoNul : List ℕ → Type 0
HasNoNul [] = Unit {0}
HasNoNul (c ∷ s) = (c == 0 ≡ false) × HasNoNul s

-- A string within a limit, which a C string can hold.
abbrev pub IsText : ℕ → List ℕ → Type 0
IsText max s = HasNoNul s × (length s ≤ max)

pub c_str_whole : (s : List ℕ) → HasNoNul s → c_str s ≡ s
unfolding c_str
c_str_whole [] h = refl
c_str_whole (c ∷ s) (h, k) = rw (h, c_str_whole s k)

pub counted_whole : (bytes : List ℕ) → length bytes ≤ 0xffff_ffff → counted bytes ≡ bytes
unfolding counted
counted_whole bytes h =
    let e : length bytes % 2 ^ 32 ≡ length bytes = omega arith in rw e (take-length bytes)

length-bytes_of64 : (e : Endianness) (v : ℕ) → length (bytes_of64 e v) ≡ 8
unfolding bytes_of64
length-bytes_of64 big v = refl
length-bytes_of64 little v = refl

word_of64-bytes_of64 : (e : Endianness) (v : ℕ) → IsU64 v → word_of64 e (bytes_of64 e v) ≡ v
unfolding bytes_of64 word_of64 network_to_host64
word_of64-bytes_of64 big v h = host_order64 big v h
word_of64-bytes_of64 little v h = host_order64 big v h

module _ ⦃lib : XdrLib⦄ (laws : XdrLaws lib) where
  pub Agrees-u_int :
      (old v : ℕ)
      → IsU32 v
      → Agrees laws (pack_u32 v) (lib.xdr_u_int encode v) (lib.xdr_u_int decode old) v (done v)
  Agrees-u_int old v h = record {
    bytes = network_bytes32 v;
    packs = pack_u32-Packs v;
    encodes = laws.encodes_u_int v;
    decodes = λ s t moved. laws.decodes_u_int old v s t h moved;
  }

  pub Agrees-int :
      (old v : ℤ)
      → IsI32 v
      → Agrees laws (pack_i32 v) (lib.xdr_int encode v) (lib.xdr_int decode old) v (done v)
  Agrees-int old v h = record {
    bytes = network_bytes32 (to_u32 v);
    packs = pack_i32-Packs v;
    encodes = laws.encodes_int v;
    decodes = λ s t moved. laws.decodes_int old v s t h moved;
  }

  pub Agrees-u_hyper :
      (old v : ℕ)
      → IsU64 v
      → Agrees laws (pack_u64 v) (lib.xdr_u_hyper encode v) (lib.xdr_u_hyper decode old) v (done v)
  Agrees-u_hyper old v h = record {
    bytes = network_bytes64 v;
    packs = pack_u64-Packs v;
    encodes = laws.encodes_u_hyper v;
    decodes = λ s t moved. laws.decodes_u_hyper old v s t h moved;
  }

  pub Agrees-enum :
      (old v : ℕ)
      → IsU32 v
      → Agrees laws (pack_u32 v) (xdr_enum encode v) (xdr_enum decode old) v (done v)
  unfolding xdr_enum
  Agrees-enum old v h = Agrees-last _ _ (Agrees-u_int 0 v h)

  -- The word of a flag, with what becomes of it.
  pub Agrees-flag_word :
      (v : Bool)
      → Agrees laws
          (pack_bool v)
          (lib.xdr_u_int encode (flag_word v))
          (lib.xdr_u_int decode 0)
          (flag_word v)
          (done (flag_word v))
  unfolding pack_bool
  Agrees-flag_word true = Agrees-u_int 0 1 (omega arith)
  Agrees-flag_word false = Agrees-u_int 0 0 (omega arith)

  pub Agrees-flag :
      (old v : Bool)
      → Agrees laws (pack_bool v) (xdr_flag encode v) (xdr_flag decode old) v (done v)
  unfolding xdr_flag
  Agrees-flag old true = Agrees-last _ _ (Agrees-flag_word true)
  Agrees-flag old false = Agrees-last _ _ (Agrees-flag_word false)

  -- Strings within the limit that a C string can hold.
  module _ (s : List ℕ) (max : ℕ) (plain : HasNoNul s) (short : length s ≤ max)
      (bound : max ≤ 0xffff_ffff) where
    pub Agrees-text :
        (old : List ℕ)
        → Agrees laws (pack_string s) (xdr_text encode s max) (xdr_text decode old max) s (done s)
    unfolding xdr_text ◌>>=◌ pure
    Agrees-text old = record {
      bytes = network_opaque s;
      packs = pack_string-Packs s (omega arith);
      encodes = λ x t moved. rw (c_str_whole s plain, laws.encodes_string s max x t short moved);
      decodes = λ x t moved.
          rw (laws.decodes_string null s max x t (omega arith) short moved, c_str_whole s plain);
    }

  module _ (bytes : List ℕ) (max : ℕ) (short : length bytes ≤ max) (bound : max ≤ 0xffff_ffff) where
    pub Agrees-bytes :
        Agrees laws
          (pack_bytes bytes)
          (lib.xdr_bytes encode (to (counted bytes)) max)
          (lib.xdr_bytes decode null max)
          bytes
          (done bytes)
    Agrees-bytes = record {
      bytes = network_opaque bytes;
      packs = pack_bytes-Packs bytes (omega arith);
      encodes = λ x t moved.
          rw (counted_whole bytes (omega arith)) (laws.encodes_bytes bytes max x t short moved);
      decodes = λ x t moved. laws.decodes_bytes bytes max x t (omega arith) short moved;
    }

    pub Agrees-data :
        (old : List ℕ)
        → Agrees laws
            (pack_bytes bytes)
            (xdr_data encode bytes max)
            (xdr_data decode old max)
            bytes
            (done bytes)
    unfolding xdr_data
    Agrees-data old = Agrees-last _ _ Agrees-bytes

    -- Nothing of the data on the wire gets into a vector that is empty.
    pub Agrees-own_data :
        Agrees laws
          (pack_bytes bytes)
          (xdr_own_data encode bytes max)
          (xdr_own_data decode [] max)
          bytes
          (done [])
    unfolding xdr_own_data ◌>>=◌ pure
    Agrees-own_data = record {
      bytes = Agrees-bytes.bytes;
      packs = Agrees-bytes.packs;
      encodes = λ x t moved. rw (Agrees-bytes.encodes x t moved);
      decodes = λ x t moved. rw (Agrees-bytes.decodes x t moved);
    }

  insert-Packs : (bytes : List ℕ) → length bytes ≡ 8 → Packs (insert bytes) bytes
  unfolding insert
  insert-Packs bytes h = record { aligned = rw h refl; appends = λ e b k. refl }

  -- Eight bytes as they are.
  pub Agrees-opaque :
      (old bytes : List ℕ)
      → length bytes ≡ 8
      → Agrees laws
          (insert bytes)
          (lib.xdr_opaque encode bytes 8)
          (lib.xdr_opaque decode old 8)
          bytes
          (done bytes)
  Agrees-opaque old bytes h = record {
    bytes = bytes;
    packs = insert-Packs bytes h;
    encodes = λ s t moved. laws.encodes_opaque bytes s t h moved;
    decodes = λ s t moved. laws.decodes_opaque old bytes s t h moved;
  }

  -- A string that is decoded into its own `c_str()`.
  pub Agrees-own_text :
      (s : List ℕ) (max : ℕ)
      → HasNoNul s
      → length s ≤ max
      → max ≤ 0xffff_ffff
      → (old : List ℕ)
      → Agrees laws
          (pack_string s)
          (xdr_own_text encode s max)
          (xdr_own_text decode old max)
          s
          (halt undefined)
  unfolding xdr_own_text ◌>>=◌ pure halt
  Agrees-own_text s max plain short bound old = record {
    bytes = network_opaque s;
    packs = pack_string-Packs s (omega arith);
    encodes = λ x t moved. rw (c_str_whole s plain, laws.encodes_string s max x t short moved);
    decodes =
        λ x t moved. rw (laws.decodes_string (to (c_str old)) s max x t (omega arith) short moved);
  }

  -- A `uint64_t` in the bytes of this host.
  pub Agrees-raw_u64 :
      (old v : ℕ)
      → IsU64 v
      → Agrees laws
          (insert (bytes_of64 lib.host v))
          (xdr_raw_u64 encode v)
          (xdr_raw_u64 decode old)
          v
          (done v)
  unfolding xdr_raw_u64
  Agrees-raw_u64 old v h =
      Agrees-eq (word_of64-bytes_of64 lib.host v h)
        (Agrees-last _ _ (Agrees-opaque _ (bytes_of64 lib.host v) (length-bytes_of64 lib.host v)))
