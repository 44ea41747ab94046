-- ===== src/Tirpc/Stream.antt =====
-- The XDR streams of libtirpc, which the functions of nfs3_rpc_tests/src/nfs3_xdr.cpp are handed:
-- the library is not among the sources, so that its streams and primitives are a parameter.
use nfstest.Prelude.{ℕ, ◌<◌, ◌≤◌, ◌≡◌, Bool, true, false, List, [], ◌++◌, length}
use nfstest.Xdr.Int.{ℤ, IsI32, to_u32}
use nfstest.Xdr.Word.{Endianness, IsU32, IsU64, network_bytes32, network_bytes64}
use nfstest.Xdr.Opaque.{network_opaque}

-- `xdrs->x_op`: XDR_ENCODE, XDR_DECODE and XDR_FREE.
pub data Op : Type 0 where
  encode decode release : Op

abbrev pub is_encode : Op → Bool
is_encode encode = true
is_encode decode = false
is_encode release = false

abbrev pub is_decode : Op → Bool
is_decode encode = false
is_decode decode = true
is_decode release = false

-- A function of type `bool_t` returns TRUE with its object and the stream behind it, or FALSE
-- (`failed`; what it has written to the object by then no caller looks at). `raised` is the
-- std::bad_optional_access of a `value()`, `undefined` what C++ leaves undefined, and `stuck` a
-- loop of the model that ran out of fuel.
pub data Outcome (S A : Type 0) : Type 0 where
  done : A → S → Outcome S A
  failed : Outcome S A
  raised : Outcome S A
  undefined : Outcome S A
  stuck : Outcome S A

abbrev pub M : Type 0 → Type 0 → Type 0
M S A = S → Outcome S A

module _ {S A : Type 0} where
  unfoldable pub pure : A → M S A
  pure a s = done a s

  unfoldable pub halt : Outcome S A → M S A
  halt r s = r

module _ {S A B : Type 0} where
  infixl 5 ◌>>=◌ ◌>>◌
  abbrev pub continue : Outcome S A → (A → M S B) → Outcome S B
  continue (done a s) f = f a s
  continue failed f = failed
  continue raised f = raised
  continue undefined f = undefined
  continue stuck f = stuck

  -- `if (!f(...)) return FALSE;` and what follows it
  unfoldable pub ◌>>=◌ : M S A → (A → M S B) → M S B
  ◌>>=◌ m f s = continue (m s) f

  unfoldable pub ◌>>◌ : M S A → M S B → M S B
  unfolding ◌>>=◌
  m >> n = m >>= λ _. n

-- A `char*` that a function is handed: null, or to these bytes.
pub data Pointer : Type 0 where
  null : Pointer
  to : List ℕ → Pointer

-- The streams and the primitives. A primitive takes the object's old value and gives the new one;
-- `xdr_bytes` and `xdr_string` take the bytes before the end of the buffer or of the C string, and
-- the limit on their number.
pub record XdrLib : Type 1 where
  pub Stream : Type 0
  pub host : Endianness
  pub xdr_u_int : Op → ℕ → M Stream ℕ
  pub xdr_int : Op → ℤ → M Stream ℤ
  pub xdr_u_hyper : Op → ℕ → M Stream ℕ
  pub xdr_opaque : Op → List ℕ → ℕ → M Stream (List ℕ)
  pub xdr_bytes : Op → Pointer → ℕ → M Stream (List ℕ)
  pub xdr_string : Op → Pointer → ℕ → M Stream (List ℕ)

-- What libtirpc documents of them. `Moves op s bytes t`: an encoding stream `s` has room for
-- `bytes`, which make it `t`; of a decoding stream `s` these bytes are the next, and `t` is behind
-- them. A value is on the wire as RFC 4506 states it.
pub record XdrLaws (lib : XdrLib) : Type 1 where
  pub Moves : Op → lib.Stream → List ℕ → lib.Stream → Type 0
  pub none_moves : (op : Op) (s t : lib.Stream) → Moves op s [] t → s ≡ t
  pub moves_split :
      (op : Op) (s t : lib.Stream) (xs ys : List ℕ)
      → Moves op s (xs ++ ys) t
      → (m : lib.Stream) × Moves op s xs m × Moves op m ys t
  pub encodes_u_int :
      (v : ℕ) (s t : lib.Stream)
      → Moves encode s (network_bytes32 v) t
      → lib.xdr_u_int encode v s ≡ done v t
  -- Encoding leaves the number as it is.
  pub keeps_u_int : (v w : ℕ) (s t : lib.Stream) → lib.xdr_u_int encode v s ≡ done w t → w ≡ v
  pub decodes_u_int :
      (old v : ℕ) (s t : lib.Stream)
      → IsU32 v
      → Moves decode s (network_bytes32 v) t
      → lib.xdr_u_int decode old s ≡ done v t
  pub encodes_int :
      (v : ℤ) (s t : lib.Stream)
      → Moves encode s (network_bytes32 (to_u32 v)) t
      → lib.xdr_int encode v s ≡ done v t
  pub decodes_int :
      (old v : ℤ) (s t : lib.Stream)
      → IsI32 v
      → Moves decode s (network_bytes32 (to_u32 v)) t
      → lib.xdr_int decode old s ≡ done v t
  pub encodes_u_hyper :
      (v : ℕ) (s t : lib.Stream)
      → Moves encode s (network_bytes64 v) t
      → lib.xdr_u_hyper encode v s ≡ done v t
  pub decodes_u_hyper :
      (old v : ℕ) (s t : lib.Stream)
      → IsU64 v
      → Moves decode s (network_bytes64 v) t
      → lib.xdr_u_hyper decode old s ≡ done v t
  -- Fixed opaque data of a multiple of four bytes, as all of them here are.
  pub encodes_opaque :
      (bytes : List ℕ) (s t : lib.Stream)
      → length bytes ≡ 8
      → Moves encode s bytes t
      → lib.xdr_opaque encode bytes 8 s ≡ done bytes t
  pub decodes_opaque :
      (old bytes : List ℕ) (s t : lib.Stream)
      → length bytes ≡ 8
      → Moves decode s bytes t
      → lib.xdr_opaque decode old 8 s ≡ done bytes t
  pub encodes_bytes :
      (bytes : List ℕ) (max : ℕ) (s t : lib.Stream)
      → length bytes ≤ max
      → Moves encode s (network_opaque bytes) t
      → lib.xdr_bytes encode (to bytes) max s ≡ done bytes t
  -- A null pointer is set to new memory.
  pub decodes_bytes :
      (bytes : List ℕ) (max : ℕ) (s t : lib.Stream)
      → IsU32 max
      → length bytes ≤ max
      → Moves decode s (network_opaque bytes) t
      → lib.xdr_bytes decode null max s ≡ done bytes t
  pub refuses_bytes :
      (bytes : List ℕ) (max : ℕ) (s : lib.Stream)
      → max < length bytes
      → lib.xdr_bytes encode (to bytes) max s ≡ failed
  -- What is decoded into new memory is within the limit.
  pub limits_bytes :
      (bytes : List ℕ) (max : ℕ) (s t : lib.Stream)
      → lib.xdr_bytes decode null max s ≡ done bytes t
      → length bytes ≤ max
  pub encodes_string :
      (bytes : List ℕ) (max : ℕ) (s t : lib.Stream)
      → length bytes ≤ max
      → Moves encode s (network_opaque bytes) t
      → lib.xdr_string encode (to bytes) max s ≡ done bytes t
  pub decodes_string :
      (p : Pointer) (bytes : List ℕ) (max : ℕ) (s t : lib.Stream)
      → IsU32 max
      → length bytes ≤ max
      → Moves decode s (network_opaque bytes) t
      → lib.xdr_string decode p max s ≡ done bytes t
