-- ===== src/Xdr/Word.antt =====
-- Byte order: nfs3_rpc_tests/include/nfs3/detail/xdr_primitive.hpp.
-- A word is a number below 2^32 or 2^64. `(val & mask) >> k` is written as a quotient and a
-- remainder, and `|` of words with no common bit as a sum.
use nfstest.Prelude.{ℕ, ◌+◌, ◌*◌, ◌/◌, ◌%◌, ◌^◌, ◌<◌, ◌≡◌, refl, List, [], ◌∷◌, arith}

pub data Endianness : Type 0 where
  big little : Endianness

abbrev pub IsU32 : ℕ → Type 0
IsU32 n = n < 0x1_0000_0000

abbrev pub IsU64 : ℕ → Type 0
IsU64 n = n < 0x1_0000_0000_0000_0000

-- Octet `k` of a word, counted from the low end.
abbrev pub octet : ℕ → ℕ → ℕ
octet k val = val / 256 ^ k % 256

unfoldable pub swap_bytes32 : ℕ → ℕ
swap_bytes32 val =
    octet 3 val + octet 2 val * 256 ^ 1 + octet 1 val * 256 ^ 2 + octet 0 val * 256 ^ 3

unfoldable pub swap_bytes64 : ℕ → ℕ
swap_bytes64 val =
    octet 7 val
    + octet 6 val * 256 ^ 1
    + octet 5 val * 256 ^ 2
    + octet 4 val * 256 ^ 3
    + octet 3 val * 256 ^ 4
    + octet 2 val * 256 ^ 5
    + octet 1 val * 256 ^ 6
    + octet 0 val * 256 ^ 7

unfoldable pub host_to_network32 : Endianness → ℕ → ℕ
unfolding swap_bytes32
host_to_network32 big val = val
host_to_network32 little val = swap_bytes32 val

unfoldable pub network_to_host32 : Endianness → ℕ → ℕ
unfolding host_to_network32
network_to_host32 e val = host_to_network32 e val

unfoldable pub host_to_network64 : Endianness → ℕ → ℕ
unfolding swap_bytes64
host_to_network64 big val = val
host_to_network64 little val = swap_bytes64 val

unfoldable pub network_to_host64 : Endianness → ℕ → ℕ
unfolding host_to_network64
network_to_host64 e val = host_to_network64 e val

-- The object representation of a word: what `reinterpret_cast<const uint8_t*>(&word)` points to.
unfoldable pub bytes_of32 : Endianness → ℕ → List ℕ
bytes_of32 big val = octet 3 val ∷ octet 2 val ∷ octet 1 val ∷ octet 0 val ∷ []
bytes_of32 little val = octet 0 val ∷ octet 1 val ∷ octet 2 val ∷ octet 3 val ∷ []

unfoldable pub bytes_of64 : Endianness → ℕ → List ℕ
bytes_of64 big val =
    octet 7 val
    ∷ octet 6 val
    ∷ octet 5 val
    ∷ octet 4 val
    ∷ octet 3 val
    ∷ octet 2 val
    ∷ octet 1 val
    ∷ octet 0 val
    ∷ []
bytes_of64 little val =
    octet 0 val
    ∷ octet 1 val
    ∷ octet 2 val
    ∷ octet 3 val
    ∷ octet 4 val
    ∷ octet 5 val
    ∷ octet 6 val
    ∷ octet 7 val
    ∷ []

-- `std::memcpy(&word, bytes, 4)`, and with 8.
unfoldable pub word_of32 : Endianness → List ℕ → ℕ
word_of32 big (a ∷ b ∷ c ∷ d ∷ _) = a * 256 ^ 3 + b * 256 ^ 2 + c * 256 + d
word_of32 little (a ∷ b ∷ c ∷ d ∷ _) = d * 256 ^ 3 + c * 256 ^ 2 + b * 256 + a
word_of32 _ _ = 0

unfoldable pub word_of64 : Endianness → List ℕ → ℕ
word_of64 big (a ∷ b ∷ c ∷ d ∷ e ∷ f ∷ g ∷ h ∷ _) =
    (a * 256 ^ 3 + b * 256 ^ 2 + c * 256 + d) * 256 ^ 4 + (e * 256 ^ 3 + f * 256 ^ 2 + g * 256 + h)
word_of64 little (a ∷ b ∷ c ∷ d ∷ e ∷ f ∷ g ∷ h ∷ _) =
    (h * 256 ^ 3 + g * 256 ^ 2 + f * 256 + e) * 256 ^ 4 + (d * 256 ^ 3 + c * 256 ^ 2 + b * 256 + a)
word_of64 _ _ = 0

-- Network order as RFC 4506 states it: the highest octet first.
abbrev pub network_bytes32 : ℕ → List ℕ
network_bytes32 val = octet 3 val ∷ octet 2 val ∷ octet 1 val ∷ octet 0 val ∷ []

abbrev pub network_bytes64 : ℕ → List ℕ
network_bytes64 val =
    octet 7 val
    ∷ octet 6 val
    ∷ octet 5 val
    ∷ octet 4 val
    ∷ octet 3 val
    ∷ octet 2 val
    ∷ octet 1 val
    ∷ octet 0 val
    ∷ []

octet-lt : (k val : ℕ) → octet k val < 256
octet-lt k val = omega arith

-- The octets of a number given by four digits.
octets_of_digits :
    (a b c d : ℕ)
    → a < 256
    → b < 256
    → c < 256
    → d < 256
    → let n = a + b * 256 + c * 256 ^ 2 + d * 256 ^ 3 in
      (octet 0 n ≡ a) × (octet 1 n ≡ b) × (octet 2 n ≡ c) × (octet 3 n ≡ d)
octets_of_digits a b c d ha hb hc hd = (omega arith, omega arith, omega arith, omega arith)

swap_octets32 :
    (val : ℕ)
    → (octet 0 (swap_bytes32 val) ≡ octet 3 val)
      × (octet 1 (swap_bytes32 val) ≡ octet 2 val)
      × (octet 2 (swap_bytes32 val) ≡ octet 1 val)
      × (octet 3 (swap_bytes32 val) ≡ octet 0 val)
unfolding swap_bytes32
swap_octets32 val =
    octets_of_digits (octet 3 val) (octet 2 val) (octet 1 val) (octet 0 val) (octet-lt 3 val)
      (octet-lt 2 val) (octet-lt 1 val) (octet-lt 0 val)

join32 :
    (val : ℕ)
    → IsU32 val
    → octet 3 val * 256 ^ 3 + octet 2 val * 256 ^ 2 + octet 1 val * 256 + octet 0 val ≡ val
join32 val h = omega arith

join64 :
    (val : ℕ)
    → IsU64 val
    → (octet 7 val * 256 ^ 3 + octet 6 val * 256 ^ 2 + octet 5 val * 256 + octet 4 val) * 256 ^ 4
        + (octet 3 val * 256 ^ 3 + octet 2 val * 256 ^ 2 + octet 1 val * 256 + octet 0 val)
      ≡ val
join64 val h = omega arith

octets_of_digits64 :
    (a b c d e f g h : ℕ)
    → a < 256
    → b < 256
    → c < 256
    → d < 256
    → e < 256
    → f < 256
    → g < 256
    → h < 256
    → let n =
        a
        + b * 256 ^ 1
        + c * 256 ^ 2
        + d * 256 ^ 3
        + e * 256 ^ 4
        + f * 256 ^ 5
        + g * 256 ^ 6
        + h * 256 ^ 7 in
      ((octet 0 n ≡ a) × (octet 1 n ≡ b) × (octet 2 n ≡ c) × (octet 3 n ≡ d))
      × ((octet 4 n ≡ e) × (octet 5 n ≡ f) × (octet 6 n ≡ g) × (octet 7 n ≡ h))
octets_of_digits64 a b c d e f g h ha hb hc hd he hf hg hh = (
  (omega arith, omega arith, omega arith, omega arith),
  (omega arith, omega arith, omega arith, omega arith),
)

swap_octets64 :
    (val : ℕ)
    → let n = swap_bytes64 val in
      ((octet 0 n ≡ octet 7 val)
        × (octet 1 n ≡ octet 6 val)
        × (octet 2 n ≡ octet 5 val)
        × (octet 3 n ≡ octet 4 val))
      × ((octet 4 n ≡ octet 3 val)
          × (octet 5 n ≡ octet 2 val)
          × (octet 6 n ≡ octet 1 val)
          × (octet 7 n ≡ octet 0 val))
unfolding swap_bytes64
swap_octets64 v =
    octets_of_digits64 (octet 7 v) (octet 6 v) (octet 5 v) (octet 4 v) (octet 3 v) (octet 2 v)
      (octet 1 v) (octet 0 v) (octet-lt 7 v) (octet-lt 6 v) (octet-lt 5 v) (octet-lt 4 v)
      (octet-lt 3 v) (octet-lt 2 v) (octet-lt 1 v) (octet-lt 0 v)

-- On a host of either byte order, the bytes of a word in network order are its octets, highest
-- first.
pub network_order32 :
    (e : Endianness) (val : ℕ) → bytes_of32 e (host_to_network32 e val) ≡ network_bytes32 val
unfolding bytes_of32 host_to_network32
network_order32 big val = refl
network_order32 little val = let (a, b, c, d) = swap_octets32 val in cc

pub network_order64 :
    (e : Endianness) (val : ℕ) → bytes_of64 e (host_to_network64 e val) ≡ network_bytes64 val
unfolding bytes_of64 host_to_network64
network_order64 big val = refl
network_order64 little val =
    let (low, high) = swap_octets64 val in let (a, b, c, d) = low in let (e, f, g, h) = high in cc

pub host_order32 :
    (e : Endianness) (val : ℕ)
    → IsU32 val
    → network_to_host32 e (word_of32 e (network_bytes32 val)) ≡ val
unfolding network_to_host32 word_of32
host_order32 big val h = join32 val h
host_order32 little val h = omega (
  arith,
  join32 val h,
  octets_of_digits (octet 3 val) (octet 2 val) (octet 1 val) (octet 0 val) (octet-lt 3 val)
      (octet-lt 2 val) (octet-lt 1 val) (octet-lt 0 val),
)

-- Swapping twice is no change.
pub swap_twice64 : (v : ℕ) → IsU64 v → swap_bytes64 (swap_bytes64 v) ≡ v
unfolding swap_bytes64
swap_twice64 v h =
    let (low, high) =
      octets_of_digits64 (octet 7 v) (octet 6 v) (octet 5 v) (octet 4 v) (octet 3 v) (octet 2 v)
        (octet 1 v) (octet 0 v) (octet-lt 7 v) (octet-lt 6 v) (octet-lt 5 v) (octet-lt 4 v)
        (octet-lt 3 v) (octet-lt 2 v) (octet-lt 1 v) (octet-lt 0 v) in
    let (o0, o1, o2, o3) = low in
    let (o4, o5, o6, o7) = high in rw (o0, o1, o2, o3, o4, o5, o6, o7) (omega arith)

word_of64-swap : (v : ℕ) → word_of64 little (network_bytes64 v) ≡ swap_bytes64 v
unfolding word_of64 swap_bytes64
word_of64-swap v = omega arith

pub host_order64 :
    (e : Endianness) (val : ℕ)
    → IsU64 val
    → network_to_host64 e (word_of64 e (network_bytes64 val)) ≡ val
unfolding network_to_host64
host_order64 big val h = unfold word_of64 in join64 val h
host_order64 little val h = rw (word_of64-swap val) (swap_twice64 val h)
