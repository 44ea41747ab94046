-- ===== src/XdrC/Order.antt =====
-- Byte order: the static functions at the head of nfs3_rpc_tests_c/src/xdr_codec.c.
-- `__builtin_bswap32` has the value of the expression beside it, which is written out here.
use nfstest.Prelude.{ℕ, ◌+◌, ◌*◌, ◌^◌, ◌≡◌, refl}
use nfstest.Xdr.Word.{Endianness, big, little, octet}
use nfstest.Xdr.Word

unfoldable swap_bytes32 : ℕ → ℕ
swap_bytes32 val =
    octet 3 val + octet 2 val * 256 ^ 1 + octet 1 val * 256 ^ 2 + octet 0 val * 256 ^ 3

unfoldable swap_bytes64 : ℕ → ℕ
swap_bytes64 val =
    octet 7 val
    + octet 6 val * 256 ^ 1
    + octet 5 val * 256 ^ 2
    + octet 4 val * 256 ^ 3
    + octet 3 val * 256 ^ 4
    + octet 2 val * 256 ^ 5
    + octet 1 val * 256 ^ 6
    + octet 0 val * 256 ^ 7

-- The host's byte order stands for NATIVE_BIG_ENDIAN.
unfoldable pub host_to_network32 : Endianness → ℕ → ℕ
unfolding swap_bytes32
host_to_network32 big val = val
host_to_network32 little val = swap_bytes32 val

unfoldable pub network_to_host32 : Endianness → ℕ → ℕ
network_to_host32 e val = host_to_network32 e val

unfoldable pub host_to_network64 : Endianness → ℕ → ℕ
unfolding swap_bytes64
host_to_network64 big val = val
host_to_network64 little val = swap_bytes64 val

unfoldable pub network_to_host64 : Endianness → ℕ → ℕ
network_to_host64 e val = host_to_network64 e val

-- The class XdrBuffer turns words in the same way.
pub same_order32 :
    (e : Endianness) (val : ℕ) → host_to_network32 e val ≡ Word.host_to_network32 e val
unfolding host_to_network32 swap_bytes32 Word.host_to_network32 Word.swap_bytes32
same_order32 big val = refl
same_order32 little val = refl

pub same_order64 :
    (e : Endianness) (val : ℕ) → host_to_network64 e val ≡ Word.host_to_network64 e val
unfolding host_to_network64 swap_bytes64 Word.host_to_network64 Word.swap_bytes64
same_order64 big val = refl
same_order64 little val = refl

pub same_host_order32 :
    (e : Endianness) (val : ℕ) → network_to_host32 e val ≡ Word.network_to_host32 e val
unfolding network_to_host32 Word.network_to_host32
same_host_order32 e val = same_order32 e val

pub same_host_order64 :
    (e : Endianness) (val : ℕ) → network_to_host64 e val ≡ Word.network_to_host64 e val
unfolding network_to_host64 Word.network_to_host64
same_host_order64 e val = same_order64 e val
