-- ===== src/Nfs/FsInfo/Properties.antt =====
-- fsinfo3_resok_property of nfs3_rpc_tests/include/nfs3/nfs3_types.hpp: what is read back of what
-- was written.
use nfstest.Prelude.{ℕ, ◌≡◌, refl, List, [], ◌++◌, length, not, ◌==◌}
use nfstest.Xdr.Word.{Endianness, IsU32, network_bytes32}
use nfstest.Xdr.Buffer.{XdrBuffer, ok, empty_buffer, unpack_bool}
use nfstest.Xdr.Codec.{pack, unpack}
use nfstest.Xdr.Wire.{Packs, Reads, Packs->>, Reads->>=, Reads-last, between}
use nfstest.Xdr.Words.{
  flag_word, pack_u32-Packs, pack_bool-Packs, unpack_u32-Reads, unpack_bool-Reads,
}
use nfstest.Nfs.FsInfo.{Fsinfo3ResokProperty, fsinfo3_resok_property_codec}

abbrev read_words : Fsinfo3ResokProperty → List ℕ
read_words v =
    network_bytes32 v.linkmax
    ++ (network_bytes32 v.name_max
        ++ (network_bytes32 (flag_word v.no_trunc)
            ++ (network_bytes32 (flag_word v.chown_restricted)
                ++ network_bytes32 (flag_word v.case_insensitive))))

-- Every member behind `linkmax` is taken from the word before its own.
abbrev pub shifted : Fsinfo3ResokProperty → Fsinfo3ResokProperty → Fsinfo3ResokProperty
shifted old v = record {
  linkmax = v.linkmax;
  name_max = old.name_max;
  no_trunc = not (v.name_max == 0);
  chown_restricted = v.no_trunc;
  case_insensitive = v.chown_restricted;
  case_preserving = v.case_insensitive;
}

property-Packs :
    (v : Fsinfo3ResokProperty)
    → Packs (pack v) (read_words v ++ network_bytes32 (flag_word v.case_preserving))
unfolding fsinfo3_resok_property_codec
property-Packs v = Packs->> (pack_u32-Packs v.linkmax) (
    Packs->> (pack_u32-Packs v.name_max) (
      Packs->> (pack_bool-Packs v.no_trunc) (
        Packs->> (pack_bool-Packs v.chown_restricted)
          (Packs->> (pack_bool-Packs v.case_insensitive) (pack_bool-Packs v.case_preserving)))))

any_word-Reads : (n : ℕ) → IsU32 n → Reads unpack_bool (network_bytes32 n) (not (n == 0))
unfolding unpack_bool
any_word-Reads n h = Reads-last (λ m. not (m == 0)) (unpack_u32-Reads n h)

property-Reads :
    (old v : Fsinfo3ResokProperty)
    → IsU32 v.linkmax
    → IsU32 v.name_max
    → Reads (unpack old) (read_words v) (shifted old v)
unfolding fsinfo3_resok_property_codec
property-Reads old v hl hn = Reads->>= _ (unpack_u32-Reads v.linkmax hl) (
    Reads->>= _ (any_word-Reads v.name_max hn) (
      Reads->>= _ (unpack_bool-Reads v.no_trunc) (
        Reads->>= _ (unpack_bool-Reads v.chown_restricted)
          (Reads-last _ (unpack_bool-Reads v.case_insensitive)))))

-- The properties that are written, 24 bytes, are not read back: `name_max` keeps what the object
-- held before, each flag takes the word in front of its own, and the last 4 bytes are left in the
-- buffer. Writer and reader have either byte order, and the numbers are in their machine ranges.
pub fsinfo3_property_shift :
    (writer reader : Endianness) (old v : Fsinfo3ResokProperty)
    → IsU32 v.linkmax
    → IsU32 v.name_max
    → (b : XdrBuffer) × (pack v writer empty_buffer ≡ ok tt b)
      × (length b.buffer ≡ 24)
      × (unpack old reader b ≡ ok (shifted old v) (record b { pos = 20 }))
unfolding between
fsinfo3_property_shift writer reader old v hl hn = (
  record { buffer = read_words v ++ network_bytes32 (flag_word v.case_preserving); pos = 0 },
  (property-Packs v).appends writer empty_buffer refl,
  refl,
  (property-Reads old v hl hn).consumes reader [] (network_bytes32 (flag_word v.case_preserving)),
)
