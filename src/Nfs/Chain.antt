-- ===== src/Nfs/Chain.antt =====
-- The linked entries of a directory listing: `nextentry` and the lists `entries` of entry3,
-- dirlist3, entryplus3 and dirlistplus3 in nfs3_rpc_tests/include/nfs3/nfs3_types.hpp.
-- A `std::unique_ptr` to an entry is the list of that entry and those behind it, null the empty
-- list. The two entry classes differ in the members before `nextentry`, which have a codec.
pub mod RoundTrip
pub mod Safety
use nfstest.Prelude.{ℕ, zero, suc, Bool, true, false, List, [], ◌∷◌, length, if◌then◌else◌}
use nfstest.Xdr.Buffer.{M, stuck, pure, ◌>>=◌, ◌>>◌, pack_bool, unpack_bool}
use nfstest.Xdr.Codec.{Codec, Fresh, pack, unpack, fresh}

-- `ptr != nullptr`
abbrev pub is_set : {A : Type 0} → List A → Bool
is_set [] = false
is_set (x ∷ next) = true

module _ {A : Type 0} ⦃c : Codec A⦄ where
  -- `serialize` of the entry that is pointed to; nothing for a null pointer.
  unfoldable pub pack_chain : List A → M (Unit {0})
  pack_chain [] = pure tt
  pack_chain (entry ∷ next) = do pack entry; pack_bool (is_set next); pack_chain next

  module _ ⦃f : Fresh A⦄ where
    -- `deserialize` into a new entry, each on one unit of fuel.
    unfoldable pub unpack_chain : ℕ → M (List A)
    unpack_chain zero = λ e b. stuck
    unpack_chain (suc fuel) = do
      entry ← unpack fresh
      has_next ← unpack_bool
      let rest = unpack_chain fuel
      next ← (if has_next then rest else pure [])
      pure (entry ∷ next)

    -- Each entry takes at least the 4 bytes of its flag, so that the buffer's size is enough fuel.
    unfoldable pub unpack_entries : M (List A)
    unpack_entries e b = unpack_chain (suc (length b.buffer)) e b
