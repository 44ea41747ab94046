-- ===== src/Mount/Exports.antt =====
-- The reply of the MOUNT procedure EXPORT: `xdr_unpack_exports` of
-- nfs3_rpc_tests/src/mount_client.cpp as it is built without libtirpc.
-- Both loops are `while (true)`: a round takes a unit of fuel, and the buffer's size is enough, since
-- each round reads a flag of four bytes.
pub mod Safety
pub mod Reading
use nfstest.Prelude.{ℕ, zero, suc, Bool, List, [], ◌∷◌, length, if◌then◌else◌}
use nfstest.Xdr.Buffer.{M, stuck, pure, ◌>>=◌, ◌>>◌, unpack_bool, unpack_string}

-- `while (true)` over the groups of an export, whose names are dropped.
unfoldable pub unpack_groups : ℕ → M (Unit {0})
unpack_groups zero = λ e b. stuck
unpack_groups (suc fuel) = do
  has_grp ← unpack_bool
  let rest = unpack_groups fuel
  if has_grp then (do grp ← unpack_string; rest) else pure tt

unfoldable pub unpack_all_groups : M (Unit {0})
unfolding unpack_groups
unpack_all_groups e b = unpack_groups (suc (length b.buffer)) e b

-- `while (true)` over the exports, with the paths that are put into `out`.
unfoldable pub unpack_exports : ℕ → M (List (List ℕ))
unfolding unpack_all_groups
unpack_exports zero = λ e b. stuck
unpack_exports (suc fuel) = do
  has_entry ← unpack_bool
  let rest = unpack_exports fuel
  if has_entry
      then (do
        dir ← unpack_string
        has_groups ← unpack_bool
        if has_groups then unpack_all_groups else pure tt
        more ← unpack_bool
        if more then (do dirs ← rest; pure (dir ∷ dirs)) else pure (dir ∷ []))
      else pure []

unfoldable pub xdr_unpack_exports : M (List (List ℕ))
unfolding unpack_exports
xdr_unpack_exports e b = unpack_exports (suc (length b.buffer)) e b
