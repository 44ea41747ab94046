-- ===== src/Xdr/Codec.antt =====
-- The interface by which XdrBuffer packs and unpacks objects: the templates `pack<T>` and
-- `unpack<T>` of nfs3_rpc_tests/include/nfs3/xdr_codec.hpp call the object's own `serialize` and
-- `deserialize`.
use nfstest.Prelude.{Bool, true, false, Option, none, some, if◌then◌else◌}
use nfstest.Xdr.Buffer.{M, pure, ◌>>=◌}

-- `deserialize` writes the fields of an object that exists: it takes the old object and gives the
-- new one. What a throw has half written is not kept, since no caller looks at it.
pub record Codec (A : Type 0) : Type 0 where
  pub serialize : A → M (Unit {0})
  pub deserialize : A → M A

abbrev pub pack : {A : Type 0} ⦃c : Codec A⦄ → A → M (Unit {0})
pack ⦃c⦄ obj = c.serialize obj

abbrev pub unpack : {A : Type 0} ⦃c : Codec A⦄ → A → M A
unpack ⦃c⦄ obj = c.deserialize obj

-- The value of an object that is declared without an initialiser.
pub record Fresh (A : Type 0) : Type 0 where
  pub fresh : A

abbrev pub fresh : {A : Type 0} ⦃f : Fresh A⦄ → A
fresh ⦃f⦄ = f.fresh

-- `if (flag) buf.pack(...)`
abbrev pub when : Bool → M (Unit {0}) → M (Unit {0})
when flag m = if flag then m else pure tt

-- `if (obj.has_value()) buf.pack(obj.value())`
abbrev pub pack_present : {A : Type 0} → (A → M (Unit {0})) → Option A → M (Unit {0})
pack_present m none = pure tt
pack_present m (some a) = m a

abbrev pub has_value : {A : Type 0} → Option A → Bool
has_value none = false
has_value (some a) = true

-- `if (flag) { T t; buf.unpack(t); member = t; }`
abbrev pub unpack_present : {A : Type 0} → Bool → M A → Option A → M (Option A)
unpack_present flag r old = if flag then (do a ← r; pure (some a)) else pure old
