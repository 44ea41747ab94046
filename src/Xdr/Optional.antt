-- ===== src/Xdr/Optional.antt =====
-- A value that is on the wire only if it is present, behind a flag.
use nfstest.Prelude.{◌≡◌, Option, none, some}
use nfstest.Xdr.Buffer.{M}
use nfstest.Xdr.Codec.{pack_present, unpack_present, has_value}
use nfstest.Xdr.Wire.{Wire, Wire-last, Wire-skip}

-- A value that is present fits `P`; one that is absent leaves nothing of the old one to see.
abbrev pub OptionFits : {A : Type 0} → (A → Type 0) → Option A → Option A → Type 0
OptionFits P old none = old ≡ none
OptionFits P old (some a) = P a

pub Wire-optional :
    {A : Type 0} {P : A → Type 0} {m : A → M (Unit {0})} {r : M A}
    → ((a : A) → P a → Wire (m a) r a)
    → (old v : Option A) → OptionFits P old v
    → Wire (pack_present m v) (unpack_present (has_value v) r old) v
Wire-optional k old none h = Wire-skip h
Wire-optional k old (some a) h = Wire-last some (k a h)
