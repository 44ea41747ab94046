-- ===== src/Nfs/Reply.antt =====
-- The replies GETATTR3res, SETATTR3res, ..., COMMIT3res of
-- nfs3_rpc_tests/include/nfs3/nfs3_types.hpp: 21 structures that differ in their type names only.
pub mod RoundTrip
pub mod Safety
use nfstest.Prelude.{ℕ, Option, none, some, ◌==◌, if◌then◌else◌}
use nfstest.Xdr.Buffer.{pure, ◌>>=◌, ◌>>◌, pack_u32, unpack_u32}
use nfstest.Xdr.Codec.{Codec, Fresh, pack, unpack, fresh, when, pack_present}

-- `NFS3_OK` of `enum class nfsstat3`.
abbrev pub nfs3_ok : ℕ
nfs3_ok = 0

pub record Res (A : Type 0) : Type 0 where
  pub status : ℕ
  pub resok : Option A

module _ {A : Type 0} ⦃c : Codec A⦄ ⦃f : Fresh A⦄ where
  instance unfoldable pub res_codec : Codec (Res A)
  res_codec = record {
    serialize = λ o. do
      pack_u32 o.status
      when (o.status == nfs3_ok) (pack_present pack o.resok);
    deserialize = λ old. do
      status ← unpack_u32
      if status == nfs3_ok
          then (do res ← unpack fresh; pure (record { status = status; resok = some res }))
          else pure (record old { status = status });
  }

-- `status` is not initialised; zero stands for it.
instance abbrev pub res_fresh : {A : Type 0} → Fresh (Res A)
res_fresh = record { fresh = record { status = 0; resok = none } }
