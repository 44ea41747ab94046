-- ===== src/Nfs/Reply/RoundTrip.antt =====
-- Replies: read back as written.
use nfstest.Prelude.{ℕ, Option, ◌≡◌, some, Cases, ◌==◌}
use nfstest.Xdr.Word.{IsU32}
use nfstest.Xdr.Codec.{Codec, Fresh, pack, unpack, fresh, pack_present}
use nfstest.Xdr.Buffer.{pure, ◌>>=◌}
use nfstest.Xdr.Wire.{Wire, Wire-then, Wire-last, Wire-skip, Wire-if}
use nfstest.Xdr.Words.{Wire-u32}
use nfstest.Nfs.Reply.{Res, res_codec, nfs3_ok}

-- A reply with the status NFS3_OK has a result, and one with another status leaves none to see
-- but the old one.
abbrev pub ResFits : {A : Type 0} → (A → Type 0) → Res A → Res A → Type 0
ResFits {A} P old v =
    IsU32 v.status
    × Cases (v.status == nfs3_ok) ((a : A) × (v.resok ≡ some a) × P a) (v.resok ≡ old.resok)

module _ {A : Type 0} ⦃c : Codec A⦄ ⦃f : Fresh A⦄ {P : A → Type 0} where
  Wire-resok :
      ((a : A) → P a → Wire (pack a) (unpack fresh) a)
      → (status : ℕ) (o : Option A) → (a : A) × (o ≡ some a) × P a
      → Wire {A = Res A}
          (pack_present pack o)
          (unpack (fresh {A = A}) >>= λ res. pure (record { status = status; resok = some res }))
          (record { status = status; resok = o })
  Wire-resok k status o (a, p, q) = rw p (Wire-last _ (k a q))

  pub Wire-res :
      ((a : A) → P a → Wire (pack a) (unpack fresh) a)
      → (old v : Res A) → ResFits P old v
      → Wire (pack v) (unpack old) v
  unfolding res_codec
  Wire-res k old v (h, g) = Wire-then _ (Wire-u32 v.status h) (
      Wire-if (v.status == nfs3_ok) (λ e. Wire-resok k v.status v.resok (rw e at g))
        (λ e. let kept : v.resok ≡ old.resok = rw e at g in Wire-skip (cc)))
