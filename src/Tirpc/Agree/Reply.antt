-- ===== src/Tirpc/Agree/Reply.antt =====
-- Replies: the bytes of their layout, and the reply that is read from them.
use nfstest.Prelude.{ℕ, ◌≡◌, refl, Option, none, some, ◌==◌, Cases}
use nfstest.Xdr.Word.{IsU32}
use nfstest.Xdr.Buffer
use nfstest.Xdr.Codec.{Fresh, fresh, pack_present}
use nfstest.Nfs.Reply.{Res, nfs3_ok}
use nfstest.Tirpc.Stream.{Op, encode, decode, M, done, pure, ◌>>=◌, XdrLib, XdrLaws}
use nfstest.Tirpc.Idioms.{xdr_res, xdr_res_value, xdr_res_else_false, value, present, or_fresh}
use nfstest.Tirpc.Layout.{res_layout}
use nfstest.Tirpc.Agree.{Agrees, Agrees-then, Agrees-last, Agrees-if, Agrees-start, Agrees-pure}
use nfstest.Tirpc.Agree.Values.{Agrees-enum}

-- A reply with the status NFS3_OK has a result to send; one with another status has none, and
-- neither has the object that it is read into.
abbrev pub SendableRes : {A : Type 0} → (A → Type 0) → Res A → Res A → Type 0
SendableRes {A} P old v =
    IsU32 v.status
    × Cases (v.status == nfs3_ok) ((a : A) × (v.resok ≡ some a) × P a)
        ((v.resok ≡ none) × (old.resok ≡ none))

abbrev pub seen_as : {A : Type 0} → (A → A) → Option A → Option A
seen_as seen none = none
seen_as seen (some a) = some (seen a)

module _ ⦃lib : XdrLib⦄ (laws : XdrLaws lib) {A : Type 0} ⦃f : Fresh A⦄ {P : A → Type 0}
    {layout : A → Buffer.M (Unit {0})} (xdr_resok : Op → A → M lib.Stream A) (seen : A → A)
    (agree : (a : A)
      → P a
      → Agrees laws
          (layout a)
          (xdr_resok encode a)
          (xdr_resok decode fresh)
          a
          (done (seen a))) where
  -- The reply as it is read.
  abbrev read_as : Res A → Res A
  read_as v = record { status = v.status; resok = seen_as seen v.resok }

  without_result :
      (status : ℕ) (o old : Option A)
      → (o ≡ none) × (old ≡ none)
      → Agrees laws {A = Res A}
          (Buffer.pure tt)
          (pure (record { status = status; resok = o }))
          (pure (record { status = status; resok = old }))
          (record { status = status; resok = o })
          (done (record { status = status; resok = seen_as seen o }))
  without_result status o old (p, q) = rw (p, q) (Agrees-pure _ _)

  with_result :
      (status : ℕ) (o : Option A)
      → (a : A) × (o ≡ some a) × P a
      → Agrees laws {A = Res A}
          (pack_present layout o)
          (xdr_resok encode (or_fresh encode o) >>= λ r.
            pure (record { status = status; resok = o }))
          (xdr_resok decode fresh >>= λ r. pure (record { status = status; resok = some r }))
          (record { status = status; resok = o })
          (done (record { status = status; resok = seen_as seen o }))
  with_result status o (a, p, k) = rw p (Agrees-last _ _ (agree a k))

  pub Agrees-res :
      (old v : Res A)
      → SendableRes P old v
      → Agrees laws
          (res_layout layout v)
          (xdr_res xdr_resok encode v)
          (xdr_res xdr_resok decode old)
          v
          (done (read_as v))
  unfolding xdr_res
  Agrees-res old v (h, g) = Agrees-then _ _ _ (Agrees-enum laws old.status v.status h) (
      Agrees-if (v.status == nfs3_ok) (λ e. with_result v.status v.resok (rw e at g))
        (λ e. without_result v.status v.resok old.resok (rw e at g)))

  -- The result that is encoded is fetched by `start`.
  result_by :
      (start : Option A → M lib.Stream A)
      → ((a : A) → start (some a) ≡ pure a)
      → (status : ℕ) (o : Option A) → (a : A) × (o ≡ some a) × P a
      → Agrees laws {A = Res A}
          (pack_present layout o)
          (start o >>= λ from.
            xdr_resok encode from >>= λ r. pure (record { status = status; resok = o }))
          (pure fresh >>= λ from.
            xdr_resok decode from >>= λ r. pure (record { status = status; resok = some r }))
          (record { status = status; resok = o })
          (done (record { status = status; resok = seen_as seen o }))
  result_by start fetched status o (a, p, k) =
      rw (p, fetched a) (Agrees-start _ _ a fresh (Agrees-last _ _ (agree a k)))

  pub Agrees-res_value :
      (old v : Res A)
      → SendableRes P old v
      → Agrees laws
          (res_layout layout v)
          (xdr_res_value xdr_resok encode v)
          (xdr_res_value xdr_resok decode old)
          v
          (done (read_as v))
  unfolding xdr_res_value
  Agrees-res_value old v (h, g) = Agrees-then _ _ _ (Agrees-enum laws old.status v.status h) (
      Agrees-if (v.status == nfs3_ok)
        (λ e. result_by value (unfold value in λ a. refl) v.status v.resok (rw e at g))
        (λ e. without_result v.status v.resok old.resok (rw e at g)))

  pub Agrees-res_else_false :
      (old v : Res A)
      → SendableRes P old v
      → Agrees laws
          (res_layout layout v)
          (xdr_res_else_false xdr_resok encode v)
          (xdr_res_else_false xdr_resok decode old)
          v
          (done (read_as v))
  unfolding xdr_res_else_false
  Agrees-res_else_false old v (h, g) = Agrees-then _ _ _ (Agrees-enum laws old.status v.status h) (
      Agrees-if (v.status == nfs3_ok)
        (λ e. result_by present (unfold present in λ a. refl) v.status v.resok (rw e at g))
        (λ e. without_result v.status v.resok old.resok (rw e at g)))
