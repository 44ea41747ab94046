-- ===== src/Tirpc/Agree/SetAttributes.antt =====
-- Optional members and the attributes to set: the bytes of their layout.
use nfstest.Prelude.{true, false, Option, none, some}
use nfstest.Xdr.Word.{IsU32, IsU64}
use nfstest.Xdr.Buffer
use nfstest.Xdr.Buffer.{pack_u32, pack_u64}
use nfstest.Xdr.Codec.{fresh}
use nfstest.Nfs.Attributes.{nfstime3_codec, nfstime3_fresh}
use nfstest.Nfs.Attributes.RoundTrip.{Nfstime3Fits}
use nfstest.Nfs.SetAttributes.{Sattr3}
use nfstest.Tirpc.Stream.{Op, encode, decode, M, done, XdrLib, XdrLaws}
use nfstest.Tirpc.Idioms.{xdr_optional, value}
use nfstest.Tirpc.SetAttributes.{xdr_sattr3}
use nfstest.Tirpc.Layout.{optional_layout, sattr3_layout}
use nfstest.Tirpc.Agree.{Agrees, Agrees-then, Agrees-last, Agrees-pure, Agrees-start}
use nfstest.Tirpc.Agree.Values.{Agrees-u_int, Agrees-u_hyper, Agrees-flag_word}
use nfstest.Tirpc.Agree.Attributes.{Agrees-nfstime3}

-- A member that is set is in its range.
abbrev pub Present : {A : Type 0} → (A → Type 0) → Option A → Type 0
Present P none = Unit {0}
Present P (some a) = P a

module _ ⦃lib : XdrLib⦄ (laws : XdrLaws lib) where
  pub Agrees-optional :
      {A : Type 0} {m : A → Buffer.M (Unit {0})} {local : A} {P : A → Type 0}
      (f : Op → A → M lib.Stream A) (old v : Option A)
      → ((a : A) → P a → Agrees laws (m a) (f encode a) (f decode local) a (done a))
      → Present P v
      → Agrees laws
          (optional_layout m v)
          (xdr_optional f local encode v)
          (xdr_optional f local decode old)
          v
          (done v)
  unfolding xdr_optional
  Agrees-optional f old none agree h =
      Agrees-then _ _ _ (Agrees-flag_word laws false) (Agrees-pure none none)
  Agrees-optional {local = local} f old (some a) agree h =
      Agrees-then _ _ _ (Agrees-flag_word laws true)
        (unfold value in Agrees-start _ _ a local (Agrees-last _ _ (agree a h)))

pub record SendableSattr3 (v : Sattr3) : Type 0 where
  pub mode : Present IsU32 v.mode
  pub uid : Present IsU32 v.uid
  pub gid : Present IsU32 v.gid
  pub size : Present IsU64 v.size
  pub atime : Present Nfstime3Fits v.atime
  pub mtime : Present Nfstime3Fits v.mtime

module _ ⦃lib : XdrLib⦄ (laws : XdrLaws lib) where
  pub Agrees-sattr3 :
      (old v : Sattr3)
      → SendableSattr3 v
      → Agrees laws (sattr3_layout v) (xdr_sattr3 encode v) (xdr_sattr3 decode old) v (done v)
  unfolding xdr_sattr3
  Agrees-sattr3 old v h =
      Agrees-then _ _ _
        (Agrees-optional laws _ old.mode v.mode (λ a k. Agrees-u_int laws 0 a k) h.mode)
        (Agrees-then _ _ _
          (Agrees-optional laws _ old.uid v.uid (λ a k. Agrees-u_int laws 0 a k) h.uid)
          (Agrees-then _ _ _
            (Agrees-optional laws _ old.gid v.gid (λ a k. Agrees-u_int laws 0 a k) h.gid)
            (Agrees-then _ _ _
              (Agrees-optional laws _ old.size v.size (λ a k. Agrees-u_hyper laws 0 a k) h.size)
              (Agrees-then _ _ _
                (Agrees-optional laws _ old.atime v.atime (λ a k. Agrees-nfstime3 laws fresh a k)
                  h.atime)
                (Agrees-last _ _ (
                  Agrees-optional laws _ old.mtime v.mtime (λ a k. Agrees-nfstime3 laws fresh a k)
                    h.mtime))))))
