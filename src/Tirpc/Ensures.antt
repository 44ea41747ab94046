-- ===== src/Tirpc/Ensures.antt =====
-- What is true of the objects that functions over TI-RPC streams (nfs3_rpc_tests/src/nfs3_xdr.cpp)
-- return TRUE with, statement by statement.
use nfstest.Prelude.{◌≡◌, refl}
use mathlib.Core.Path.{subst}
use nfstest.Tirpc.Stream.{Outcome, done, failed, raised, undefined, stuck, M, pure, continue, ◌>>=◌}

-- A predicate of the object, where the function returns TRUE.
abbrev pub Holds : {S A : Type 0} → (A → Type 0) → Outcome S A → Type 0
Holds P (done a s) = P a
Holds P failed = Unit
Holds P raised = Unit
Holds P undefined = Unit
Holds P stuck = Unit

pub record Ensures {S A : Type 0} (P : A → Type 0) (m : M S A) : Type 0 where
  pub holds : (s : S) → Holds P (m s)

module _ {S A : Type 0} (P : A → Type 0) where
  Holds-always : ((a : A) → P a) → (o : Outcome S A) → Holds P o
  Holds-always h (done a s) = h a
  Holds-always h failed = tt
  Holds-always h raised = tt
  Holds-always h undefined = tt
  Holds-always h stuck = tt

  Holds-returned : (o : Outcome S A) → ((a : A) (t : S) → o ≡ done a t → P a) → Holds P o
  Holds-returned (done a s) h = h a s refl
  Holds-returned failed h = tt
  Holds-returned raised h = tt
  Holds-returned undefined h = tt
  Holds-returned stuck h = tt

module _ {S A : Type 0} {P : A → Type 0} where
  pub Ensures-returned : (m : M S A) → ((a : A) (s t : S) → m s ≡ done a t → P a) → Ensures P m
  Ensures-returned m h = record { holds = λ s. Holds-returned P (m s) λ a t e. h a s t e }

  pub Ensures-always : ((a : A) → P a) → (m : M S A) → Ensures P m
  Ensures-always h m = record { holds = λ s. Holds-always P h (m s) }

  pub Ensures-pure : (a : A) → P a → Ensures {S = S} P (pure a)
  unfolding pure
  Ensures-pure a h = record { holds = λ s. h }

  pub Ensures-done : (m : M S A) → Ensures P m → (a : A) (s t : S) → m s ≡ done a t → P a
  Ensures-done m h a s t e = subst (Holds P) e (h.holds s)

module _ {S A B : Type 0} (P : B → Type 0) (Q : A → Type 0) where
  Holds-continue :
      (k : A → M S B)
      → ((a : A) → Q a → Ensures P (k a))
      → (o : Outcome S A) → Holds Q o
      → Holds P (continue o k)
  Holds-continue k h (done a s) q = (h a q).holds s
  Holds-continue k h failed q = tt
  Holds-continue k h raised q = tt
  Holds-continue k h undefined q = tt
  Holds-continue k h stuck q = tt

module _ {S A B : Type 0} {P : B → Type 0} where
  pub Ensures->>= :
      {Q : A → Type 0} {m : M S A} (k : A → M S B)
      → Ensures Q m
      → ((a : A) → Q a → Ensures P (k a))
      → Ensures P (m >>= k)
  unfolding ◌>>=◌
  Ensures->>= {Q} {m} k h g = record { holds = λ s. Holds-continue P Q k g (m s) (h.holds s) }

  -- A statement that nothing is asked of.
  pub Ensures-skip : (m : M S A) (k : A → M S B) → ((a : A) → Ensures P (k a)) → Ensures P (m >>= k)
  Ensures-skip m k g = Ensures->>= {Q = λ a. Unit {0}} k (Ensures-always (λ a. tt) m) (λ a q. g a)
