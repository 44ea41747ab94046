-- ===== src/NfsC/Taken.antt =====
-- Rules for the functions that unpack a structure: nfs3_rpc_tests_c/src/nfs3_xdr.c beside the
-- `deserialize` of nfs3_rpc_tests/include/nfs3/nfs3_types.hpp.
use nfstest.Prelude.{◌≡◌, refl, Bool, true, false, Option, some, arith, if◌then◌else◌}
use nfstest.Xdr.Word.{Endianness}
use nfstest.Xdr.Buffer
use nfstest.Xdr.Buffer.{XdrBuffer, unpack_u32, unpack_u64, unpack_bool}
use nfstest.Xdr.Safety.{ReadOn, ReadOn-trans}
use nfstest.XdrC.Growth
use nfstest.XdrC.Growth.{XdrBuf, Heap, Outcome, M, returned, pure, ◌>>=◌, ◌>>◌}
use nfstest.XdrC.Capacity.{Grants}
use nfstest.XdrC.Agree.{view}
use nfstest.XdrC.Reading.{told, SameRead, Readable, SameReader, same_buffer}
use nfstest.NfsC.Attributes.{into, into_new}

-- The function of the C suite returned `a`, with the position where the method of the C++ program
-- left it in `d`, and nothing else of the buffer changed.
pub record Same {A : Type 0} (b : XdrBuf) (a : A) (d : XdrBuffer) (o : Outcome A) : Type 0 where
  pub heap : Heap
  pub ends : o ≡ returned a heap (record b { pos = d.pos })
  pub grants : Grants heap
  pub onward : ReadOn (view b) d

-- What the method of the C++ program gave, the function of the C suite gave too; of a throw nothing
-- is said.
abbrev pub Taken : {A : Type 0} → XdrBuf → Buffer.Outcome A → Outcome A → Type 0
Taken b (Buffer.ok a d) o = Same b a d o
Taken b (Buffer.threw x d) o = Unit
Taken b Buffer.fault o = Unit
Taken b Buffer.stuck o = Unit

pub record Takes {A : Type 0} (c : M A) (r : Buffer.M A) : Type 0 where
  pub at :
      (e : Endianness) (h : Heap) (b : XdrBuf)
      → Readable b
      → Grants h
      → Taken b (r e (view b)) (c e h b)

module _ {A : Type 0} (c : M (Option A)) (k : Option A → M A) (same : (a : A) → k (some a) ≡ pure a)
    (e : Endianness) (h : Heap) (b : XdrBuf) where
  Taken-word :
      (o : Buffer.Outcome A) → SameRead b (told o) (c e h b) o → Taken b o ((c >>= k) e h b)
  unfolding ◌>>=◌ pure
  Taken-word (Buffer.ok a d) s =
      rw (s.ends, same a)
        (record { heap = s.heap; ends = refl; grants = s.grants; onward = s.sound })
  Taken-word (Buffer.threw x d) s = tt
  Taken-word Buffer.fault s = tt
  Taken-word Buffer.stuck s = tt

module _ {A : Type 0} {c : M (Option A)} {r : Buffer.M A} where
  pub Takes-into : (old : A) → SameReader (λ o. o) c r → Takes (into old c) r
  unfolding into
  Takes-into old s = record {
    at = λ e h b k g. Taken-word c _ (λ a. refl) e h b (r e (view b)) (s.at e h b k g);
  }

  pub Takes-new : SameReader (λ o. o) c r → Takes (into_new c) r
  unfolding into_new pure
  Takes-new s = record {
    at = λ e h b k g. Taken-word c _ (λ a. refl) e h b (r e (view b)) (s.at e h b k g);
  }

module _ {A B : Type 0} (k : A → M B) (f : A → Buffer.M B) (q : (a : A) → Takes (k a) (f a))
    (e : Endianness) (b : XdrBuf) (readable : Readable b) where
  Taken-later :
      {d : XdrBuffer} (p : Buffer.Outcome B) (o : Outcome B)
      → ReadOn (view b) d
      → Taken (record b { pos = d.pos }) p o
      → Taken b p o
  Taken-later (Buffer.ok a d2) o s t = record {
    heap = t.heap;
    ends = t.ends;
    grants = t.grants;
    onward = ReadOn-trans (record { same = refl; onward = s.onward; reach = s.reach }) t.onward;
  }
  Taken-later (Buffer.threw x d2) o s t = tt
  Taken-later Buffer.fault o s t = tt
  Taken-later Buffer.stuck o s t = tt

  Taken-next :
      (p : Buffer.Outcome A) (o : Outcome A)
      → Taken b p o
      → Taken b (Buffer.continue p e f) (Growth.continue o e k)
  Taken-next (Buffer.ok a d) o t =
      let second =
        (q a).at e t.heap (record b { pos = d.pos })
          (record { below = readable.below; reach = t.onward.reach }) t.grants in
      rw (t.ends, same_buffer b d t.onward) (Taken-later {d = d} _ _ t.onward second)
  Taken-next (Buffer.threw x d) o t = tt
  Taken-next Buffer.fault o t = tt
  Taken-next Buffer.stuck o t = tt

module _ {A B : Type 0} {c : M A} {r : Buffer.M A} {k : A → M B} {f : A → Buffer.M B} where
  pub Takes->>= : Takes c r → ((a : A) → Takes (k a) (f a)) → Takes (c >>= k) (Buffer.◌>>=◌ r f)
  unfolding ◌>>=◌ Buffer.◌>>=◌
  Takes->>= p q = record {
    at = λ e h b readable g.
        Taken-next k f q e b readable (r e (view b)) (c e h b) (p.at e h b readable g);
  }

module _ {A : Type 0} where
  pub Takes-pure : (a : A) → Takes (pure a) (Buffer.pure a)
  unfolding pure Buffer.pure
  Takes-pure a = record {
    at = λ e h b k g. record {
      heap = h;
      ends = refl;
      grants = g;
      onward = record { same = refl; onward = omega arith; reach = k.reach };
    };
  }

  pub Takes-if :
      {c x : M A} {r u : Buffer.M A} (flag : Bool)
      → Takes c r
      → Takes x u
      → Takes (if flag then c else x) (if flag then r else u)
  Takes-if true p q = p
  Takes-if false p q = q
