-- ===== src/Tirpc/Idioms.antt =====
-- What the functions of nfs3_rpc_tests/src/nfs3_xdr.cpp have in common: a flag, an enumerator, an
-- optional member, a string and a result are each handled by the same statements wherever they
-- stand.
use nfstest.Prelude.{
  ℕ, ◌%◌, ◌^◌, Bool, not, List, [], ◌∷◌, ◌++◌, ◌==◌, leb, drop, Option, none, some, length, take,
  if◌then◌else◌,
}
use nfstest.Xdr.Word.{bytes_of64, word_of64}
use nfstest.Xdr.Words.{flag_word}
use nfstest.Xdr.Codec.{Fresh, fresh, has_value}
use nfstest.Nfs.Reply.{Res, nfs3_ok}
use nfstest.Tirpc.Stream.{
  Op, encode, decode, release, is_encode, is_decode, M, failed, raised, undefined, pure, halt,
  ◌>>=◌, Pointer, null, to, XdrLib,
}

-- The bytes of `s.c_str()` up to the first NUL, and of a std::string that is assigned them.
unfoldable pub c_str : List ℕ → List ℕ
c_str [] = []
c_str (c ∷ s) = let rest = c_str s in if c == 0 then [] else c ∷ rest

-- The bytes that are handed over with `u_int len = v.size()`.
unfoldable pub counted : List ℕ → List ℕ
counted bytes = take (length bytes % 2 ^ 32) bytes

-- `data()` of a vector, an empty one having no storage.
abbrev pub storage : List ℕ → Pointer
storage [] = null
storage (x ∷ bytes) = to (counted (x ∷ bytes))

module _ ⦃lib : XdrLib⦄ where
  -- An enumerator, by way of a `uint32_t` that is set on encoding and read on decoding.
  unfoldable pub xdr_enum : Op → ℕ → M lib.Stream ℕ
  xdr_enum op val = do
    w ← lib.xdr_u_int op (if is_encode op then val else 0)
    pure (if is_decode op then w else val)

  -- `flag ? 1 : 0`, and `flag = (word != 0)`
  unfoldable pub xdr_flag : Op → Bool → M lib.Stream Bool
  xdr_flag op flag = do
    w ← lib.xdr_u_int op (if is_encode op then flag_word flag else 0)
    pure (if is_decode op then not (w == 0) else flag)

  -- `member.value()`
  unfoldable pub value : {A : Type 0} → Option A → M lib.Stream A
  value none = halt raised
  value (some a) = pure a

  -- A `std::optional` member behind its flag, by way of a local object.
  unfoldable pub xdr_optional :
      {A : Type 0} → (Op → A → M lib.Stream A) → A → Op → Option A → M lib.Stream (Option A)
  unfolding value
  xdr_optional xdr_member local op member = do
    w ← lib.xdr_u_int op (if is_encode op then flag_word (has_value member) else 0)
    if w == 0 then pure (if is_decode op then none else member) else do
      start ← (if is_encode op then value member else pure local)
      val ← xdr_member op start
      pure (if is_decode op then some val else member)

  -- A string of an object that is decoded from a null pointer.
  unfoldable pub xdr_text : Op → List ℕ → ℕ → M lib.Stream (List ℕ)
  xdr_text op s max = do
    ptr ← lib.xdr_string op (if is_encode op then to (c_str s) else null) max
    pure (if is_decode op then c_str ptr else s)

  -- A string whose own `c_str()` is handed over whatever the operation. On decoding it is written
  -- through and then freed, and on XDR_FREE it is freed, though malloc has not given it.
  unfoldable pub xdr_own_text : Op → List ℕ → ℕ → M lib.Stream (List ℕ)
  xdr_own_text op s max = do
    ptr ← lib.xdr_string op (to (c_str s)) max
    if is_encode op then pure s else halt undefined

  -- Data that is decoded from a null pointer. (Of an empty vector `data()` may be null, but then
  -- no byte behind it is read.)
  unfoldable pub xdr_data : Op → List ℕ → ℕ → M lib.Stream (List ℕ)
  unfolding counted
  xdr_data op bytes max = do
    ptr ← lib.xdr_bytes op (if is_encode op then to (counted bytes) else null) max
    pure (if is_decode op then ptr else bytes)

  -- What is then in the vector. New memory is not looked at; other bytes have been written into
  -- the vector's own, which XDR_FREE gives to `free`.
  unfoldable pub own_data : Op → List ℕ → List ℕ → M lib.Stream (List ℕ)
  own_data encode bytes ptr = pure bytes
  own_data decode [] ptr = pure []
  own_data decode (x ∷ bytes) ptr =
      if leb (length ptr) (length (x ∷ bytes))
      then pure (ptr ++ drop (length ptr) (x ∷ bytes))
      else halt undefined
  own_data release [] ptr = pure []
  own_data release (x ∷ bytes) ptr = halt undefined

  -- Data whose own `data()` is handed over whatever the operation.
  unfoldable pub xdr_own_data : Op → List ℕ → ℕ → M lib.Stream (List ℕ)
  unfolding counted own_data
  xdr_own_data op bytes max = do
    ptr ← lib.xdr_bytes op (if is_encode op then to (counted bytes) else storage bytes) max
    own_data op bytes ptr

  -- The 8 bytes of a `uint64_t`, as this host keeps them.
  unfoldable pub xdr_raw_u64 : Op → ℕ → M lib.Stream ℕ
  xdr_raw_u64 op val = do
    raw ← lib.xdr_opaque op (bytes_of64 lib.host val) 8
    pure (if is_decode op then word_of64 lib.host raw else val)

  -- `if (!obj->resok.has_value()) return FALSE;`
  unfoldable pub present : {A : Type 0} → Option A → M lib.Stream A
  present none = halt failed
  present (some a) = pure a

  abbrev pub or_fresh : {A : Type 0} ⦃f : Fresh A⦄ → Op → Option A → A
  or_fresh encode none = fresh
  or_fresh encode (some a) = a
  or_fresh decode o = fresh
  or_fresh release o = fresh

  module _ {A : Type 0} ⦃f : Fresh A⦄ (xdr_resok : Op → A → M lib.Stream A) where
    -- A reply whose result is encoded as default constructed if there is none:
    -- `if (xdrs->x_op == XDR_ENCODE && obj->resok.has_value()) resok = obj->resok.value();`
    unfoldable pub xdr_res : Op → Res A → M lib.Stream (Res A)
    unfolding xdr_enum
    xdr_res op o = do
      status ← xdr_enum op o.status
      if status == nfs3_ok
          then (do
            resok ← xdr_resok op (or_fresh op o.resok)
            pure (record { status = status; resok = if is_decode op then some resok else o.resok }))
          else pure (record { status = status; resok = o.resok })

    -- A reply whose result is encoded by `obj->resok.value()`.
    unfoldable pub xdr_res_value : Op → Res A → M lib.Stream (Res A)
    unfolding xdr_enum value
    xdr_res_value op o = do
      status ← xdr_enum op o.status
      if status == nfs3_ok
          then (do
            start ← (if is_encode op then value o.resok else pure fresh)
            resok ← xdr_resok op start
            pure (record { status = status; resok = if is_decode op then some resok else o.resok }))
          else pure (record { status = status; resok = o.resok })

    -- A reply that is not encoded without a result, and that is decoded by any other operation.
    unfoldable pub xdr_res_else_false : Op → Res A → M lib.Stream (Res A)
    unfolding xdr_enum present
    xdr_res_else_false op o = do
      status ← xdr_enum op o.status
      if status == nfs3_ok
          then (do
            start ← (if is_encode op then present o.resok else pure fresh)
            resok ← xdr_resok op start
            pure (record { status = status; resok = if is_encode op then o.resok else some resok }))
          else pure (record { status = status; resok = o.resok })
