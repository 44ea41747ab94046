-- ===== src/XdrC/Growth.antt =====
-- `xdr_buf_t` and its memory: nfs3_rpc_tests_c/include/nfs3_c/xdr_codec.h and src/xdr_codec.c.
use nfstest.Prelude.{
  ℕ, zero, suc, ◌+◌, ◌*◌, ◌%◌, ◌^◌, Bool, Option, none, some, List, [], ◌++◌, leb, ltb, ◌==◌,
  if◌then◌else◌, length,
}
use nfstest.Xdr.Word.{Endianness}

-- `contents` are the first `size` bytes at `data`, and `room` is how many bytes the block there has,
-- none at a null pointer; no byte past `size` is ever read.
pub record XdrBuf : Type 0 where
  pub contents : List ℕ
  pub room : ℕ
  pub capacity : ℕ
  pub pos : ℕ

-- What `malloc` and `realloc` will answer to the requests to come: a block, or null.
abbrev pub Heap : Type 0
Heap = ℕ → Bool

-- A function returns, or reads or writes outside a block, which C leaves undefined. `stuck` is a
-- loop of the model that ran out of fuel.
pub data Outcome (A : Type 0) : Type 0 where
  returned : A → Heap → XdrBuf → Outcome A
  fault : Outcome A
  stuck : Outcome A

abbrev pub M : Type 0 → Type 0
M A = Endianness → Heap → XdrBuf → Outcome A

module _ {A : Type 0} where
  unfoldable pub pure : A → M A
  pure a e h b = returned a h b

module _ {A B : Type 0} where
  infixl 5 ◌>>=◌ ◌>>◌
  abbrev pub continue : Outcome A → Endianness → (A → M B) → Outcome B
  continue (returned a h b) e f = f a e h b
  continue fault e f = fault
  continue stuck e f = stuck

  unfoldable pub ◌>>=◌ : M A → (A → M B) → M B
  ◌>>=◌ m f e h b = continue (m e h b) e f

  unfoldable pub ◌>>◌ : M A → M B → M B
  unfolding ◌>>=◌
  m >> n = m >>= λ _. n

-- A request for `n` bytes: how many bytes the block has, none where it is refused.
unfoldable pub malloc : ℕ → M ℕ
malloc n e h b = returned (if h 0 then n else 0) (λ k. h (suc k)) b

-- `memcpy(buf->data + buf->size, bytes, n)` and `buf->size += n`
unfoldable pub append : List ℕ → M (Unit {0})
append bytes e h b =
    if leb (length b.contents + length bytes) b.room
    then returned tt h (record b { contents = b.contents ++ bytes })
    else fault

abbrev pub xdr_min_capacity : ℕ
xdr_min_capacity = 64

abbrev pub xdr_buf_init : XdrBuf
xdr_buf_init = record { contents = []; room = 0; capacity = 0; pos = 0 }

-- The three functions that follow and `xdr_buf_init` set every member, whatever it was.
unfoldable pub xdr_buf_init_capacity : ℕ → M (Unit {0})
unfolding malloc ◌>>=◌
xdr_buf_init_capacity cap =
    let cap' = if ltb cap xdr_min_capacity then xdr_min_capacity else cap in
    do
      room ← malloc cap'
      λ e h b. returned tt h (record { contents = []; room = room; capacity = cap'; pos = 0 })

-- `len` is how many bytes `bytes` has.
unfoldable pub xdr_buf_init_copy : List ℕ → M (Unit {0})
unfolding malloc ◌>>=◌
xdr_buf_init_copy bytes = do
  room ← malloc (if length bytes == 0 then 1 else length bytes)
  λ e h b.
      if leb (length bytes) room
      then returned tt h
          (record { contents = bytes; room = room; capacity = length bytes; pos = 0 })
      else fault

unfoldable pub xdr_buf_destroy : M (Unit {0})
xdr_buf_destroy e h b = returned tt h (record { contents = []; room = 0; capacity = 0; pos = 0 })

unfoldable pub xdr_buf_reset_read : M (Unit {0})
xdr_buf_reset_read e h b = returned tt h (record b { pos = 0 })

unfoldable pub xdr_buf_clear : M (Unit {0})
xdr_buf_clear e h b = returned tt h (record b { contents = []; pos = 0 })

-- `while (new_cap < needed) new_cap *= 2;`, at most as many rounds as there is fuel.
unfoldable pub doubled : ℕ → ℕ → ℕ → Option ℕ
doubled zero needed new_cap = none
doubled (suc fuel) needed new_cap =
    let rest = doubled fuel needed (new_cap * 2 % 2 ^ 64) in
    if ltb new_cap needed then rest else some new_cap

-- `realloc(buf->data, new_cap)`: a refusal is printed, and leaves the buffer as it is.
unfoldable pub reallocated : Option ℕ → M (Unit {0})
reallocated none e h b = stuck
reallocated (some new_cap) e h b =
    returned tt (λ k. h (suc k))
      (if h 0 then record b { room = new_cap; capacity = new_cap } else b)

unfoldable pub ensure_write_capacity : ℕ → M (Unit {0})
ensure_write_capacity bytes e h b =
    let needed = (length b.contents + bytes) % 2 ^ 64 in
    let new_cap = if b.capacity == 0 then xdr_min_capacity else b.capacity * 2 % 2 ^ 64 in
    if leb needed b.capacity then returned tt h b else reallocated (doubled 64 needed new_cap) e h b

-- The sum does not wrap around: a block has fewer than 2^63 bytes, the position is at most 3 past
-- `size`, and a length is a uint32_t.
unfoldable pub ensure_read_space : ℕ → M Bool
ensure_read_space bytes e h b = returned (leb (b.pos + bytes) (length b.contents)) h b
