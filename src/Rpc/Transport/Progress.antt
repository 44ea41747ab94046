-- ===== src/Rpc/Transport/Progress.antt =====
-- `write_all` and `read_all` of simple_rpc/src/rpc_transport.cpp: when they end, and with what.
use nfstest.Prelude.{
  ℕ, zero, suc, ◌+◌, ◌-◌, ◌≤◌, ◌≡◌, sym, ap, ◌∙◌, min, true, false, List, [], ◌∷◌, ◌++◌,
  append_assoc, append-nil, length, length-take, length-drop, take, drop, take-drop, take-take,
  drop-drop, ltb, lt→ltb, arith,
}
use nfstest.Rpc.Transport.{
  Response, moved, interrupted, would_block, failed, returned, write_all, read_all,
}

-- The kernel moves at least a byte, is interrupted, or is ready after a wait.
abbrev pub Works : Response → Type 0
Works (moved zero) = ⊥
Works (moved (suc n)) = Unit
Works interrupted = Unit
Works (would_block true) = Unit
Works (would_block false) = ⊥
Works failed = ⊥

abbrev pub Lively : List Response → Type 0
Lively [] = Unit
Lively (r ∷ rs) = Works r × Lively rs

-- How often bytes are moved.
abbrev pub moves : List Response → ℕ
moves [] = 0
moves (moved n ∷ rs) = suc (moves rs)
moves (interrupted ∷ rs) = moves rs
moves (would_block ready ∷ rs) = moves rs
moves (failed ∷ rs) = moves rs

-- What is left of the responses serves `n` bytes less.
abbrev pub Serves : List Response → ℕ → List Response → Type 0
Serves rs n later = Lively later × (moves rs ≤ moves later + n)

pub write_all_done :
    (bytes sent incoming : List ℕ) (rs : List Response)
    → Lively rs
    → length bytes ≤ moves rs
    → (later : List Response) × (write_all bytes sent incoming rs
        ≡ returned true (record { sent = sent ++ bytes; incoming = incoming; responses = later }))
      × Serves rs (length bytes) later
unfolding write_all
write_all_done [] sent incoming rs live enough = (
  rs,
  ap (λ t. returned true (record { sent = t; incoming = incoming; responses = rs }))
      (sym (append-nil sent)),
  (live, omega arith),
)
write_all_done (x ∷ rest) sent incoming [] live enough = absurd (omega arith)
write_all_done (x ∷ rest) sent incoming (moved zero ∷ rs) (work, live) enough = absurd work
write_all_done (x ∷ rest) sent incoming (moved (suc n) ∷ rs) (work, live) enough =
    let shorter : length (drop n rest) ≤ length rest = omega (arith, length-drop n rest) in
    let whole : (sent ++ (x ∷ take n rest)) ++ drop n rest ≡ sent ++ (x ∷ rest) =
      append_assoc sent (x ∷ take n rest) (drop n rest)
      ∙ ap (λ t. sent ++ (x ∷ t)) (take-drop n rest) in
    let (later, same, (still, serves)) =
      write_all_done (drop n rest) (sent ++ (x ∷ take n rest)) incoming rs live (omega arith) in
    (later, rw (← whole) same, (still, omega arith))
write_all_done (x ∷ rest) sent incoming (interrupted ∷ rs) (work, live) enough =
    write_all_done (x ∷ rest) sent incoming rs live enough
write_all_done (x ∷ rest) sent incoming (would_block true ∷ rs) (work, live) enough =
    write_all_done (x ∷ rest) sent incoming rs live enough
write_all_done (x ∷ rest) sent incoming (would_block false ∷ rs) (work, live) enough = absurd work
write_all_done (x ∷ rest) sent incoming (failed ∷ rs) (work, live) enough = absurd work

length-chunk :
    (n want : ℕ) (incoming : List ℕ)
    → suc want ≤ length incoming
    → length (take (min (suc n) (suc want)) incoming) ≡ min (suc n) (suc want)
length-chunk n want incoming h = omega (arith, length-take (min (suc n) (suc want)) incoming)

-- Reading takes the bytes off the front of the stream.
pub read_all_done :
    (want : ℕ) (got sent incoming : List ℕ) (rs : List Response)
    → Lively rs
    → want ≤ moves rs
    → want ≤ length incoming
    → (later : List Response) × (read_all want got sent incoming rs
        ≡ returned
            (true, got ++ take want incoming)
            (record { sent = sent; incoming = drop want incoming; responses = later }))
      × Serves rs want later
unfolding read_all
read_all_done zero got sent incoming rs live enough here = (
  rs,
  ap (λ t. returned (true, t) (record { sent = sent; incoming = incoming; responses = rs }))
      (sym (append-nil got)),
  (live, omega arith),
)
read_all_done (suc want) got sent incoming [] live enough here = absurd (omega arith)
read_all_done (suc want) got sent incoming (moved zero ∷ rs) (work, live) enough here = absurd work
read_all_done (suc want) got sent incoming (moved (suc n) ∷ rs) (work, live) enough here =
    let k = min (suc n) (suc want) in
    let chunk = take k incoming in
    let size : length chunk ≡ k = length-chunk n want incoming here in
    let (later, same, (still, serves)) =
      read_all_done (suc want - length chunk) (got ++ chunk) sent (drop k incoming) rs live
        (omega arith) (omega (arith, length-drop k incoming)) in
    let some_came : ltb 0 (length chunk) ≡ true = lt→ltb 0 (length chunk) (omega arith) in
    let joined : (got ++ chunk) ++ take (suc want - length chunk) (drop k incoming)
        ≡ got ++ take (suc want) incoming =
      append_assoc got chunk _
      ∙ ap (λ t. got ++ t)
          (take-take k (suc want - length chunk) (suc want) incoming (omega arith)) in
    let left = drop-drop k (suc want - length chunk) (suc want) incoming (omega arith) in
    (later, rw (some_came, ← joined, ← left) same, (still, omega arith))
read_all_done (suc want) got sent incoming (interrupted ∷ rs) (work, live) enough here =
    read_all_done (suc want) got sent incoming rs live enough here
read_all_done (suc want) got sent incoming (would_block true ∷ rs) (work, live) enough here =
    read_all_done (suc want) got sent incoming rs live enough here
read_all_done (suc want) got sent incoming (would_block false ∷ rs) (work, live) enough here =
    absurd work
read_all_done (suc want) got sent incoming (failed ∷ rs) (work, live) enough here = absurd work
