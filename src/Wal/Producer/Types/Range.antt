-- ===== src/Wal/Producer/Types/Range.antt =====
-- The sequences of an Append.
use objwal.Prelude.{
  ℕ, zero, suc, ◌+◌, ◌%◌, ◌^◌, ◌≡◌, ap, ◌∙◌, none, some, get_elem?, leb, if◌then◌else◌, arith,
}
use objwal.Wal.Producer.Types.{SeqRange, range_at, range_all, range_from}

from_zero : (i : ℕ) → 0 + i ≡ i
from_zero i = omega arith

next_index : (i j : ℕ) → i + 1 + j ≡ i + suc j
next_index i j = omega arith

at_front : (i : ℕ) → i ≡ i + 0
at_front i = omega arith

range_from-get :
    (r : SeqRange) (i n j : ℕ)
    → get_elem? (range_from r i n) j
      ≡ (if leb n j then none else some ((r.first + (i + j)) % 2 ^ 64))
unfolding range_from
range_from-get r i zero j = ground arith
range_from-get r i (suc n) zero =
    ap (λ k. some ((r.first + k) % 2 ^ 64)) (at_front i) ∙ ground arith
range_from-get r i (suc n) (suc j) =
    range_from-get r (i + 1) n j
    ∙ ap (λ k. if leb n j then none else some ((r.first + k) % 2 ^ 64)) (next_index i j)
    ∙ ground arith

-- The i-th sequence of `All` is `At` of i, and `All` ends where `At` panics.
range_all-range_at : (r : SeqRange) (i : ℕ) → get_elem? (range_all r) i ≡ range_at r i
unfolding range_all range_at
range_all-range_at r i =
    range_from-get r 0 r.count i
    ∙ ap (λ k. if leb r.count i then none else some ((r.first + k) % 2 ^ 64)) (from_zero i)
