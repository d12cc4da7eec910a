-- ===== src/Std/Decimal.antt =====
-- Go's `%d` of a natural number, as ASCII bytes.
use objwal.Prelude.{
  ℕ, zero, suc, ◌+◌, ◌-◌, ◌*◌, ◌/◌, ◌%◌, ◌≤◌, ◌≡◌, refl, sym, ap, ◌∙◌, [], ◌∷◌, ◌++◌, ltb, inl, inr,
  if◌then◌else◌, Bool-cases, arith,
}
use objwal.Std.LittleEndian.{Bytes}

unfoldable pub decimal_loop : ℕ → ℕ → Bytes
decimal_loop zero n = []
decimal_loop (suc fuel) n =
    let rest = decimal_loop fuel (n / 10) in
    if ltb n 10 then (48 + n) ∷ [] else rest ++ ((48 + n % 10) ∷ [])

-- A number has no more digits than one more than itself.
unfoldable pub decimal : ℕ → Bytes
decimal n = decimal_loop (suc n) n

-- The number that digits stand for, behind `acc`.
unfoldable value : ℕ → Bytes → ℕ
value acc [] = acc
value acc (c ∷ cs) = value (acc * 10 + (c - 48)) cs

value-append : (acc : ℕ) (xs ys : Bytes) → value acc (xs ++ ys) ≡ value (value acc xs) ys
unfolding value
value-append acc [] ys = refl
value-append acc (c ∷ xs) ys = value-append (acc * 10 + (c - 48)) xs ys

value-decimal_loop : (fuel n : ℕ) → suc n ≤ fuel → value 0 (decimal_loop fuel n) ≡ n
unfolding decimal_loop value
value-decimal_loop zero n h = omega arith
value-decimal_loop (suc fuel) n h = elim (Bool-cases (ltb n 10)) [
  | inl small ↦ rw small (omega arith)
  | inr large ↦
      rw
        (
          large,
          value-append 0 (decimal_loop fuel (n / 10)) ((48 + n % 10) ∷ []),
          value-decimal_loop fuel (n / 10) (ground arith),
        )
        (omega arith)
]

-- Different numbers print differently.
pub decimal-injective : (m n : ℕ) → decimal m ≡ decimal n → m ≡ n
unfolding decimal
decimal-injective m n h =
    sym (value-decimal_loop (suc m) m (omega arith))
    ∙ ap (value 0) h
    ∙ value-decimal_loop (suc n) n (omega arith)
