-- ===== src/Cmd/S3bench/Human.antt =====
-- `humanBytes` of cmd/s3bench/main.go. An int64 is the 64 bits of its two's complement.
use objwal.Prelude.{
  ℕ, zero, suc, ◌+◌, ◌*◌, ◌/◌, ◌%◌, ◌^◌, ◌≤◌, ◌<◌, ◌≡◌, refl, inl, inr, [], ◌∷◌, Option, none,
  false, some, get_elem?, ltb, leb, Bool-cases, ◌||◌, if◌then◌else◌, arith,
}
use objwal.Std.LittleEndian.{Bytes}

-- What is printed: a number of bytes, or the quotient of two numbers with the letter of a unit.
pub data Human : Type 0 where
  plain_bytes : ℕ → Human
  scaled_bytes : ℕ → ℕ → ℕ → Human
  index_panic : Human

-- `for x := n / unit; x >= unit; x /= unit`, from `div` and `exp` on.
unfoldable pub scale_loop : ℕ → ℕ → ℕ → ℕ → ℕ × ℕ
scale_loop zero x div exp = (div, exp)
scale_loop (suc fuel) x div exp =
    let more = scale_loop fuel (x / 1024) (div * 1024 % 2 ^ 64) (exp + 1) in
    if leb 1024 x then more else (div, exp)

-- "KMGTPE"
abbrev unit_letters : Bytes
unit_letters = 75 ∷ 77 ∷ 71 ∷ 84 ∷ 80 ∷ 69 ∷ []

unfoldable pub with_letter : ℕ → ℕ → Option ℕ → Human
with_letter n div none = index_panic
with_letter n div (some letter) = scaled_bytes n div letter

-- The loop divides by 1024 an int64 that is not negative: it is through after 6 rounds at most.
unfoldable pub human_bytes : ℕ → Human
human_bytes n =
    let (div, exp) = scale_loop 6 (n / 1024) 1024 0 in
    if leb (2 ^ 63) n || ltb n 1024
    then plain_bytes n
    else with_letter n div (get_elem? unit_letters exp)

-- The number itself, over the power of 1024 that the letter stands for, which it is not below, and
-- below the next.
abbrev pub Scaled : ℕ → Human → Type 0
Scaled n (plain_bytes k) = ⊥
Scaled n index_panic = ⊥
Scaled n (scaled_bytes m div letter) =
    (m ≡ n)
    × (div ≤ n)
    × (n < 1024 * div)
    × ((k : ℕ) × (div ≡ 1024 ^ (k + 1)) × (get_elem? unit_letters k ≡ some letter))

scale_loop-Scaled :
    (n : ℕ)
    → 1024 ≤ n
    → n < 2 ^ 63
    → Scaled n (
        with_letter n
          (scale_loop 6 (n / 1024) 1024 0).0
          (get_elem? unit_letters (scale_loop 6 (n / 1024) 1024 0).1))
unfolding scale_loop with_letter
scale_loop-Scaled n h f = elim (Bool-cases (leb 1024 (n / 1024))) [
  | inr stop ↦ rw stop (refl, omega arith, ground (arith, stop), (0, refl, refl))
  | inl m ↦ elim (Bool-cases (leb 1024 (n / 1024 / 1024))) [
    | inr stop ↦ rw (m, stop) (refl, ground (arith, m), ground (arith, stop), (1, refl, refl))
    | inl g ↦ elim (Bool-cases (leb 1024 (n / 1024 / 1024 / 1024))) [
      | inr stop ↦ rw (m, g, stop) (refl, ground (arith, g), ground (arith, stop), (2, refl, refl))
      | inl t ↦ elim (Bool-cases (leb 1024 (n / 1024 / 1024 / 1024 / 1024))) [
        | inr stop ↦
            rw (m, g, t, stop) (refl, ground (arith, t), ground (arith, stop), (3, refl, refl))
        | inl p ↦ elim (Bool-cases (leb 1024 (n / 1024 / 1024 / 1024 / 1024 / 1024))) [
          | inr stop ↦
              rw (m, g, t, p, stop) (refl, ground (arith, p), ground (arith, stop), (4, refl, refl))
          | inl e ↦
              let stop : leb 1024 (n / 1024 / 1024 / 1024 / 1024 / 1024 / 1024) ≡ false =
                ground arith in
              rw (m, g, t, p, e, stop) (refl, ground (arith, e), omega arith, (5, refl, refl))
        ]
      ]
    ]
  ]
]

-- A number of bytes that is 1024 or more, and no negative int64, is printed over the greatest power
-- of 1024 that is not above it, and with the letter of that power: the letters' index is never out
-- of range, and the power does not overflow.
pub human_bytes-Scaled : (n : ℕ) → 1024 ≤ n → n < 2 ^ 63 → Scaled n (human_bytes n)
unfolding human_bytes
human_bytes-Scaled n h f =
    let plain : (leb (2 ^ 63) n || ltb n 1024) ≡ false = ground arith in
    rw plain (scale_loop-Scaled n h f)
