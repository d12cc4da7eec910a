-- ===== src/Std/Digits.antt =====
-- fmt's verb %020d for a uint64, and strconv.ParseUint in base 10 of 64 bits.
use objwal.Prelude.{
  ℕ, zero, suc, ◌+◌, ◌-◌, ◌*◌, ◌/◌, ◌%◌, ◌^◌, ◌<◌, ◌≡◌, refl, Bool, true, false, ◌&&◌, [], ◌∷◌,
  ◌++◌, Option, none, some, length, length-append, leb, ltb, lt→ltb, if◌then◌else◌, arith,
}
use native.Mathlib.Nat.{pow-suc}
use objwal.Std.LittleEndian.{Bytes}

-- The last `k` decimal digits of `v`, the highest first.
unfoldable pub digits : ℕ → ℕ → Bytes
digits zero v = []
digits (suc k) v = digits k (v / 10) ++ ((48 + v % 10) ∷ [])

unfoldable pub is_digit : ℕ → Bool
is_digit c = leb 48 c && leb c 57

unfoldable pub all_digits : Bytes → Bool
all_digits [] = true
all_digits (c ∷ cs) = let rest = all_digits cs in if is_digit c then rest else false

-- The number that digits stand for, behind `acc`.
unfoldable pub digits_value : ℕ → Bytes → ℕ
digits_value acc [] = acc
digits_value acc (c ∷ cs) = digits_value (acc * 10 + (c - 48)) cs

-- An empty string, another character and a number past 64 bits are errors.
unfoldable pub parse_uint : Bytes → Option ℕ
parse_uint s =
    if ltb 0 (length s) && all_digits s
    then (let v = digits_value 0 s in if ltb v (2 ^ 64) then some v else none)
    else none

length-digits : (k v : ℕ) → length (digits k v) ≡ k
unfolding digits
length-digits zero v = refl
length-digits (suc k) v =
    omega (arith, length-append (digits k (v / 10)) ((48 + v % 10) ∷ []), length-digits k (v / 10))

all_digits-append :
    (xs ys : Bytes) → all_digits xs ≡ true → all_digits ys ≡ true → all_digits (xs ++ ys) ≡ true
unfolding all_digits
all_digits-append [] ys h k = k
all_digits-append (c ∷ xs) ys h k = ground (arith, all_digits-append xs ys)

pub all_digits-digits : (k v : ℕ) → all_digits (digits k v) ≡ true
unfolding digits all_digits is_digit
all_digits-digits zero v = refl
all_digits-digits (suc k) v =
    all_digits-append (digits k (v / 10)) ((48 + v % 10) ∷ []) (all_digits-digits k (v / 10))
      (ground arith)

digits_value-append :
    (acc : ℕ) (xs ys : Bytes) → digits_value acc (xs ++ ys) ≡ digits_value (digits_value acc xs) ys
unfolding digits_value
digits_value-append acc [] ys = refl
digits_value-append acc (c ∷ xs) ys = digits_value-append (acc * 10 + (c - 48)) xs ys

digits_value-digits : (k v : ℕ) → v < 10 ^ k → digits_value 0 (digits k v) ≡ v
unfolding digits digits_value
digits_value-digits zero v h = omega arith
digits_value-digits (suc k) v h =
    let small : v / 10 < 10 ^ k = omega (arith, pow-suc 10 k) in
    rw
      (
        digits_value-append 0 (digits k (v / 10)) ((48 + v % 10) ∷ []),
        digits_value-digits k (v / 10) small,
      )
      (omega arith)

-- A uint64 that is printed with twenty digits is read back.
pub parse_uint-digits : (v : ℕ) → v < 2 ^ 64 → parse_uint (digits 20 v) ≡ some v
unfolding parse_uint
parse_uint-digits v h =
    rw
      (
        length-digits 20 v,
        all_digits-digits 20 v,
        digits_value-digits 20 v (omega arith),
        lt→ltb v (2 ^ 64) h,
      )
      refl
