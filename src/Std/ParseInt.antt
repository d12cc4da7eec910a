-- ===== src/Std/ParseInt.antt =====
-- `strconv.ParseInt` in base 10 of 64 bits, for a caller that drops the error: 0 for a string that
-- is no number, and the nearest int64 for one out of range. An int64 is the 64 bits of its two's
-- complement.
use objwal.Prelude.{
  ℕ, ◌+◌, ◌-◌, ◌*◌, ◌%◌, ◌^◌, Bool, true, false, [], ◌∷◌, Option, none, some, ltb, leb, ◌==◌,
  if◌then◌else◌,
}
use objwal.Std.LittleEndian.{Bytes}
use objwal.Std.Digits.{is_digit}

-- `ParseUint` behind the first digits, whose value is `acc`. Past 64 bits it looks no further.
unfoldable pub parse_magnitude : ℕ → Bytes → Option ℕ
parse_magnitude acc [] = some acc
parse_magnitude acc (c ∷ cs) =
    let n = acc * 10 + (c - 48) in
    let rest = parse_magnitude n cs in
    if is_digit c then (if leb (2 ^ 64) n then some (2 ^ 64 - 1) else rest) else none

unfoldable pub magnitude_of : Bytes → Option ℕ
magnitude_of [] = none
magnitude_of (c ∷ cs) = parse_magnitude 0 (c ∷ cs)

unfoldable pub signed_value : Bool → Option ℕ → ℕ
signed_value negative none = 0
signed_value false (some v) = if leb (2 ^ 63) v then 2 ^ 63 - 1 else v
signed_value true (some v) = if ltb (2 ^ 63) v then 2 ^ 63 else (2 ^ 64 - v) % 2 ^ 64

unfoldable pub parse_int64 : Bytes → ℕ
parse_int64 [] = 0
parse_int64 (c ∷ cs) =
    if c == 43
    then signed_value false (magnitude_of cs)
    else if c == 45
    then signed_value true (magnitude_of cs)
    else signed_value false (magnitude_of (c ∷ cs))
