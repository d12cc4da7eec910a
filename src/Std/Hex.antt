-- ===== src/Std/Hex.antt =====
-- fmt's verb %016x: the sixteen hexadecimal digits of a uint64.
use objwal.Prelude.{ℕ, zero, suc, ◌+◌, ◌/◌, ◌%◌, ◌≡◌, refl, [], ◌∷◌, ◌++◌, ltb, if◌then◌else◌}
use objwal.Std.LittleEndian.{Bytes}

unfoldable hex_digit : ℕ → ℕ
hex_digit d = if ltb d 10 then 48 + d else 87 + d

-- The last `k` digits of `v`, the highest first.
unfoldable pub hex : ℕ → ℕ → Bytes
unfolding hex_digit
hex zero v = []
hex (suc k) v = hex k (v / 16) ++ (hex_digit (v % 16) ∷ [])

hex_sample : hex 16 0x1f ≡ hex 14 0 ++ (b'1' ∷ b'f' ∷ [])
unfolding hex
hex_sample = refl
