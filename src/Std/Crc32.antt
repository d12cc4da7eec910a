-- ===== src/Std/Crc32.antt =====
-- hash/crc32 with the Castagnoli table: the reflected polynomial 0x82f63b78, the register
-- complemented before and after.
use Prim.Native.Nat.{bit_xor}
use objwal.Prelude.{
  ℕ, zero, suc, ◌/◌, ◌%◌, ◌^◌, ◌<◌, ◌≡◌, refl, [], ◌∷◌, arith, ◌==◌, if◌then◌else◌,
}
use objwal.Std.LittleEndian.{Bytes}

-- One bit of the division.
unfoldable pub shift_bit : ℕ → ℕ
shift_bit c = if c % 2 == 1 then bit_xor (c / 2) 0x82f63b78 else c / 2

unfoldable pub shift_bits : ℕ → ℕ → ℕ
unfolding shift_bit
shift_bits zero c = c
shift_bits (suc n) c = shift_bits n (shift_bit c)

unfoldable pub update : ℕ → Bytes → ℕ
unfolding shift_bits
update c [] = c
update c (b ∷ bs) = update (shift_bits 8 (bit_xor c b)) bs

-- `crc32.Checksum(data, castagnoli)`, a uint32.
unfoldable pub checksum : Bytes → ℕ
unfolding update
checksum covered = bit_xor (update 0xffffffff covered) 0xffffffff % 2 ^ 32

pub checksum-lt : (covered : Bytes) → checksum covered < 2 ^ 32
unfolding checksum
checksum-lt covered = omega arith

-- The check value of CRC-32C, for the ASCII digits 1 to 9.
checksum_check : checksum (49 ∷ 50 ∷ 51 ∷ 52 ∷ 53 ∷ 54 ∷ 55 ∷ 56 ∷ 57 ∷ []) ≡ 0xe3069283
unfolding checksum
checksum_check = refl
