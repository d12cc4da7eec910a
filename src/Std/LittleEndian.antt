-- ===== src/Std/LittleEndian.antt =====
-- encoding/binary's `LittleEndian`: `append_uint` is AppendUintN and PutUintN, `uint` is UintN.
use objwal.Prelude.{
  ℕ, zero, suc, ◌+◌, ◌*◌, ◌/◌, ◌%◌, ◌^◌, ◌<◌, ◌≡◌, refl, ap, ◌∙◌, List, [], ◌∷◌, ◌++◌, arith,
  length, length-append, ◌-◌,
}
use objwal.Prelude.Slices.{take, drop, slice, slice-append_back, take-append, drop-append, take_all}
use native.Mathlib.Nat.{pow-suc}

abbrev pub Bytes : Type 0
Bytes = List ℕ

-- The `k` bytes of `v`, lowest first: of a value past the width the low bytes.
unfoldable pub le_bytes : ℕ → ℕ → Bytes
le_bytes zero v = []
le_bytes (suc k) v = v % 256 ∷ le_bytes k (v / 256)

unfoldable pub le_value : Bytes → ℕ
le_value [] = 0
le_value (b ∷ bs) = b + 256 * le_value bs

-- `binary.LittleEndian.UintN(data)`, which reads the first `k` bytes.
unfoldable pub uint : ℕ → Bytes → ℕ
unfolding le_value
uint k bs = le_value (take k bs)

pub length-le_bytes : (k v : ℕ) → length (le_bytes k v) ≡ k
unfolding le_bytes
length-le_bytes zero v = refl
length-le_bytes (suc k) v = ap suc (length-le_bytes k (v / 256))

le_value-le_bytes : (k v : ℕ) → v < 256 ^ k → le_value (le_bytes k v) ≡ v
unfolding le_bytes le_value
le_value-le_bytes zero v h = omega arith
le_value-le_bytes (suc k) v h =
    let small : v / 256 < 256 ^ k = omega (arith, pow-suc 256 k) in
    omega (arith, le_value-le_bytes k (v / 256) small)

-- What was written is read back, whatever follows.
pub uint-le_bytes : (k v : ℕ) (rest : Bytes) → v < 256 ^ k → uint k (le_bytes k v ++ rest) ≡ v
unfolding uint
uint-le_bytes k v rest h =
    ap le_value (take-append k (le_bytes k v) rest (length-le_bytes k v)) ∙ le_value-le_bytes k v h

pub drop-le_bytes : (k v : ℕ) (rest : Bytes) → drop k (le_bytes k v ++ rest) ≡ rest
drop-le_bytes k v rest = drop-append k (le_bytes k v) rest (length-le_bytes k v)

-- Read from a field of exactly that width.
pub uint-le_bytes_all : (k v : ℕ) → v < 256 ^ k → uint k (le_bytes k v) ≡ v
unfolding uint
uint-le_bytes_all k v h =
    ap le_value (take_all k (le_bytes k v) (length-le_bytes k v)) ∙ le_value-le_bytes k v h

-- Read from the end of a buffer, as a footer is.
pub uint-drop_last :
    (k v n : ℕ) (front : Bytes)
    → v < 256 ^ k
    → length (front ++ le_bytes k v) ≡ n
    → uint k (drop (n - k) (front ++ le_bytes k v)) ≡ v
uint-drop_last k v n front h e =
    ap (uint k) (
      drop-append (n - k) front (le_bytes k v)
        (omega (arith, length-append front (le_bytes k v), length-le_bytes k v)))
    ∙ uint-le_bytes_all k v h

-- Read from the middle of a buffer, at positions counted from the end.
pub uint-slice_back :
    (k v : ℕ) (l front back : Bytes) (a b : ℕ)
    → v < 256 ^ k
    → l ≡ front ++ (le_bytes k v ++ back)
    → a + (k + length back) ≡ length l
    → b + length back ≡ length l
    → uint k (slice l a b) ≡ v
uint-slice_back k v l front back a b small e ha hb =
    ap (uint k)
      (slice-append_back l front (le_bytes k v) back a b e (omega (arith, length-le_bytes k v)) hb)
    ∙ uint-le_bytes_all k v small
