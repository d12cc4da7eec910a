-- ===== src/Cmd/Stream/Render/Cells.antt =====
-- What a cell of a frame can be.
use objwal.Prelude.{
  ℕ, zero, suc, ◌≤◌, ◌≡◌, ◌≢◌, refl, ap, inl, inr, [], ◌∷◌, length, length-append, All, All-append,
  ltb, Bool-cases, arith,
}
use objwal.Prelude.Slices.{take, length-take}
use objwal.Std.LittleEndian.{Bytes}
use objwal.Cmd.Stream.Render.{one_line, truncate, max_cell_width}

one_line-no_newline : (s : Bytes) → All (λ b. b ≢ 10) (one_line s)
unfolding one_line
one_line-no_newline [] = tt
one_line-no_newline (b ∷ bs) = (ground arith, one_line-no_newline bs)

length-one_line : (s : Bytes) → length (one_line s) ≡ length s
unfolding one_line
length-one_line [] = refl
length-one_line (b ∷ bs) = ap suc (length-one_line bs)

All-take : (P : ℕ → Type 0) (n : ℕ) (s : Bytes) → All P s → All P (take n s)
unfolding take
All-take P zero s h = tt
All-take P (suc n) [] h = tt
All-take P (suc n) (b ∷ bs) (h, hs) = (h, All-take P n bs hs)

-- A cell has no line break and 50 bytes at most, and one of 48 bytes or less is the value with its
-- line breaks as spaces.
truncate_lem :
    (s : Bytes)
    → All (λ b. b ≢ 10) (truncate s)
      × (length (truncate s) ≤ 50)
      × (length s ≤ 48 → truncate s ≡ one_line s)
unfolding truncate
truncate_lem s = elim (Bool-cases (ltb max_cell_width (length (one_line s)))) [
  | inl long ↦
      let size = length-take 47 (one_line s) (ground (arith, long)) in
      rw long (
        All-append (λ b. b ≢ 10) (take 47 (one_line s)) _
            (All-take (λ b. b ≢ 10) 47 (one_line s) (one_line-no_newline s))
            (omega arith, (omega arith, (omega arith, tt))),
        omega (arith, size, length-append (take 47 (one_line s)) (226 ∷ 128 ∷ 166 ∷ [])),
        λ short. absurd (ground (arith, long, length-one_line s, short)),
      )
  | inr short ↦ rw short (one_line-no_newline s, ground (arith, short), λ _. refl)
]
