-- ===== src/Querystream/Duckdbq/Literal.antt =====
-- A literal that `sqlString` writes ends where it should.
use objwal.Prelude.{
  ℕ, ◌≡◌, refl, ap, ◌∙◌, inl, inr, Bool, false, Bool-cases, [], ◌∷◌, ◌++◌, append_assoc, Option,
  none, some, ◌==◌, if◌then◌else◌, arith,
}
use objwal.Std.LittleEndian.{Bytes}
use objwal.Querystream.Duckdbq.{doubled, sql_string}

unfoldable starts_quote : Bytes → Bool
starts_quote [] = false
starts_quote (b ∷ bs) = b == 39

unfoldable in_front : ℕ → Option (Bytes × Bytes) → Option (Bytes × Bytes)
in_front b none = none
in_front b (some p) = some (b ∷ p.0, p.1)

-- How SQL reads the body of a string literal: two quotes stand for one, and another ends it.
unfoldable read_body : Bytes → Option (Bytes × Bytes)
read_body [] = none
read_body (b ∷ []) = if b == 39 then some ([], []) else none
read_body (b ∷ c ∷ bs) =
    let rest = in_front b (read_body (c ∷ bs)) in
    let twice = in_front 39 (read_body bs) in
    if b == 39 then (if c == 39 then twice else some ([], c ∷ bs)) else rest

unfoldable read_literal : Bytes → Option (Bytes × Bytes)
read_literal [] = none
read_literal (b ∷ bs) = let rest = read_body bs in if b == 39 then rest else none

read_body_end : (rest : Bytes) → starts_quote rest ≡ false → read_body (39 ∷ rest) ≡ some ([], rest)
unfolding read_body starts_quote
read_body_end [] h = refl
read_body_end (c ∷ rest) h = ground (arith, h)

read_body-plain :
    (b : ℕ) (bs : Bytes) {front rest : Bytes}
    → (b == 39) ≡ false
    → read_body bs ≡ some (front, rest)
    → read_body (b ∷ bs) ≡ some (b ∷ front, rest)
unfolding read_body in_front
read_body-plain b [] h k = absurd (cc k)
read_body-plain b (c ∷ bs) h k = rw h (rw k refl)

read_body-doubled :
    (s rest : Bytes)
    → starts_quote rest ≡ false
    → read_body (doubled s ++ 39 ∷ rest) ≡ some (s, rest)
unfolding doubled in_front read_body
read_body-doubled [] rest h = read_body_end rest h
read_body-doubled (b ∷ s) rest h = elim (Bool-cases (b == 39)) [
  | inl quote ↦ rw (quote, read_body-doubled s rest h) (ground (arith, quote))
  | inr plain ↦ rw plain (read_body-plain b _ plain (read_body-doubled s rest h))
]

-- Read as an SQL string literal, what `sqlString` writes gives back the string, and ends before what
-- follows, unless that begins with a quote.
read_literal-sql_string :
    (s rest : Bytes)
    → starts_quote rest ≡ false
    → read_literal (sql_string s ++ rest) ≡ some (s, rest)
unfolding read_literal sql_string
read_literal-sql_string s rest h =
    ap read_body (append_assoc (doubled s) (39 ∷ []) rest) ∙ read_body-doubled s rest h
