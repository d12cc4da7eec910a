-- ===== src/Prelude/Slices.antt =====
-- Slice expressions `s[:n]`, `s[n:]` and `s[a:b]`. Past the end they stop at the end; where the
-- source could be out of range, the caller tests the range first, as the source does.
use Prim.Native.Nat.{ℕ, zero, suc, ◌+◌, ◌-◌, ◌≤◌}
use mathlib.Core.Path.{◌≡◌, refl, sym, ap, ◌∙◌}
use mathlib.Core.List.{List, [], ◌∷◌, ◌++◌}
use native.Mathlib.Omega.{arith}
use objwal.Prelude.Lists.{length, length-append}

module _ {ℓ} {A : Type ℓ} where
  unfoldable pub take : ℕ → List A → List A
  take zero xs = []
  take (suc n) [] = []
  take (suc n) (x ∷ xs) = x ∷ take n xs

  unfoldable pub drop : ℕ → List A → List A
  drop zero xs = xs
  drop (suc n) [] = []
  drop (suc n) (x ∷ xs) = drop n xs

  unfoldable pub slice : List A → ℕ → ℕ → List A
  slice xs a b = take (b - a) (drop a xs)

  pub take-append-drop : (n : ℕ) (xs : List A) → take n xs ++ drop n xs ≡ xs
  unfolding take drop
  take-append-drop zero xs = refl
  take-append-drop (suc n) [] = refl
  take-append-drop (suc n) (x ∷ xs) = ap (λ ys. x ∷ ys) (take-append-drop n xs)

  pub length-drop : (n : ℕ) (xs : List A) → length (drop n xs) ≡ length xs - n
  unfolding drop
  length-drop zero xs = omega arith
  length-drop (suc n) [] = omega arith
  length-drop (suc n) (x ∷ xs) = omega (arith, length-drop n xs)

  pub length-take : (n : ℕ) (xs : List A) → n ≤ length xs → length (take n xs) ≡ n
  unfolding take
  length-take zero xs h = refl
  length-take (suc n) [] h = absurd (omega arith)
  length-take (suc n) (x ∷ xs) h = omega (arith, length-take n xs)

  -- A part of known length in front of the rest.
  pub take-append : (n : ℕ) (xs ys : List A) → length xs ≡ n → take n (xs ++ ys) ≡ xs
  unfolding take
  take-append zero [] ys h = refl
  take-append zero (x ∷ xs) ys h = absurd (omega arith)
  take-append (suc n) [] ys h = absurd (omega arith)
  take-append (suc n) (x ∷ xs) ys h = ap (λ zs. x ∷ zs) (take-append n xs ys (omega arith))

  pub drop-append : (n : ℕ) (xs ys : List A) → length xs ≡ n → drop n (xs ++ ys) ≡ ys
  unfolding drop
  drop-append zero [] ys h = refl
  drop-append zero (x ∷ xs) ys h = absurd (omega arith)
  drop-append (suc n) [] ys h = absurd (omega arith)
  drop-append (suc n) (x ∷ xs) ys h = drop-append n xs ys (omega arith)

  pub take_all : (n : ℕ) (xs : List A) → length xs ≡ n → take n xs ≡ xs
  unfolding take
  take_all zero [] h = refl
  take_all zero (x ∷ xs) h = absurd (omega arith)
  take_all (suc n) [] h = absurd (omega arith)
  take_all (suc n) (x ∷ xs) h = ap (λ zs. x ∷ zs) (take_all n xs (omega arith))

  -- The part `ys` of a list, at the positions from `a` to `b`.
  pub slice-append :
      (l xs ys zs : List A) (a b : ℕ)
      → l ≡ xs ++ (ys ++ zs)
      → length xs ≡ a
      → a + length ys ≡ b
      → slice l a b ≡ ys
  unfolding slice
  slice-append l xs ys zs a b e ha hb =
      rw (e, drop-append a xs (ys ++ zs) ha) (take-append (b - a) ys zs (omega arith))

  -- The same with the positions counted from the end.
  pub slice-append_back :
      (l xs ys zs : List A) (a b : ℕ)
      → l ≡ xs ++ (ys ++ zs)
      → a + (length ys + length zs) ≡ length l
      → b + length zs ≡ length l
      → slice l a b ≡ ys
  slice-append_back l xs ys zs a b e ha hb =
      let whole : length l ≡ length xs + (length ys + length zs) =
        omega (arith, ap length e, length-append xs (ys ++ zs), length-append ys zs) in
      slice-append l xs ys zs a b e (omega arith) (omega arith)

  drop_nil : (n : ℕ) → drop n [] ≡ []
  unfolding drop
  drop_nil zero = refl
  drop_nil (suc n) = refl

  pub drop-drop : (m n : ℕ) (xs : List A) → drop n (drop m xs) ≡ drop (m + n) xs
  unfolding drop
  drop-drop zero n xs = let e : n ≡ 0 + n = omega arith in ap (λ k. drop k xs) e
  drop-drop (suc m) n [] = drop_nil n ∙ sym (drop_nil (suc m + n))
  drop-drop (suc m) n (x ∷ xs) =
      let e : suc (m + n) ≡ suc m + n = omega arith in
      drop-drop m n xs ∙ ap (λ k. drop k (x ∷ xs)) e

  pub drop_end : (n : ℕ) (xs : List A) → length xs ≤ n → drop n xs ≡ []
  unfolding drop
  drop_end zero [] h = refl
  drop_end zero (x ∷ xs) h = absurd (omega arith)
  drop_end (suc n) [] h = refl
  drop_end (suc n) (x ∷ xs) h = drop_end n xs (omega arith)

  pub drop-append_left :
      (n : ℕ) (xs ys : List A) → n ≤ length xs → drop n (xs ++ ys) ≡ drop n xs ++ ys
  unfolding drop
  drop-append_left zero xs ys h = refl
  drop-append_left (suc n) [] ys h = absurd (omega arith)
  drop-append_left (suc n) (x ∷ xs) ys h = drop-append_left n xs ys (omega arith)

  pub take_past : (n : ℕ) (xs : List A) → length xs ≤ n → take n xs ≡ xs
  unfolding take
  take_past zero [] h = refl
  take_past zero (x ∷ xs) h = absurd (omega arith)
  take_past (suc n) [] h = refl
  take_past (suc n) (x ∷ xs) h = ap (λ ys. x ∷ ys) (take_past n xs (omega arith))

  take_nil : (n : ℕ) → take n [] ≡ []
  unfolding take
  take_nil zero = refl
  take_nil (suc n) = refl

  take-append_take : (a n : ℕ) (xs : List A) → take a xs ++ take n (drop a xs) ≡ take (a + n) xs
  unfolding take drop
  take-append_take zero n xs = let e : n ≡ 0 + n = omega arith in ap (λ k. take k xs) e
  take-append_take (suc a) n [] = take_nil n ∙ sym (take_nil (suc a + n))
  take-append_take (suc a) n (x ∷ xs) =
      let e : suc (a + n) ≡ suc a + n = omega arith in
      ap (λ ys. x ∷ ys) (take-append_take a n xs) ∙ ap (λ k. take k (x ∷ xs)) e

  -- A part behind all that is before it.
  pub take-append_slice : (a b : ℕ) (xs : List A) → a ≤ b → take a xs ++ slice xs a b ≡ take b xs
  unfolding slice
  take-append_slice a b xs h =
      let e : a + (b - a) ≡ b = omega arith in take-append_take a (b - a) xs ∙ ap (λ k. take k xs) e
