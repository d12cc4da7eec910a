-- ===== src/Cmd/S3bench/Latency/Percentiles.antt =====
-- The percentiles of a report are latencies between its extremes.
use objwal.Prelude.{
  ℕ, zero, suc, ◌-◌, ◌≤◌, ◌<◌, ◌≡◌, refl, sym, ap, ◌∙◌, inl, inr, List, [], ◌∷◌, some, length,
  get_elem?, leb, All, Bool-cases, if◌then◌else◌, arith,
}
use objwal.Error.{ok}
use objwal.Cmd.S3bench.Latency.{
  signed_quotient, latency_sum, inserted, sorted_latencies, indexed, percentile, LatencyReport,
  report_of, report_latency,
}

-- Nothing is below what stands before it.
abbrev Ordered : List ℕ → Type 0
Ordered [] = Unit
Ordered (x ∷ xs) = All (λ y. x ≤ y) xs × Ordered xs

inserted-above :
    (x d : ℕ) (xs : List ℕ) → x ≤ d → All (λ y. x ≤ y) xs → All (λ y. x ≤ y) (inserted d xs)
unfolding inserted
inserted-above x d [] h k = (h, tt)
inserted-above x d (y ∷ ys) h (k, ks) = elim (Bool-cases (leb d y)) [
  | inl before ↦ rw before (h, (k, ks))
  | inr behind ↦ rw behind (k, inserted-above x d ys h ks)
]

All-above : (x y : ℕ) (ys : List ℕ) → x ≤ y → All (λ z. y ≤ z) ys → All (λ z. x ≤ z) ys
All-above x y [] h k = tt
All-above x y (z ∷ zs) h (k, ks) = (omega arith, All-above x y zs h ks)

inserted-Ordered : (d : ℕ) (xs : List ℕ) → Ordered xs → Ordered (inserted d xs)
unfolding inserted
inserted-Ordered d [] h = (tt, tt)
inserted-Ordered d (x ∷ xs) (h, hs) = elim (Bool-cases (leb d x)) [
  | inl before ↦
      let le : d ≤ x = ground (arith, before) in rw before ((le, All-above d x xs le h), (h, hs))
  | inr behind ↦
      rw behind (inserted-above x d xs (ground (arith, behind)) h, inserted-Ordered d xs hs)
]

sorted-Ordered : (ds : List ℕ) → Ordered (sorted_latencies ds)
unfolding sorted_latencies
sorted-Ordered [] = tt
sorted-Ordered (d ∷ ds) = inserted-Ordered d (sorted_latencies ds) (sorted-Ordered ds)

length-inserted : (d : ℕ) (xs : List ℕ) → length (inserted d xs) ≡ suc (length xs)
unfolding inserted
length-inserted d [] = refl
length-inserted d (x ∷ xs) = elim (Bool-cases (leb d x)) [
  | inl before ↦ rw before refl
  | inr behind ↦ rw behind (ap suc (length-inserted d xs))
]

length-sorted : (ds : List ℕ) → length (sorted_latencies ds) ≡ length ds
unfolding sorted_latencies
length-sorted [] = refl
length-sorted (d ∷ ds) = length-inserted d (sorted_latencies ds) ∙ ap suc (length-sorted ds)

at_above : (x i v : ℕ) (xs : List ℕ) → All (λ y. x ≤ y) xs → get_elem? xs i ≡ some v → x ≤ v
at_above x i v [] h e = absurd (cc e)
at_above x zero v (y ∷ ys) (h, hs) e = let same : y ≡ v = cc e in omega (arith, same, h)
at_above x (suc i) v (y ∷ ys) (h, hs) e = at_above x i v ys hs e

at-Ordered :
    (i j u v : ℕ) (xs : List ℕ)
    → Ordered xs
    → i ≤ j
    → get_elem? xs i ≡ some u
    → get_elem? xs j ≡ some v
    → u ≤ v
at-Ordered i j u v [] h k e f = absurd (cc e)
at-Ordered zero zero u v (x ∷ xs) h k e f = let same : u ≡ v = cc (sym e ∙ f) in omega (arith, same)
at-Ordered zero (suc j) u v (x ∷ xs) (h, hs) k e f =
    let same : x ≡ u = cc e in let le = at_above x j v xs h f in omega (arith, same, le)
at-Ordered (suc i) zero u v (x ∷ xs) h k e f = absurd (omega arith)
at-Ordered (suc i) (suc j) u v (x ∷ xs) (h, hs) k e f = at-Ordered i j u v xs hs (omega arith) e f

at_some : (xs : List ℕ) (i : ℕ) → i < length xs → (v : ℕ) × (get_elem? xs i ≡ some v)
at_some [] i h = absurd (omega arith)
at_some (x ∷ xs) zero h = (x, refl)
at_some (x ∷ xs) (suc i) h = at_some xs i (omega arith)

clamped : ℕ → ℕ → ℕ
clamped n i = if leb n i then n - 1 else i

clamped-le : (n i j : ℕ) → 0 < n → i ≤ j → clamped n i ≤ clamped n j
unfolding clamped
clamped-le n i j h k = ground arith

clamped-lt : (n i : ℕ) → 0 < n → clamped n i < n
unfolding clamped
clamped-lt n i h = ground arith

-- What a list has at an index.
abbrev Found : List ℕ → ℕ → Type 0
Found xs i = (v : ℕ) × (get_elem? xs i ≡ some v) × (indexed xs i ≡ ok v)

Found-at : (xs : List ℕ) (i : ℕ) → i < length xs → Found xs i
unfolding indexed
Found-at xs i h = let (v, e) = at_some xs i h in (v, e, rw (e, indexed) refl)

-- The latencies of the report in order, from the lowest to the highest.
abbrev Rising : LatencyReport → Type 0
Rising r = (r.minimum ≤ r.p50) × (r.p50 ≤ r.p90) × (r.p90 ≤ r.p99) × (r.p99 ≤ r.maximum)

report_of-Rising :
    (scale : ℕ → ℕ → ℕ) (xs : List ℕ)
    → scale 50 (length xs) ≤ scale 90 (length xs)
    → scale 90 (length xs) ≤ scale 99 (length xs)
    → 0 < length xs
    → Ordered xs
    → (r : LatencyReport) × (report_of scale xs ≡ ok r) × Rising r
unfolding report_of percentile clamped
report_of-Rising scale xs h k some_left ordered =
    let n = length xs in
    let at : ℕ → ℕ = λ p. clamped n (scale p n) in
    let inside : (p : ℕ) → at p < n = λ p. clamped-lt n (scale p n) some_left in
    let (lowest, e₀, f₀) = Found-at xs 0 some_left in
    let (half, e₁, f₁) = Found-at xs (at 50) (inside 50) in
    let (most, e₂, f₂) = Found-at xs (at 90) (inside 90) in
    let (nearly, e₃, f₃) = Found-at xs (at 99) (inside 99) in
    let (highest, e₄, f₄) = Found-at xs (n - 1) (omega arith) in
    (
      record {
        minimum = lowest;
        p50 = half;
        p90 = most;
        p99 = nearly;
        maximum = highest;
        mean = signed_quotient (latency_sum xs) n;
      },
      rw (f₀, f₁, f₂, f₃, f₄) refl,
      (
        at-Ordered 0 (at 50) lowest half xs ordered (omega arith) e₀ e₁,
        at-Ordered (at 50) (at 90) half most xs ordered (clamped-le n _ _ some_left h) e₁ e₂,
        at-Ordered (at 90) (at 99) most nearly xs ordered (clamped-le n _ _ some_left k) e₂ e₃,
        at-Ordered (at 99) (n - 1) nearly highest xs ordered (omega (arith, inside 99)) e₃ e₄,
      ),
    )

-- For percentiles whose indexes, however the floating-point arithmetic rounds them, do not fall as
-- the percentage rises: the report on one latency or more indexes inside the sorted latencies, and
-- its minimum, percentiles and maximum do not fall.
report_latency-Rising :
    (scale : ℕ → ℕ → ℕ) (ds : List ℕ)
    → ((p q n : ℕ) → p ≤ q → scale p n ≤ scale q n)
    → 0 < length ds
    → (r : LatencyReport) × (report_latency scale ds ≡ some (ok r)) × Rising r
unfolding report_latency
report_latency-Rising scale [] rises h = absurd (omega arith)
report_latency-Rising scale (d ∷ ds) rises h =
    let xs = sorted_latencies (d ∷ ds) in
    let (r, e, rising) =
      report_of-Rising scale xs (rises 50 90 _ (omega arith)) (rises 90 99 _ (omega arith))
        (omega (arith, length-sorted (d ∷ ds))) (sorted-Ordered (d ∷ ds)) in
    (r, ap some e, rising)
