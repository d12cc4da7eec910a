-- ===== src/Querystream/Duckdbq/Windows.antt =====
-- The bound on the buckets leaves out no row of the window.
use objwal.Prelude.{
  ℕ, ◌/◌, ◌≤◌, ◌<◌, ◌≡◌, inl, inr, Bool, true, ◌&&◌, Bool-cases, leb, leb→le, if◌then◌else◌, arith,
}
use native.Mathlib.Nat.{div-mul-le_self, le-div_iff_mul-le}
use objwal.Querystream.Duckdbq.{incremental, cumulative, Query, Bounds, bounds_from, resolve_window}

-- What the view's WHERE keeps, of the row of a sequence in a bucket.
unfoldable pub selects : Bounds → ℕ → ℕ → ℕ → Bool
selects b hi seq bucket =
    leb seq hi && (if b.has_lo then leb b.lo_incl seq && leb b.bucket_lo bucket else true)

-- The lower bound of a query.
unfoldable pub lower_bound : Query → ℕ → ℕ
lower_bound q wm = elim q.mode [ incremental ↦ wm | cumulative ↦ q.start ]

div-le : (a b k : ℕ) → 0 < k → a ≤ b → a / k ≤ b / k
div-le a b k h l =
    (le-div_iff_mul-le {x = a / k} {y = b} h).1 (omega (arith, div-mul-le_self a k, l))

selects-bounds_from :
    (lo size hi seq : ℕ)
    → 0 < size
    → selects (bounds_from lo size) hi seq (seq / size) ≡ (leb lo seq && leb seq hi)
unfolding selects bounds_from
selects-bounds_from lo size hi seq h = elim (Bool-cases (leb lo seq)) [
  | inl above ↦ ground (arith, div-le lo seq size h (leb→le lo seq above), above)
  | inr below ↦ ground (arith, below)
]

-- For a bucket size above 0 and the sink's files, whose rows are in the bucket of their sequence,
-- the conditions of a query's view on the sequence and on the bucket together select exactly the
-- sequences from the query's lower bound to the highest visible one.
pub resolve_window-selects :
    (q : Query) (wm size hi seq : ℕ)
    → 0 < size
    → selects (resolve_window q wm size) hi seq (seq / size)
      ≡ (leb (lower_bound q wm) seq && leb seq hi)
unfolding resolve_window lower_bound
resolve_window-selects q wm size hi seq h = selects-bounds_from _ size hi seq h
