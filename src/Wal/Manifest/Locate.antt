-- ===== src/Wal/Manifest/Locate.antt =====
-- `Locate` and the record-addressable read path, over a log that tiles the sequence space.
use objwal.Prelude.{
  ℕ, zero, suc, ◌+◌, ◌-◌, ◌/◌, ◌≤◌, ◌<◌, ◌^◌, ◌≡◌, refl, ap, ◌∙◌, ◌⊎◌, lt→ltb, List, [], ◌∷◌, ◌++◌,
  length, get_elem?, Option, none, some, true, leb, ltb, lt→leb, le→ltb, arith, inl, inr, filter_by,
  if◌then◌else◌,
}
use mathlib.Core.Path.{subst}
use objwal.Error.{ok}
use objwal.Wal.Entry.{Entry, range_size, end, contains}
use objwal.Wal.Manifest.{Manifest, entries_containing, end_at, search_loop, located, locate}
use objwal.Wal.Manifest.Holds.{Holds, Tiles, entries-Holds}

-- The specification: a scan for the first entry that ends past `seq`.
unfoldable first_past : ℕ → List Entry → Option Entry
first_past seq [] = none
first_past seq (e ∷ es) = if leb (end e) seq then first_past seq es else some e

-- How many entries end at or before `seq`.
unfoldable ends_before : ℕ → List Entry → ℕ
ends_before seq [] = 0
ends_before seq (e ∷ es) = if leb (end e) seq then suc (ends_before seq es) else 0

pub Tiles-le : (a b : ℕ) (es : List Entry) → Tiles a es b → a ≤ b
Tiles-le a b [] h = omega arith
Tiles-le a b (e ∷ es) (h, hs) = omega (arith, Tiles-le (a + range_size e) b es hs)

-- In a log below 2 ^ 64 no end wraps.
pub end-Tiles :
    (a b : ℕ) (e : Entry) (es : List Entry)
    → Tiles a (e ∷ es) b
    → b < 2 ^ 64
    → end e ≡ a + range_size e
unfolding end
end-Tiles a b e es (h, hs) fits = omega (arith, Tiles-le (a + range_size e) b es hs)

range_size-pos : (e : Entry) → 1 ≤ range_size e
unfolding range_size
range_size-pos e = ground arith

-- Ends grow along the log: an index is below the count exactly if its end is at or before `seq`.
ends_before_later :
    (a b seq : ℕ) (es : List Entry) → Tiles a es b → b < 2 ^ 64 → seq < a → ends_before seq es ≡ 0
unfolding ends_before
ends_before_later a b seq [] t f h = refl
ends_before_later a b seq (e ∷ es) t f h =
    rw (lt→leb (end e) seq (omega (arith, end-Tiles a b e es t f)))

end_at-Tiles :
    (a b seq i : ℕ) (es : List Entry)
    → Tiles a es b
    → b < 2 ^ 64
    → i < length es
    → (leb (end_at es i) seq ≡ ltb i (ends_before seq es))
unfolding end_at ends_before
end_at-Tiles a b seq i [] t f h = absurd (omega arith)
end_at-Tiles a b seq zero (e ∷ es) t f h = ground arith
end_at-Tiles a b seq (suc i) (e ∷ es) (t, ts) f h = ground (
  arith,
  end-Tiles a b e es (t, ts) f,
  end_at-Tiles (a + range_size e) b seq i es ts f,
  ends_before_later (a + range_size e) b seq es ts f,
)

ends_before-le : (seq : ℕ) (es : List Entry) → ends_before seq es ≤ length es
unfolding ends_before
ends_before-le seq [] = omega arith
ends_before-le seq (e ∷ es) = ground (arith, ends_before-le seq es)

-- The binary search ends at the count, with one round of fuel for each place of the range.
search_loop-ends_before :
    (fuel : ℕ) (a b seq lo hi : ℕ) (es : List Entry)
    → Tiles a es b
    → b < 2 ^ 64
    → lo ≤ ends_before seq es
    → ends_before seq es ≤ hi
    → hi ≤ length es
    → hi ≤ lo + fuel
    → search_loop fuel es seq lo hi ≡ ends_before seq es
unfolding search_loop
search_loop-ends_before zero a b seq lo hi es t f l r n k = omega arith
search_loop-ends_before (suc fuel) a b seq lo hi es t f l r n k =
    let mid = (lo + hi) / 2 in
    ground (
      arith,
      end_at-Tiles a b seq mid es t f,
      search_loop-ends_before fuel a b seq (mid + 1) hi es t f,
      search_loop-ends_before fuel a b seq lo mid es t f,
    )

get_elem?-ends_before :
    (seq : ℕ) (es : List Entry) → get_elem? es (ends_before seq es) ≡ first_past seq es
unfolding ends_before first_past
get_elem?-ends_before seq [] = refl
get_elem?-ends_before seq (e ∷ es) = ground (arith, get_elem?-ends_before seq es)

-- The search finds what a scan would.
locate-first_past :
    {m : Manifest} {first : ℕ} {es : List Entry} (seq : ℕ)
    → Holds m first es
    → locate m seq ≡ located (first_past seq es) seq
unfolding locate
locate-first_past {m} {first} {es} seq h = rw (
  entries-Holds h,
  locate,
  search_loop-ends_before (length es) first m.next_sequence seq 0 (length es) es h.tiled h.next_fits
      (omega arith) (ends_before-le seq es) (omega arith) (omega arith),
  get_elem?-ends_before seq es,
)

sequence-Tiles :
    (a b : ℕ) (xs : List Entry) (e : Entry) (ys : List Entry)
    → Tiles a (xs ++ e ∷ ys) b
    → a ≤ e.sequence
sequence-Tiles a b [] e ys (h, hs) = omega arith
sequence-Tiles a b (x ∷ xs) e ys (h, hs) =
    omega (arith, sequence-Tiles (a + range_size x) b xs e ys hs)

first_past-found :
    (a b seq : ℕ) (xs : List Entry) (e : Entry) (ys : List Entry)
    → Tiles a (xs ++ e ∷ ys) b
    → b < 2 ^ 64
    → contains e seq ≡ true
    → first_past seq (xs ++ e ∷ ys) ≡ some e
unfolding first_past contains
first_past-found a b seq [] e ys t f h = ground arith
first_past-found a b seq (x ∷ xs) e ys (t, ts) f h = ground (
  arith,
  end-Tiles a b x (xs ++ e ∷ ys) (t, ts) f,
  sequence-Tiles (a + range_size x) b xs e ys ts,
  first_past-found (a + range_size x) b seq xs e ys ts f,
)

-- In a manifest that holds a log, `Locate` finds the entry whose range holds the sequence,
-- wherever it stands in the log, and the record's index in its segment.
pub locate-found :
    {m : Manifest} {first : ℕ} (xs : List Entry) (e : Entry) (ys : List Entry) (seq : ℕ)
    → Holds m first (xs ++ e ∷ ys)
    → contains e seq ≡ true
    → locate m seq ≡ some (e, seq - e.sequence)
locate-found {m} {first} xs e ys seq h c =
    locate-first_past seq h
    ∙ rw (first_past-found first m.next_sequence seq xs e ys h.tiled h.next_fits c)
        (unfold located in rw c)

first_past_before :
    (a b seq : ℕ) (es : List Entry)
    → Tiles a es b
    → b < 2 ^ 64
    → seq < a
    → located (first_past seq es) seq ≡ none
unfolding first_past located contains
first_past_before a b seq [] t f h = refl
first_past_before a b seq (e ∷ es) (t, ts) f h = ground (arith, end-Tiles a b e es (t, ts) f)

first_past_end :
    (a b seq : ℕ) (es : List Entry) → Tiles a es b → b < 2 ^ 64 → b ≤ seq → first_past seq es ≡ none
unfolding first_past
first_past_end a b seq [] t f h = refl
first_past_end a b seq (e ∷ es) (t, ts) f h = ground (
  arith,
  end-Tiles a b e es (t, ts) f,
  Tiles-le (a + range_size e) b es ts,
  first_past_end (a + range_size e) b seq es ts f,
)

-- In a manifest that holds a log, `Locate` finds nothing for a sequence below the log's first or
-- from the next sequence on.
locate-none :
    {m : Manifest} {first : ℕ} {es : List Entry} (seq : ℕ)
    → Holds m first es
    → (seq < first) ⊎ (m.next_sequence ≤ seq)
    → locate m seq ≡ none
locate-none {m} {first} {es} seq h (inl lo) =
    locate-first_past seq h ∙ first_past_before first m.next_sequence seq es h.tiled h.next_fits lo
locate-none {m} {first} {es} seq h (inr hi) =
    locate-first_past seq h
    ∙ rw (first_past_end first m.next_sequence seq es h.tiled h.next_fits hi)
        (unfold located in refl)

abbrev pub past : ℕ → List Entry → List Entry
past seq = filter_by (λ e. ltb seq (end e))

pub past_later :
    (a b seq : ℕ) (es : List Entry) → Tiles a es b → b < 2 ^ 64 → seq < a → past seq es ≡ es
unfolding filter_by
past_later a b seq [] t f h = refl
past_later a b seq (e ∷ es) (t, ts) f h = rw (
  lt→ltb seq (end e) (omega (arith, end-Tiles a b e es (t, ts) f)),
  past_later (a + range_size e) b seq es ts f (omega arith),
)

past_found :
    (a b seq : ℕ) (xs : List Entry) (e : Entry) (ys : List Entry)
    → Tiles a (xs ++ e ∷ ys) b
    → b < 2 ^ 64
    → contains e seq ≡ true
    → past seq (xs ++ e ∷ ys) ≡ e ∷ ys
unfolding filter_by contains
past_found a b seq [] e ys (t, ts) f h =
    ground (arith, end-Tiles a b e ys (t, ts) f, past_later (a + range_size e) b seq ys ts f)
past_found a b seq (x ∷ xs) e ys (t, ts) f h = ground (
  arith,
  end-Tiles a b x (xs ++ e ∷ ys) (t, ts) f,
  sequence-Tiles (a + range_size x) b xs e ys ts,
  past_found (a + range_size x) b seq xs e ys ts f,
)

past_end : (a b seq : ℕ) (es : List Entry) → Tiles a es b → b < 2 ^ 64 → b ≤ seq → past seq es ≡ []
unfolding filter_by
past_end a b seq [] t f h = refl
past_end a b seq (e ∷ es) (t, ts) f h = rw (
  le→ltb seq (end e)
      (omega (arith, end-Tiles a b e es (t, ts) f, Tiles-le (a + range_size e) b es ts)),
  past_end (a + range_size e) b seq es ts f h,
)

-- In a manifest that holds a log, `EntriesContaining` of `seq` gives the entry that holds `seq`
-- and all behind it; for `seq` below the log it gives the whole log, and from the next sequence on
-- nothing.
pub entries_containing_lem :
    {m : Manifest} {first : ℕ} {es : List Entry} (seq : ℕ)
    → Holds m first es
    → ((xs : List Entry) (e : Entry) (ys : List Entry)
        → es ≡ xs ++ e ∷ ys
        → contains e seq ≡ true
        → entries_containing m seq ≡ ok (e ∷ ys))
      × (seq < first → entries_containing m seq ≡ ok es)
      × (m.next_sequence ≤ seq → entries_containing m seq ≡ ok [])
unfolding entries_containing
entries_containing_lem {m} {first} {es} seq h =
    let t = h.tiled in
    (
      λ xs e ys split c.
          rw (entries-Holds h, split)
            (ap ok (
              past_found first m.next_sequence seq xs e ys
                (subst (λ l. Tiles first l m.next_sequence) split t) h.next_fits c)),
      λ lo. rw (entries-Holds h) (ap ok (past_later first m.next_sequence seq es t h.next_fits lo)),
      λ hi. rw (entries-Holds h) (ap ok (past_end first m.next_sequence seq es t h.next_fits hi)),
    )
