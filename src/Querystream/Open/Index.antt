-- ===== src/Querystream/Open/Index.antt =====
-- Starting at a segment: `SegmentStartSeq`, and what a replica that starts there reads.
use objwal.Prelude.{
  ℕ, zero, suc, ◌+◌, ◌^◌, ◌≤◌, ◌<◌, ◌≡◌, refl, subst, true, List, [], ◌∷◌, ◌++◌, none, some, length,
  get_elem?, arith,
}
use objwal.Error.{ok, err, invalid, segment_index_range}
use objwal.Wal.Entry.{Entry, range_size, contains}
use objwal.Wal.Manifest.{entries_containing}
use objwal.Wal.Manifest.Holds.{Tiles, Holds, entries-Holds}
use objwal.Wal.Manifest.Locate.{end-Tiles, entries_containing_lem}
use objwal.Wal.Store.{Loaded}
use objwal.Querystream.Open.{entry_at, start_seq_of}

get_elem?-append :
    (xs : List Entry) (e : Entry) (ys : List Entry) → get_elem? (xs ++ e ∷ ys) (length xs) ≡ some e
get_elem?-append [] e ys = refl
get_elem?-append (x ∷ xs) e ys = get_elem?-append xs e ys

get_elem?-none : (es : List Entry) (i : ℕ) → length es ≤ i → get_elem? es i ≡ none
get_elem?-none [] i h = refl
get_elem?-none (e ∷ es) zero h = absurd (omega arith)
get_elem?-none (e ∷ es) (suc i) h = get_elem?-none es i (omega arith)

contains-first :
    (a b : ℕ) (xs : List Entry) (e : Entry) (ys : List Entry)
    → Tiles a (xs ++ e ∷ ys) b
    → b < 2 ^ 64
    → contains e e.sequence ≡ true
unfolding contains range_size
contains-first a b [] e ys (t, ts) f = ground (arith, end-Tiles a b e ys (t, ts) f)
contains-first a b (x ∷ xs) e ys (t, ts) f = contains-first (a + range_size x) b xs e ys ts f

-- In a manifest that holds a log, the start sequence of a segment's index is the sequence of that
-- segment's entry, and what the manifest has from there on begins with that entry; an index from the
-- number of the entries on is an error.
start_seq_of-Holds :
    {first : ℕ} {es : List Entry} (l : Loaded) (xs : List Entry) (e : Entry) (ys : List Entry)
    (i : ℕ)
    → l.exists ≡ true
    → Holds l.manifest first es
    → es ≡ xs ++ e ∷ ys
    → length es ≤ i
    → (start_seq_of (length xs) (ok l) ≡ ok e.sequence)
      × (entries_containing l.manifest e.sequence ≡ ok (e ∷ ys))
      × (start_seq_of i (ok l) ≡ err (invalid segment_index_range))
unfolding start_seq_of entry_at
start_seq_of-Holds {first} {es} l xs e ys i there h split k = (
  rw (there, entries-Holds h, split, get_elem?-append xs e ys, entry_at) refl,
  (entries_containing_lem e.sequence h).0 xs e ys split (
      contains-first first l.manifest.next_sequence xs e ys
        (subst (λ z. Tiles first z l.manifest.next_sequence) split h.tiled) h.next_fits),
  rw (there, entries-Holds h, get_elem?-none es i k, entry_at) refl,
)
