-- ===== src/Wal/Manifest/Truncate.antt =====
-- `TruncateThrough` drops the entries that a snapshot covers and keeps the rest of the log.
use objwal.Prelude.{
  ℕ, suc, ◌+◌, ◌≤◌, ◌<◌, ◌^◌, ◌≡◌, refl, sym, ap, ◌∙◌, List, [], ◌∷◌, ◌++◌, append_assoc,
  append-nil, length, All, All-append, All-append_right, true, false, not, leb, Bool-cases, arith,
  inl, inr, filter_by, leb→le, ◌==◌,
}
use mathlib.Core.Path.{subst}
use objwal.Error.{ok}
use objwal.Std.LittleEndian.{Bytes}
use objwal.Wal.Entry.{Entry, range_size, end, IsEntry}
use objwal.Wal.Entry.Encoding.{Fits, encodings, entry_bytes, encode_entry-Fits}
use objwal.Wal.Manifest.{Manifest, entries, superseded, encode_entries, truncate_through}
use objwal.Wal.Manifest.Holds.{Holds, Tiles, Encodes-empty, entries-Holds}
use objwal.Wal.Manifest.Locate.{end-Tiles, Tiles-le}

-- All of the entry's records are at or below `through`.
abbrev Covered : ℕ → Entry → Type 0
Covered through e = (1 ≤ end e) × (end e ≤ through + 1)

-- Some record of the entry is above `through`.
abbrev Live : ℕ → Entry → Type 0
Live through e = (through + 1 < end e) × (end e < 2 ^ 64)

All-Live :
    (a b through : ℕ) (es : List Entry)
    → Tiles a es b
    → b < 2 ^ 64
    → through + 1 < a
    → All (Live through) es
All-Live a b through [] t f h = tt
All-Live a b through (e ∷ es) (t, ts) f h = (
  omega (arith, end-Tiles a b e es (t, ts) f, Tiles-le (a + range_size e) b es ts),
  All-Live (a + range_size e) b through es ts f (omega arith),
)

-- A tiled log splits into what a snapshot covers and the live rest.
pub record Cut (a b through : ℕ) (es : List Entry) : Type 0 where
  pub gone : List Entry
  pub kept : List Entry
  pub first_kept : ℕ
  pub split : es ≡ gone ++ kept
  pub gone_covered : All (Covered through) gone
  pub kept_live : All (Live through) kept
  pub kept_tiles : Tiles first_kept kept b

range_pos : (e : Entry) → 1 ≤ range_size e
unfolding range_size
range_pos e = ground arith

cut : (a b through : ℕ) (es : List Entry) → Tiles a es b → b < 2 ^ 64 → Cut a b through es
cut a b through [] t f = record {
  gone = [];
  kept = [];
  first_kept = a;
  split = refl;
  gone_covered = tt;
  kept_live = tt;
  kept_tiles = t;
}
cut a b through (e ∷ es) (t, ts) f = elim (Bool-cases (leb (end e) (through + 1))) [
  | inl covered ↦
      let c = cut (a + range_size e) b through es ts f in
      record {
        gone = e ∷ c.gone;
        kept = c.kept;
        first_kept = c.first_kept;
        split = ap (λ l. e ∷ l) c.split;
        gone_covered = (
          (
            omega (arith, end-Tiles a b e es (t, ts) f, range_pos e),
            leb→le (end e) (through + 1) covered,
          ),
          c.gone_covered,
        );
        kept_live = c.kept_live;
        kept_tiles = c.kept_tiles;
      }
  | inr live ↦
      let above : through + 1 < end e = ground arith in
      record {
        gone = [];
        kept = e ∷ es;
        first_kept = a;
        split = refl;
        gone_covered = tt;
        kept_live = (
          (above, omega (arith, end-Tiles a b e es (t, ts) f, Tiles-le (a + range_size e) b es ts)),
          All-Live (a + range_size e) b through es ts f
              (omega (arith, end-Tiles a b e es (t, ts) f)),
        );
        kept_tiles = (t, ts);
      }
]

superseded-Covered :
    (through : ℕ) (e : Entry) → Covered through e → through < 2 ^ 64 → superseded through e ≡ true
unfolding superseded
superseded-Covered through e h f = ground arith

superseded-Live : (through : ℕ) (e : Entry) → Live through e → superseded through e ≡ false
unfolding superseded
superseded-Live through e h = ground arith

module _ {through : ℕ} (small : through < 2 ^ 64) where
  kept-split :
      (gone kept : List Entry)
      → All (Covered through) gone
      → All (Live through) kept
      → filter_by (λ e. not (superseded through e)) (gone ++ kept) ≡ kept
  unfolding filter_by
  kept-split [] [] h k = refl
  kept-split [] (e ∷ es) h (k, ks) =
      rw (superseded-Live through e k) (ap (λ l. e ∷ l) (kept-split [] es tt ks))
  kept-split (e ∷ es) kept (h, hs) k =
      rw (superseded-Covered through e h small) (kept-split es kept hs k)

  gone-split :
      (gone kept : List Entry)
      → All (Covered through) gone
      → All (Live through) kept
      → filter_by (superseded through) (gone ++ kept) ≡ gone
  unfolding filter_by
  gone-split [] [] h k = refl
  gone-split [] (e ∷ es) h (k, ks) = rw (superseded-Live through e k) (gone-split [] es tt ks)
  gone-split (e ∷ es) kept (h, hs) k =
      rw (superseded-Covered through e h small) (ap (λ l. e ∷ l) (gone-split es kept hs k))

encode_entries-Fits :
    (buf : Bytes) (es : List Entry) → All Fits es → encode_entries buf es ≡ ok (buf ++ encodings es)
unfolding encode_entries encodings
encode_entries-Fits buf [] h = ap ok (sym (append-nil buf))
encode_entries-Fits buf (e ∷ es) (h, hs) =
    rw (encode_entry-Fits buf e h, encode_entries-Fits (buf ++ entry_bytes e) es hs)
      (ap ok (append_assoc buf (entry_bytes e) (encodings es)))

-- The manifest that a truncation leaves, with `kept` alone.
abbrev rewritten : Manifest → List Entry → Manifest
rewritten m kept = record m {
  base = encodings kept;
  base_count = length kept;
  appended = [];
  appended_count = 0;
}

suc-==-0 : (n : ℕ) → (suc n == 0) ≡ false
suc-==-0 n = ground arith

truncate_some :
    (m : Manifest) (through : ℕ) (e : Entry) (gone kept : List Entry)
    → entries m ≡ ok (e ∷ gone ++ kept)
    → through < 2 ^ 64
    → All (Covered through) (e ∷ gone)
    → All (Live through) kept
    → All Fits kept
    → truncate_through m through ≡ ok (length (e ∷ gone), rewritten m kept)
unfolding truncate_through
truncate_some m through e gone kept h small g k fits = rw (
  h,
  gone-split small (e ∷ gone) kept g k,
  kept-split small (e ∷ gone) kept g k,
  suc-==-0 (length gone),
  encode_entries-Fits [] kept fits,
)

truncate_none :
    (m : Manifest) (through : ℕ) (kept : List Entry)
    → entries m ≡ ok kept
    → through < 2 ^ 64
    → All (Live through) kept
    → truncate_through m through ≡ ok (0, m)
unfolding truncate_through
truncate_none m through kept h small k = rw (h, gone-split small [] kept tt k)

-- What `TruncateThrough` leaves: the entries with a record above `through`, and the counters.
abbrev pub Truncated : Manifest → ℕ → List Entry → List Entry → ℕ → Type 0
Truncated m through gone kept first_kept =
    (m' : Manifest) × (truncate_through m through ≡ ok (length gone, m'))
    × Holds m' first_kept kept
    × (m'.next_sequence ≡ m.next_sequence)
    × (m'.epoch ≡ m.epoch)
    × (m'.snapshot ≡ m.snapshot)

module _ {m : Manifest} {first : ℕ} {es : List Entry} (h : Holds m first es) where
  all-IsEntry : All IsEntry es
  all-IsEntry =
      subst (All IsEntry) (sym h.split)
        (All-append IsEntry h.older h.newer h.base_holds.are_entries h.appended_holds.are_entries)

  all-Fits : All Fits es
  all-Fits =
      subst (All Fits) (sym h.split)
        (All-append Fits h.older h.newer h.base_holds.all_fit h.appended_holds.all_fit)

  rewritten-Holds :
      (gone kept : List Entry) (first_kept : ℕ)
      → es ≡ gone ++ kept
      → Tiles first_kept kept m.next_sequence
      → Holds (rewritten m kept) first_kept kept
  rewritten-Holds gone kept first_kept split tiles = record {
    older = kept;
    newer = [];
    split = sym (append-nil kept);
    base_holds = record {
      region_eq = refl;
      are_entries = All-append_right IsEntry gone kept (subst (All IsEntry) split all-IsEntry);
      all_fit = All-append_right Fits gone kept (subst (All Fits) split all-Fits);
    };
    appended_holds = Encodes-empty;
    base_counted = refl;
    appended_counted = refl;
    tiled = tiles;
    next_fits = h.next_fits;
  }

  truncated :
      (through : ℕ) (gone kept : List Entry) (first_kept : ℕ)
      → through < 2 ^ 64
      → es ≡ gone ++ kept
      → All (Covered through) gone
      → All (Live through) kept
      → Tiles first_kept kept m.next_sequence
      → Truncated m through gone kept first_kept
  truncated through [] kept first_kept small split g k tiles = (
    m,
    truncate_none m through kept (entries-Holds h ∙ ap ok split) small k,
    same_log,
    refl,
    refl,
    refl,
  )
    where
      same_log : Holds m first_kept kept
      same_log = record {
        older = h.older;
        newer = h.newer;
        split = sym split ∙ h.split;
        base_holds = h.base_holds;
        appended_holds = h.appended_holds;
        base_counted = h.base_counted;
        appended_counted = h.appended_counted;
        tiled = tiles;
        next_fits = h.next_fits;
      }
  truncated through (e ∷ gone) kept first_kept small split g k tiles = (
    rewritten m kept,
    truncate_some m through e gone kept (entries-Holds h ∙ ap ok split) small g k
        (All-append_right Fits (e ∷ gone) kept (subst (All Fits) split all-Fits)),
    rewritten-Holds (e ∷ gone) kept first_kept split tiles,
    refl,
    refl,
    refl,
  )

-- For `through` below 2 ^ 64, the log that a manifest holds splits into a front of entries whose
-- records are all at or below `through` and a rest of entries with a record above it;
-- `TruncateThrough` removes the front, counts it, and leaves a manifest that holds the rest, with
-- the same next sequence, epoch and snapshot.
pub truncate_through-Holds :
    {m : Manifest} {first : ℕ} {es : List Entry} (through : ℕ)
    → Holds m first es
    → through < 2 ^ 64
    → (c : Cut first m.next_sequence through es) × Truncated m through c.gone c.kept c.first_kept
truncate_through-Holds {m} {first} {es} through h small =
    let c = cut first m.next_sequence through es h.tiled h.next_fits in
    (
      c,
      truncated h through c.gone c.kept c.first_kept small c.split c.gone_covered c.kept_live
          c.kept_tiles,
    )
