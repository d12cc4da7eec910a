-- ===== src/Wal/Manifest/Holds.antt =====
-- The log that a manifest stands for: its entries, which tile the sequence space.
use objwal.Prelude.{
  ℕ, zero, suc, ◌+◌, ◌≤◌, ◌<◌, ◌^◌, ◌≡◌, refl, sym, ap, ◌∙◌, List, [], ◌∷◌, ◌++◌, append_assoc,
  append-nil, length, length-append, All, All-append, true, arith,
}
use objwal.Error.{ok, ◌>>=◌}
use objwal.Std.LittleEndian.{Bytes, length-le_bytes}
use objwal.Wal.Entry.{Entry, range_size, decode_entry, IsEntry}
use objwal.Wal.Entry.Encoding.{Fits, entry_bytes, encodings}
use objwal.Wal.Entry.RoundTrip.{decode_entry-entry_bytes}
use objwal.Wal.Manifest.{new_manifest, Manifest, entries_loop, region_entries, entries, count}

-- Entries that own the sequences from `a` to `b`, with no gap and no overlap.
abbrev pub Tiles : ℕ → List Entry → ℕ → Type 0
Tiles a [] b = a ≡ b
Tiles a (e ∷ es) b = (e.sequence ≡ a) × Tiles (a + range_size e) es b

-- A region of a manifest that holds the entries `es`.
pub record Encodes (region : Bytes) (es : List Entry) : Type 0 where
  pub region_eq : region ≡ encodings es
  pub are_entries : All IsEntry es
  pub all_fit : All Fits es

-- A manifest that holds the entries `es` of the sequences from `first` on.
pub record Holds (m : Manifest) (first : ℕ) (es : List Entry) : Type 0 where
  pub older : List Entry
  pub newer : List Entry
  pub split : es ≡ older ++ newer
  pub base_holds : Encodes m.base older
  pub appended_holds : Encodes m.appended newer
  pub base_counted : m.base_count ≡ length older
  pub appended_counted : m.appended_count ≡ length newer
  pub tiled : Tiles first es m.next_sequence
  pub next_fits : m.next_sequence < 2 ^ 64

entries_loop_step :
    (fuel : ℕ) (region : Bytes) {e : Entry} {next : Bytes}
    → decode_entry region true ≡ ok (e, next)
    → entries_loop (suc fuel) region ≡ (entries_loop fuel next >>= λ es. ok (e ∷ es))
unfolding entries_loop
entries_loop_step fuel [] h = unfold decode_entry in cc
entries_loop_step fuel (b ∷ bs) h = rw h

length-entry_bytes : (e : Entry) → 4 ≤ length (entry_bytes e)
unfolding entry_bytes
length-entry_bytes e = rw length-append (omega (arith, length-le_bytes 4))

length-encodings :
    (e : Entry) (es : List Entry)
    → length (encodings (e ∷ es)) ≡ length (entry_bytes e) + length (encodings es)
unfolding encodings
length-encodings e es = length-append (entry_bytes e) (encodings es)

first_decoded :
    (e : Entry) (es : List Entry)
    → IsEntry e
    → Fits e
    → decode_entry (encodings (e ∷ es)) true ≡ ok (e, encodings es)
unfolding encodings
first_decoded e es h k = decode_entry-entry_bytes e (encodings es) h k

entries_loop-encodings :
    (fuel : ℕ) (es : List Entry)
    → All IsEntry es
    → All Fits es
    → length (encodings es) ≤ fuel
    → entries_loop fuel (encodings es) ≡ ok es
entries_loop-encodings fuel [] h k f = unfold entries_loop encodings in refl
entries_loop-encodings zero (e ∷ es) h k f =
    absurd (omega (arith, length-encodings e es, length-entry_bytes e))
entries_loop-encodings (suc fuel) (e ∷ es) (h, hs) (k, ks) f =
    entries_loop_step fuel (encodings (e ∷ es)) (first_decoded e es h k)
    ∙ rw (
        entries_loop-encodings fuel es hs ks
          (omega (arith, length-encodings e es, length-entry_bytes e)))

-- `Entries` decodes a region to the entries that it was built from.
region_entries-Encodes :
    {region : Bytes} {es : List Entry} → Encodes region es → region_entries region ≡ ok es
unfolding region_entries
region_entries-Encodes {region} {es} h =
    rw h.region_eq
      (entries_loop-encodings (length (encodings es)) es h.are_entries h.all_fit (omega arith))

-- `Entries` of a manifest that holds a log, in its two regions, gives the log.
pub entries-Holds :
    {m : Manifest} {first : ℕ} {es : List Entry} → Holds m first es → entries m ≡ ok es
unfolding entries
entries-Holds h =
    rw (region_entries-Encodes h.base_holds, region_entries-Encodes h.appended_holds)
      (ap ok (sym h.split))

count-Holds : {m : Manifest} {first : ℕ} {es : List Entry} → Holds m first es → count m ≡ length es
unfolding count
count-Holds h =
    omega
      (arith, h.base_counted, h.appended_counted, length-append h.older h.newer, ap length h.split)

encodings-append : (xs ys : List Entry) → encodings (xs ++ ys) ≡ encodings xs ++ encodings ys
unfolding encodings
encodings-append [] ys = refl
encodings-append (x ∷ xs) ys =
    rw (encodings-append xs ys) (sym (append_assoc (entry_bytes x) (encodings xs) (encodings ys)))

pub Encodes-empty : Encodes [] []
unfolding encodings
Encodes-empty = record { region_eq = refl; are_entries = tt; all_fit = tt }

pub Encodes-append :
    {r s : Bytes} {xs ys : List Entry} → Encodes r xs → Encodes s ys → Encodes (r ++ s) (xs ++ ys)
Encodes-append {r} {s} {xs} {ys} h k = record {
  region_eq = cc (h.region_eq, k.region_eq, encodings-append xs ys);
  are_entries = All-append IsEntry xs ys h.are_entries k.are_entries;
  all_fit = All-append Fits xs ys h.all_fit k.all_fit;
}

pub Encodes-one : (e : Entry) → IsEntry e → Fits e → Encodes (entry_bytes e) (e ∷ [])
unfolding encodings
Encodes-one e h k = record {
  region_eq = sym (append-nil (entry_bytes e));
  are_entries = (h, tt);
  all_fit = (k, tt);
}

-- Another entry behind a tiled log.
pub Tiles-append :
    (a b : ℕ) (es : List Entry) (e : Entry)
    → Tiles a es b
    → e.sequence ≡ b
    → Tiles a (es ++ e ∷ []) (b + range_size e)
Tiles-append a b [] e h k = (k ∙ sym h, omega (arith, h))
Tiles-append a b (x ∷ es) e (h, hs) k = (h, Tiles-append (a + range_size x) b es e hs k)

-- A new manifest holds no entry.
pub new_manifest-Holds : Holds new_manifest 0 []
new_manifest-Holds = record {
  older = [];
  newer = [];
  split = refl;
  base_holds = Encodes-empty;
  appended_holds = Encodes-empty;
  base_counted = refl;
  appended_counted = refl;
  tiled = refl;
  next_fits = omega arith;
}
