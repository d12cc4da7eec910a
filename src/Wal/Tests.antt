-- ===== src/Wal/Tests.antt =====
-- Concrete inputs: a small log, a world of one object, and the theorems of the write-ahead log at them.
use objwal.Prelude.{
  ◌<◌, ◌≤◌, ◌≡◌, ◌≢◌, refl, true, false, List, [], ◌∷◌, ◌++◌, some, All, arith, ◌==◌, if◌then◌else◌,
}
use objwal.Error.{ok, err, out_of_fuel, corrupt}
use objwal.Std.LittleEndian.{Bytes, le_bytes}
use objwal.Wal.Segment.{Zstd, encode_segment, decode_segment}
use objwal.Wal.Segment.RoundTrip.{decode_segment-encode_segment}
use objwal.Wal.Entry.{
  encode_body, encode_metas, end, range_size, RecordMeta, Entry, IsMeta, IsEntry, contains,
}
use objwal.Wal.Entry.Encoding.{Fits}
use objwal.Wal.Manifest.{
  Manifest, new_manifest, locate, entries, entries_containing, manifest_bytes, parse_manifest,
  covered_bytes, manifest_of, no_snapshot,
}
use objwal.Wal.Manifest.Parse.{whole, covered, parse_manifest-whole}
use objwal.Std.Crc32.{checksum}
use objwal.Wal.Manifest.Holds.{new_manifest-Holds, Holds}
use objwal.Wal.Manifest.Append.{entry_of, appended_to, append_lem, append-Holds, appended_to-Holds}
use objwal.Wal.Manifest.Locate.{locate-found, entries_containing_lem}
use objwal.Wal.Manifest.Truncate.{Cut, Truncated, truncate_through-Holds}
use objwal.Wal.Manifest.Fuel.{entries-ne-out_of_fuel}
use objwal.Wal.Manifest.Reload.{InRange, parse_manifest-Holds}

-- A codec that stores the block as it is.
abbrev stored : Zstd
stored = record { encode_all = λ b. b; decode_all = λ b. ok b; decode_all-encode_all = λ b. refl }

decode_segment-encode_segment_example :
    (bytes : Bytes) × (encode_segment stored ((7 ∷ []) ∷ [] ∷ []) 1 false ≡ ok bytes)
    × (decode_segment stored bytes ≡ ok ((7 ∷ []) ∷ [] ∷ []))
decode_segment-encode_segment_example =
    decode_segment-encode_segment stored ((7 ∷ []) ∷ [] ∷ []) 1 false (omega arith)
      (omega arith, (omega arith, tt)) (omega arith)

abbrev meta : RecordMeta
meta = record { start_index = 0; ingestion_time_ms = 1700; payload = 9 ∷ [] }

abbrev metas : List RecordMeta
metas = meta ∷ []

abbrev place : Bytes
place = 97 ∷ 98 ∷ []

meta-IsMeta : All IsMeta metas
meta-IsMeta = (record { start_fits = omega arith; time_fits = omega arith }, tt)

abbrev first_entry : Entry
first_entry = entry_of 0 2 place metas

abbrev second_entry : Entry
second_entry = entry_of 2 3 place metas

first_entry-Fits : Fits first_entry
unfolding encode_body encode_metas le_bytes
first_entry-Fits = record {
  payloads = (omega arith, tt);
  location_fits = omega arith;
  body_fits = omega arith;
}

second_entry-Fits : Fits second_entry
unfolding encode_body encode_metas le_bytes
second_entry-Fits = record {
  payloads = (omega arith, tt);
  location_fits = omega arith;
  body_fits = omega arith;
}

first_entry-IsEntry : IsEntry first_entry
first_entry-IsEntry = record {
  sequence_fits = omega arith;
  count_fits = omega arith;
  metas = meta-IsMeta;
}

-- A manifest of two entries: the sequences 0 to 1 and 2 to 4.
abbrev one : Manifest
one = appended_to new_manifest place metas 2

one-Holds : Holds one 0 (first_entry ∷ [])
one-Holds =
    appended_to-Holds new_manifest place metas 2 new_manifest-Holds meta-IsMeta (omega arith)
      (omega arith) first_entry-Fits (omega arith)

abbrev two : Manifest
two = appended_to one place metas 3

two-Holds : Holds two 0 (first_entry ∷ second_entry ∷ [])
two-Holds =
    appended_to-Holds one place metas 3 one-Holds meta-IsMeta (omega arith) (omega arith)
      second_entry-Fits (omega arith)

append-Holds_example :
    (two.appended_count ≡ 2)
    × Holds two 0 (first_entry ∷ second_entry ∷ [])
    × (two.next_sequence ≡ 5)
append-Holds_example =
    append-Holds {m = one} place metas 3 2 two one-Holds meta-IsMeta (omega arith)
      (append_lem one place metas 3 (omega arith) (omega arith) second_entry-Fits)

has_three : contains second_entry 3 ≡ true
unfolding contains end range_size
has_three = refl

locate-found_example : locate two 3 ≡ some (second_entry, 1)
locate-found_example = locate-found (first_entry ∷ []) second_entry [] 3 two-Holds has_three

entries_containing_lem_example :
    ((xs : List Entry) (e : Entry) (ys : List Entry)
      → first_entry ∷ second_entry ∷ [] ≡ xs ++ e ∷ ys
      → contains e 3 ≡ true
      → entries_containing two 3 ≡ ok (e ∷ ys))
    × (3 < 0 → entries_containing two 3 ≡ ok (first_entry ∷ second_entry ∷ []))
    × (5 ≤ 3 → entries_containing two 3 ≡ ok [])
entries_containing_lem_example = entries_containing_lem 3 two-Holds

truncate_through-Holds_example :
    (c : Cut 0 5 3 (first_entry ∷ second_entry ∷ [])) × Truncated two 3 c.gone c.kept c.first_kept
truncate_through-Holds_example = truncate_through-Holds 3 two-Holds (omega arith)

entries-ne-out_of_fuel_example : entries two ≢ err out_of_fuel
entries-ne-out_of_fuel_example = entries-ne-out_of_fuel two

two-InRange : InRange two
two-InRange = record {
  next_fits = omega arith;
  epoch_fits = omega arith;
  through_fits = omega arith;
  created_fits = omega arith;
}

abbrev two_bytes : Bytes
two_bytes = covered_bytes two ++ (le_bytes 4 (checksum (covered_bytes two)) ++ le_bytes 2 4)

two-stored : manifest_bytes two ≡ ok two_bytes
unfolding manifest_bytes
two-stored = refl

parse_manifest-Holds_example :
    (m' : Manifest) × (parse_manifest two_bytes ≡ ok m')
    × Holds m' 0 (first_entry ∷ second_entry ∷ [])
    × (m'.next_sequence ≡ 5)
    × (m'.epoch ≡ 0)
    × (m'.snapshot ≡ two.snapshot)
parse_manifest-Holds_example = parse_manifest-Holds two_bytes two-Holds two-InRange two-stored

parse_manifest-whole_example : parse_manifest (whole [] [] 0 0 0 9 1 77) ≡ (
    if checksum (covered [] [] 0 0 0 9 1 77) == 77
    then ok (manifest_of [] 0 9 1 no_snapshot)
    else err corrupt)
parse_manifest-whole_example =
    parse_manifest-whole [] [] 0 0 0 9 1 77 (omega arith) (omega arith) (omega arith) (omega arith)
      (omega arith) (omega arith) (omega arith)
