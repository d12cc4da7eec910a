-- ===== src/Wal/Manifest.antt =====
-- wal/manifest.go: the manifest, its parser and serializer, and its operations. Entries and their
-- encoding are in Wal/Entry.antt.
pub mod Holds
pub mod Fuel
pub mod Append
pub mod Locate
pub mod Truncate
pub mod Parse
pub mod Reload
use objwal.Prelude.{
  ℕ, zero, suc, ◌+◌, ◌-◌, ◌/◌, ◌%◌, Bool, true, false, not, ◌||◌, List, [], ◌∷◌, ◌++◌, Option, none,
  some, length, get_elem?, leb, ltb, ◌==◌, if◌then◌else◌, filter_by, bytes_eq,
}
use objwal.Prelude.Slices.{take, drop, slice}
use objwal.Error.{
  Result, ok, err, out_of_fuel, corrupt, invalid, guard, ensure, ◌>>=◌, ◌>>◌, footer_too_short,
  footer_too_short_for_version, snapshot_too_short, snapshot_overruns, unsupported_version,
  entry_count_too_large, snapshot_location_too_long, count_too_small, count_too_large,
}
use objwal.Std.LittleEndian.{Bytes, le_bytes, uint}
use objwal.Std.Crc32.{checksum}
use objwal.Wal.Entry.{
  RecordMeta, Entry, max_u16, max_u32, u64_mod, end, contains, encode_entry, decode_entry,
}

abbrev footer_version : ℕ
footer_version = 4

abbrev core_footer_size : ℕ
core_footer_size = 4 + 8 + 8 + 2

abbrev core_footer_size_v4 : ℕ
core_footer_size_v4 = 4 + 8 + 8 + 4 + 2

abbrev snap_fixed_size : ℕ
snap_fixed_size = 2 + 8 + 8

pub record SnapshotPointer : Type 0 where
  pub location : Bytes
  pub through_seq : ℕ
  pub created_unix_ms : ℕ

abbrev pub no_snapshot : SnapshotPointer
no_snapshot = record { location = []; through_seq = 0; created_unix_ms = 0 }

unfoldable is_zero : SnapshotPointer → Bool
is_zero s = bytes_eq s.location []

pub record Manifest : Type 0 where
  pub base : Bytes
  pub base_count : ℕ
  pub appended : Bytes
  pub appended_count : ℕ
  pub next_sequence : ℕ
  pub epoch : ℕ
  pub snapshot : SnapshotPointer

abbrev pub new_manifest : Manifest
new_manifest = record {
  base = [];
  base_count = 0;
  appended = [];
  appended_count = 0;
  next_sequence = 0;
  epoch = 0;
  snapshot = no_snapshot;
}

unfoldable pub core_footer : ℕ → ℕ
core_footer version = if version == 4 then core_footer_size_v4 else core_footer_size

-- The loop of `upgradeLegacyEntries`; `region` is what follows `off`.
unfoldable pub upgrade_legacy_entries : ℕ → Bytes → Bytes → Result Bytes
upgrade_legacy_entries zero region out = ok out
upgrade_legacy_entries (suc count) region out = do
  (e, next) ← decode_entry region false
  out' ← encode_entry out e
  upgrade_legacy_entries count next out'

-- The snapshot block in front of a core footer of `core` bytes, and what stands in front of it.
unfoldable pub parse_snapshot : Bytes → ℕ → Result (SnapshotPointer × Bytes)
parse_snapshot bytes core = do
  let n = length bytes
  guard (leb (core + snap_fixed_size) n) snapshot_too_short
  let snap_end = n - core
  let created_start = snap_end - 8
  let through_start = created_start - 8
  let loc_len_start = through_start - 2
  let created = uint 8 (slice bytes created_start snap_end)
  let through = uint 8 (slice bytes through_start created_start)
  let loc_len = uint 2 (slice bytes loc_len_start through_start)
  guard (leb loc_len loc_len_start) snapshot_overruns
  let loc_start = loc_len_start - loc_len
  let location = if ltb 0 loc_len then slice bytes loc_start loc_len_start else []
  ok (
    record { location = location; through_seq = through; created_unix_ms = created },
    take loc_start bytes,
  )

unfoldable pub manifest_of : Bytes → ℕ → ℕ → ℕ → SnapshotPointer → Manifest
manifest_of base count next_seq epoch snapshot = record {
  base = base;
  base_count = count;
  appended = [];
  appended_count = 0;
  next_sequence = next_seq;
  epoch = epoch;
  snapshot = snapshot;
}

-- The digest of a v4 footer; other versions have none.
unfoldable pub digest_agrees : Bytes → ℕ → Bool
digest_agrees bytes version =
    let n = length bytes in
    if version == 4
    then checksum (take (n - 2 - 4) bytes) == uint 4 (slice bytes (n - 2 - 4) (n - 2))
    else true

-- `switch version`, with the core fields read.
unfoldable pub parse_entries : Bytes → ℕ → ℕ → ℕ → ℕ → Result Manifest
parse_entries bytes version count next_seq epoch =
    if version == 1
    then (do
      base ← upgrade_legacy_entries count (take (length bytes - core_footer_size) bytes) []
      ok (manifest_of base count next_seq epoch no_snapshot))
    else if version == 2
    then (do
      (snapshot, region) ← parse_snapshot bytes (core_footer version)
      base ← upgrade_legacy_entries count region []
      ok (manifest_of base count next_seq epoch snapshot))
    else if version == 3 || version == 4
    then (do
      (snapshot, base) ← parse_snapshot bytes (core_footer version)
      ok (manifest_of base count next_seq epoch snapshot))
    else err (invalid (unsupported_version version))

unfoldable pub parse_manifest : Bytes → Result Manifest
parse_manifest bytes = do
  let n = length bytes
  guard (leb core_footer_size n) footer_too_short
  let version = uint 2 (drop (n - 2) bytes)
  let core = core_footer version
  guard (leb core n) footer_too_short_for_version
  ensure (digest_agrees bytes version) corrupt
  let tail = if version == 4 then n - 2 - 4 else n - 2
  let epoch = uint 8 (slice bytes (tail - 8) tail)
  let next_seq = uint 8 (slice bytes (tail - 8 - 8) (tail - 8))
  let count = uint 4 (slice bytes (n - core) (n - core + 4))
  parse_entries bytes version count next_seq epoch

-- Everything that `Bytes` writes in front of the digest.
unfoldable pub covered_bytes : Manifest → Bytes
covered_bytes m =
    let loc = m.snapshot.location in
    m.base
    ++ (m.appended
        ++ (loc
            ++ (le_bytes 2 (length loc)
                ++ (le_bytes 8 m.snapshot.through_seq
                    ++ (le_bytes 8 m.snapshot.created_unix_ms
                        ++ (le_bytes 4 (m.base_count + m.appended_count)
                            ++ (le_bytes 8 m.next_sequence ++ le_bytes 8 m.epoch)))))))

unfoldable pub manifest_bytes : Manifest → Result Bytes
manifest_bytes m = do
  guard (leb (m.base_count + m.appended_count) max_u32) entry_count_too_large
  guard (leb (length m.snapshot.location) max_u16) snapshot_location_too_long
  let covered = covered_bytes m
  ok (covered ++ (le_bytes 4 (checksum covered) ++ le_bytes 2 footer_version))

-- The sequence of the first record, and the manifest that `Append` leaves.
unfoldable pub append : Manifest → Bytes → List RecordMeta → ℕ → Result (ℕ × Manifest)
append m location md count = do
  guard (leb 1 count) count_too_small
  guard (leb count max_u32) count_too_large
  let seq = m.next_sequence
  enc ←
      encode_entry m.appended
        (record { sequence = seq; count = count; location = location; metadata = md })
  ok (
    seq,
    record m {
      appended = enc;
      appended_count = m.appended_count + 1;
      next_sequence = (m.next_sequence + count) % u64_mod;
    },
  )

unfoldable set_snapshot : Manifest → SnapshotPointer → Manifest
set_snapshot m p = record m { snapshot = p }

unfoldable pub set_epoch : Manifest → ℕ → Manifest
set_epoch m e = record m { epoch = e }

unfoldable pub count : Manifest → ℕ
count m = m.base_count + m.appended_count

-- `for off < len(region)`. Each round takes four bytes or more.
unfoldable pub entries_loop : ℕ → Bytes → Result (List Entry)
entries_loop fuel [] = ok []
entries_loop zero (b ∷ bs) = err out_of_fuel
entries_loop (suc fuel) (b ∷ bs) = do
  (e, next) ← decode_entry (b ∷ bs) true
  es ← entries_loop fuel next
  ok (e ∷ es)

unfoldable pub region_entries : Bytes → Result (List Entry)
region_entries region = entries_loop (length region) region

unfoldable pub entries : Manifest → Result (List Entry)
entries m = do older ← region_entries m.base; newer ← region_entries m.appended; ok (older ++ newer)

unfoldable entries_after : Manifest → ℕ → Result (List Entry)
entries_after m after_seq = do all ← entries m; ok (filter_by (λ e. ltb after_seq e.sequence) all)

unfoldable entries_from : Manifest → ℕ → Result (List Entry)
entries_from m min_seq = do all ← entries m; ok (filter_by (λ e. leb min_seq e.sequence) all)

unfoldable pub entries_containing : Manifest → ℕ → Result (List Entry)
entries_containing m seq = do all ← entries m; ok (filter_by (λ e. ltb seq (end e)) all)

-- `all[i].End()`; the search keeps `i` below the length.
unfoldable pub end_at : List Entry → ℕ → ℕ
end_at all i = elim (get_elem? all i) [ none ↦ 0 | some e ↦ end e ]

-- `for lo < hi`, which halves the range in each round.
unfoldable pub search_loop : ℕ → List Entry → ℕ → ℕ → ℕ → ℕ
search_loop zero all seq lo hi = lo
search_loop (suc fuel) all seq lo hi =
    let mid = (lo + hi) / 2 in
    let right = search_loop fuel all seq (mid + 1) hi in
    let left = search_loop fuel all seq lo mid in
    if ltb lo hi then (if leb (end_at all mid) seq then right else left) else lo

-- What `Locate` does at the index that the search ends with.
unfoldable pub located : Option Entry → ℕ → Option (Entry × ℕ)
located none seq = none
located (some e) seq = if contains e seq then some (e, seq - e.sequence) else none

unfoldable pub locate : Manifest → ℕ → Option (Entry × ℕ)
locate m seq = elim (entries m) [
  | err _ ↦ none
  | ok all ↦ located (get_elem? all (search_loop (length all) all seq 0 (length all))) seq
]

-- `e.End()-1 <= throughSeq`, in uint64.
unfoldable pub superseded : ℕ → Entry → Bool
superseded through e = leb ((end e + u64_mod - 1) % u64_mod) through

unfoldable pub encode_entries : Bytes → List Entry → Result Bytes
encode_entries buf [] = ok buf
encode_entries buf (e ∷ es) = do buf' ← encode_entry buf e; encode_entries buf' es

unfoldable pub truncate_through : Manifest → ℕ → Result (ℕ × Manifest)
truncate_through m through = do
  all ← entries m
  let kept = filter_by (λ e. not (superseded through e)) all
  let removed = length (filter_by (superseded through) all)
  let rewrite = (do
    buf ← encode_entries [] kept
    ok (
      removed,
      record m { base = buf; base_count = length kept; appended = []; appended_count = 0 },
    ))
  if removed == 0 then ok (0, m) else rewrite

-- A Go map from locations, the latest insertion in front.
abbrev pub LocationMap : Type 0
LocationMap = List (Bytes × Entry)

unfoldable pub insert_all : List Entry → LocationMap → LocationMap
insert_all [] out = out
insert_all (e ∷ es) out = insert_all es ((e.location, e) ∷ out)

unfoldable pub lookup_location : Bytes → LocationMap → Option Entry
lookup_location k [] = none
lookup_location k ((j, e) ∷ out) = if bytes_eq j k then some e else lookup_location k out

unfoldable pub tail_locations : Manifest → ℕ → Result LocationMap
tail_locations m limit =
    if limit == 0
    then ok []
    else (do all ← entries m; ok (insert_all (drop (length all - limit) all) []))
