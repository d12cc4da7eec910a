-- ===== src/Wal/Manifest/Reload.antt =====
-- A manifest that is written and read again holds the same log.
use objwal.Prelude.{
  ℕ, ◌+◌, ◌≤◌, ◌<◌, ◌^◌, ◌≡◌, refl, sym, ◌∙◌, List, [], ◌++◌, append_assoc, append-nil, length,
  length-append, leb, leb→le, ==_refl, arith,
}
use objwal.Error.{ok, guard, guard-ok, >>=-eq-ok, entry_count_too_large, snapshot_location_too_long}
use objwal.Std.LittleEndian.{Bytes, le_bytes}
use objwal.Std.Crc32.{checksum, checksum-lt}
use objwal.Wal.Entry.{Entry, max_u16, max_u32}
use objwal.Wal.Manifest.{Manifest, manifest_of, parse_manifest, covered_bytes, manifest_bytes}
use objwal.Wal.Manifest.Holds.{Holds, Encodes-append, Encodes-empty}
use objwal.Wal.Manifest.Parse.{covered, parse_manifest-whole}

-- The values that the Go types hold.
pub record InRange (m : Manifest) : Type 0 where
  pub next_fits : m.next_sequence < 2 ^ 64
  pub epoch_fits : m.epoch < 2 ^ 64
  pub through_fits : m.snapshot.through_seq < 2 ^ 64
  pub created_fits : m.snapshot.created_unix_ms < 2 ^ 64

-- What a reader has of a manifest: one region, with nothing appended.
abbrev pub reloaded : Manifest → Manifest
reloaded m =
    manifest_of (m.base ++ m.appended) (m.base_count + m.appended_count) m.next_sequence m.epoch
      m.snapshot

manifest_bytes-ok :
    (m : Manifest) (bytes : Bytes)
    → manifest_bytes m ≡ ok bytes
    → (m.base_count + m.appended_count ≤ max_u32)
      × (length m.snapshot.location ≤ max_u16)
      × (bytes ≡ covered_bytes m ++ (le_bytes 4 (checksum (covered_bytes m)) ++ le_bytes 2 4))
unfolding manifest_bytes
manifest_bytes-ok m bytes h =
    let (_, few, h₁) =
      >>=-eq-ok (guard (leb (m.base_count + m.appended_count) max_u32) entry_count_too_large) _ h in
    let (_, short, h₂) =
      >>=-eq-ok (guard (leb (length m.snapshot.location) max_u16) snapshot_location_too_long) _
        h₁ in
    (leb→le _ _ (guard-ok _ _ few), leb→le _ _ (guard-ok _ _ short), cc (h₂))

abbrev covered_of : Manifest → Bytes
covered_of m =
    covered (m.base ++ m.appended) m.snapshot.location m.snapshot.through_seq
      m.snapshot.created_unix_ms (m.base_count + m.appended_count) m.next_sequence m.epoch 0

covered_bytes_lem : (m : Manifest) → covered_bytes m ≡ covered_of m
unfolding covered_bytes
covered_bytes_lem m = sym (append_assoc m.base m.appended _)

-- `ParseManifest` reads back whatever `Bytes` writes.
pub parse_manifest-manifest_bytes :
    (m : Manifest) (bytes : Bytes)
    → InRange m
    → manifest_bytes m ≡ ok bytes
    → parse_manifest bytes ≡ ok (reloaded m)
parse_manifest-manifest_bytes m bytes r h =
    let (few, short, shape) = manifest_bytes-ok m bytes h in
    let s = m.snapshot in
    rw (shape, covered_bytes_lem m)
      (parse_manifest-whole (m.base ++ m.appended) s.location s.through_seq s.created_unix_ms
          (m.base_count + m.appended_count) m.next_sequence m.epoch (checksum (covered_of m))
          (omega arith) r.through_fits r.created_fits (omega arith) r.next_fits r.epoch_fits
          (checksum-lt (covered_of m))
        ∙ rw (==_refl (checksum (covered_of m))))

-- The reader's manifest holds the log that the writer's held.
pub reloaded-Holds :
    {m : Manifest} {first : ℕ} {es : List Entry} → Holds m first es → Holds (reloaded m) first es
unfolding manifest_of
reloaded-Holds h = record {
  older = h.older ++ h.newer;
  newer = [];
  split = h.split ∙ sym (append-nil (h.older ++ h.newer));
  base_holds = Encodes-append h.base_holds h.appended_holds;
  appended_holds = Encodes-empty;
  base_counted = omega (arith, h.base_counted, h.appended_counted, length-append h.older h.newer);
  appended_counted = refl;
  tiled = h.tiled;
  next_fits = h.next_fits;
}

-- What a writer stores, a reader loads: if a manifest holds a log, its numbers fit 64 bits and
-- `Bytes` succeeds, parsing the bytes gives a manifest that holds the same log, with the same next
-- sequence, epoch and snapshot.
pub parse_manifest-Holds :
    {m : Manifest} {first : ℕ} {es : List Entry} (bytes : Bytes)
    → Holds m first es
    → InRange m
    → manifest_bytes m ≡ ok bytes
    → (m' : Manifest) × (parse_manifest bytes ≡ ok m')
      × Holds m' first es
      × (m'.next_sequence ≡ m.next_sequence)
      × (m'.epoch ≡ m.epoch)
      × (m'.snapshot ≡ m.snapshot)
unfolding manifest_of
parse_manifest-Holds {m} bytes h r b =
    (reloaded m, parse_manifest-manifest_bytes m bytes r b, reloaded-Holds h, refl, refl, refl)
