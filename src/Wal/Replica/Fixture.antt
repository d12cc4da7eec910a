-- ===== src/Wal/Replica/Fixture.antt =====
-- A store of one manifest and one segment, for tests.
use objwal.Prelude.{
  ◌≡◌, refl, sym, ap, subst, ◌∙◌, true, List, [], ◌∷◌, ◌++◌, some, length, bytes_eq, if◌then◌else◌,
  arith,
}
use objwal.Error.{Result, ok, err, not_found}
use objwal.Std.LittleEndian.{Bytes, le_bytes, uint}
use objwal.Prelude.Slices.{take, drop, slice}
use objwal.Std.Crc32.{checksum}
use objwal.ObjectStore.{ObjectStore, GetResult}
use objwal.Wal.Entry.{Entry, encode_body, encode_metas, range_size}
use objwal.Wal.Entry.Encoding.{Fits}
use objwal.Wal.Segment.{Zstd, frame, decode_segment}
use objwal.Wal.Manifest.{Manifest, new_manifest, manifest_bytes, covered_bytes}
use objwal.Wal.Manifest.Holds.{new_manifest-Holds, Holds}
use objwal.Wal.Manifest.Append.{entry_of, appended_to, appended_to-Holds}
use objwal.Wal.Manifest.Reload.{InRange, reloaded, reloaded-Holds, parse_manifest-manifest_bytes}
use objwal.Wal.Replica.{Record, record_of}
use objwal.Wal.Replica.Tailing.{Genuine}
use objwal.Wal.Store.{Loaded, loaded}

abbrev pub plain : Zstd
plain = record { encode_all = λ b. b; decode_all = λ b. ok b; decode_all-encode_all = λ b. refl }

-- A segment of the first version, of two records.
abbrev pub segment : Bytes
segment = frame ((7 ∷ []) ∷ (8 ∷ []) ∷ []) ++ (0 ∷ le_bytes 4 2) ++ le_bytes 2 1

abbrev segment_path : Bytes
segment_path = 115 ∷ []

abbrev pub manifest_path : Bytes
manifest_path = 109 ∷ []

abbrev pub entry : Entry
entry = entry_of 0 2 segment_path []

abbrev pub manifest : Manifest
manifest = appended_to new_manifest segment_path [] 2

entry-Fits : Fits entry
unfolding encode_body encode_metas le_bytes
entry-Fits = record { payloads = tt; location_fits = omega arith; body_fits = omega arith }

manifest-Holds : Holds manifest 0 (entry ∷ [])
manifest-Holds =
    appended_to-Holds new_manifest segment_path [] 2 new_manifest-Holds tt (omega arith)
      (omega arith) entry-Fits (omega arith)

manifest-InRange : InRange manifest
manifest-InRange = record {
  next_fits = omega arith;
  epoch_fits = omega arith;
  through_fits = omega arith;
  created_fits = omega arith;
}

abbrev manifest_contents : Bytes
manifest_contents =
    covered_bytes manifest ++ (le_bytes 4 (checksum (covered_bytes manifest)) ++ le_bytes 2 4)

manifest_stored : manifest_bytes manifest ≡ ok manifest_contents
unfolding manifest_bytes
manifest_stored = refl

-- What the store answers for a path.
abbrev object_at : Bytes → Result GetResult
object_at path = ok (record {
  contents = if bytes_eq path manifest_path then manifest_contents else segment;
  meta = record { location = path; last_modified = 0; size = 0; etag = []; version = [] };
})

abbrev pub one_log : {W : Type 0} → ObjectStore W
one_log = record {
  get = λ path w. (object_at path, w);
  put = λ path b w. (err not_found, w);
  put_opts = λ path b opts w. (err not_found, w);
  list = λ prefix w. (ok [], w);
  delete = λ path w. (err not_found, w);
}

abbrev pub manifest_loaded : Loaded
manifest_loaded = record {
  manifest = reloaded manifest;
  version = some (record { etag = []; version = [] });
  exists = true;
}

pub loaded-object_at : loaded (object_at manifest_path) ≡ ok manifest_loaded
unfolding loaded bytes_eq
loaded-object_at =
    rw
      (
        parse_manifest-manifest_bytes manifest manifest_contents manifest-InRange manifest_stored,
        loaded,
      )
      refl

pub loaded-Holds :
    (l : Loaded) → loaded (object_at manifest_path) ≡ ok l → Holds l.manifest 0 (entry ∷ [])
loaded-Holds l h =
    let same : ok manifest_loaded ≡ ok l = sym loaded-object_at ∙ h in
    let e : manifest_loaded ≡ l = cc same in
    subst (λ x. Holds x.manifest 0 (entry ∷ [])) e (reloaded-Holds manifest-Holds)

segment_records : decode_segment plain segment ≡ ok ((7 ∷ []) ∷ (8 ∷ []) ∷ [])
unfolding decode_segment frame le_bytes uint take drop slice
segment_records = refl

abbrev contents_in : Result GetResult → Bytes
contents_in (ok res) = res.contents
contents_in (err e) = []

pub object_at_sized :
    (G : Record → Type 0) (res : GetResult) (records : List Bytes)
    → G (record_of entry 0 (7 ∷ []))
    → G (record_of entry 1 (8 ∷ []))
    → object_at segment_path ≡ ok res
    → decode_segment plain res.contents ≡ ok records
    → (length records ≡ range_size entry) × Genuine G entry 0 records
unfolding range_size bytes_eq
object_at_sized G res records seven eight h k =
    let same : segment ≡ res.contents = ap contents_in h in
    let decoded : ok ((7 ∷ []) ∷ (8 ∷ []) ∷ []) ≡ ok records =
      sym segment_records ∙ ap (decode_segment plain) same ∙ k in
    let e : (7 ∷ []) ∷ (8 ∷ []) ∷ [] ≡ records = cc decoded in
    subst (λ l. (length l ≡ range_size entry) × Genuine G entry 0 l) e (refl, (seven, (eight, tt)))
