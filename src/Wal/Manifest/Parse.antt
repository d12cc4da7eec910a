-- ===== src/Wal/Manifest/Parse.antt =====
-- `ParseManifest` reads back what `Bytes` wrote.
use objwal.Prelude.{
  ℕ, suc, ◌+◌, ◌-◌, ◌<◌, ◌^◌, ◌≡◌, refl, [], ◌∷◌, ◌++◌, append_assoc, length, length-append, ltb,
  le→leb, lt→ltb, arith, if◌then◌else◌, ◌==◌,
}
use objwal.Prelude.Slices.{take, drop, slice, take-append, slice-append_back}
use objwal.Error.{ok, err, corrupt, ensure-bind}
use objwal.Std.LittleEndian.{
  Bytes, le_bytes, uint, length-le_bytes, uint-drop_last, uint-slice_back,
}
use objwal.Std.Crc32.{checksum}
use objwal.Wal.Manifest.{
  SnapshotPointer, manifest_of, parse_manifest, parse_entries, parse_snapshot, digest_agrees,
  core_footer,
}

nil_or_not : (l : Bytes) → (if ltb 0 (length l) then l else []) ≡ l
nil_or_not [] = refl
nil_or_not (b ∷ l) = rw (lt→ltb 0 (suc (length l)) (omega arith))

sub_sub : (n m k : ℕ) → n - m - k ≡ n - (m + k)
sub_sub n m k = omega arith

-- A v4 object by its parts: the entries, the snapshot's location, and the footer's words.
module _ (base loc : Bytes) (through created total next_seq epoch crc : ℕ) where
  abbrev pub len_word : Bytes
  len_word = le_bytes 2 (length loc)

  abbrev pub through_word : Bytes
  through_word = le_bytes 8 through

  abbrev pub created_word : Bytes
  created_word = le_bytes 8 created

  abbrev pub total_word : Bytes
  total_word = le_bytes 4 total

  abbrev pub next_word : Bytes
  next_word = le_bytes 8 next_seq

  abbrev pub epoch_word : Bytes
  epoch_word = le_bytes 8 epoch

  abbrev pub crc_word : Bytes
  crc_word = le_bytes 4 crc

  abbrev pub version_word : Bytes
  version_word = le_bytes 2 4

  abbrev pub covered : Bytes
  covered =
      base
      ++ (loc
          ++ (len_word
              ++ (through_word ++ (created_word ++ (total_word ++ (next_word ++ epoch_word))))))

  abbrev pub whole : Bytes
  whole = covered ++ (crc_word ++ version_word)

  length-whole : length whole ≡ length base + length loc + 44
  length-whole = simp (length-append, length-le_bytes) (omega arith)

  -- Each word of the footer, read at its place from the end.
  module _ (loc_fits : length loc < 2 ^ 16) (through_fits : through < 2 ^ 64)
      (created_fits : created < 2 ^ 64) (total_fits : total < 2 ^ 32)
      (next_fits : next_seq < 2 ^ 64) (epoch_fits : epoch < 2 ^ 64) (crc_fits : crc < 2 ^ 32) where
    read_len : uint 2 (slice whole (length whole - 44) (length whole - 42)) ≡ length loc
    read_len =
        uint-slice_back 2 (length loc) whole (base ++ loc)
          (through_word
            ++ (created_word
                ++ (total_word ++ (next_word ++ (epoch_word ++ (crc_word ++ (version_word)))))))
          (length whole - 44) (length whole - 42) loc_fits (simp append_assoc)
          (simp (length-append, length-le_bytes) (omega arith))
          (simp (length-append, length-le_bytes) (omega arith))

    read_through : uint 8 (slice whole (length whole - 42) (length whole - 34)) ≡ through
    read_through =
        uint-slice_back 8 through whole (base ++ (loc ++ len_word))
          (created_word
            ++ (total_word ++ (next_word ++ (epoch_word ++ (crc_word ++ (version_word))))))
          (length whole - 42) (length whole - 34) through_fits (simp append_assoc)
          (simp (length-append, length-le_bytes) (omega arith))
          (simp (length-append, length-le_bytes) (omega arith))

    read_created : uint 8 (slice whole (length whole - 34) (length whole - 26)) ≡ created
    read_created =
        uint-slice_back 8 created whole (base ++ (loc ++ (len_word ++ through_word)))
          (total_word ++ (next_word ++ (epoch_word ++ (crc_word ++ (version_word)))))
          (length whole - 34) (length whole - 26) created_fits (simp append_assoc)
          (simp (length-append, length-le_bytes) (omega arith))
          (simp (length-append, length-le_bytes) (omega arith))

    read_total : uint 4 (slice whole (length whole - 26) (length whole - 22)) ≡ total
    read_total =
        uint-slice_back 4 total whole
          (base ++ (loc ++ (len_word ++ (through_word ++ created_word))))
          (next_word ++ (epoch_word ++ (crc_word ++ (version_word)))) (length whole - 26)
          (length whole - 22) total_fits (simp append_assoc)
          (simp (length-append, length-le_bytes) (omega arith))
          (simp (length-append, length-le_bytes) (omega arith))

    read_next : uint 8 (slice whole (length whole - 22) (length whole - 14)) ≡ next_seq
    read_next =
        uint-slice_back 8 next_seq whole
          (base ++ (loc ++ (len_word ++ (through_word ++ (created_word ++ total_word)))))
          (epoch_word ++ (crc_word ++ (version_word))) (length whole - 22) (length whole - 14)
          next_fits (simp append_assoc) (simp (length-append, length-le_bytes) (omega arith))
          (simp (length-append, length-le_bytes) (omega arith))

    read_epoch : uint 8 (slice whole (length whole - 14) (length whole - 6)) ≡ epoch
    read_epoch =
        uint-slice_back 8 epoch whole
          (base
            ++ (loc ++ (len_word ++ (through_word ++ (created_word ++ (total_word ++ next_word))))))
          (crc_word ++ (version_word)) (length whole - 14) (length whole - 6) epoch_fits
          (simp append_assoc) (simp (length-append, length-le_bytes) (omega arith))
          (simp (length-append, length-le_bytes) (omega arith))

    read_crc : uint 4 (slice whole (length whole - 6) (length whole - 2)) ≡ crc
    read_crc =
        uint-slice_back 4 crc whole (covered) (version_word) (length whole - 6) (length whole - 2)
          crc_fits (simp append_assoc) (simp (length-append, length-le_bytes) (omega arith))
          (simp (length-append, length-le_bytes) (omega arith))

    read_version : uint 2 (drop (length whole - 2) whole) ≡ 4
    read_version =
        rw (← append_assoc covered crc_word version_word)
          (uint-drop_last 2 4 _ (covered ++ crc_word) (omega arith) refl)

    take-covered : take (length whole - 6) whole ≡ covered
    take-covered =
        take-append (length whole - 6) covered (crc_word ++ version_word)
          (simp (length-append, length-le_bytes) (omega arith))

    read_location : slice whole (length whole - (44 + length loc)) (length whole - 44) ≡ loc
    read_location =
        slice-append_back whole base loc
          (len_word
            ++ (through_word
                ++ (created_word
                    ++ (total_word ++ (next_word ++ (epoch_word ++ (crc_word ++ version_word)))))))
          (length whole - (44 + length loc)) (length whole - 44) (simp append_assoc)
          (simp (length-append, length-le_bytes) (omega arith))
          (simp (length-append, length-le_bytes) (omega arith))

    take_base : take (length whole - (44 + length loc)) whole ≡ base
    take_base =
        rw
          (append_assoc base
            (loc
              ++ (len_word
                  ++ (through_word ++ (created_word ++ (total_word ++ (next_word ++ epoch_word))))))
            (crc_word ++ version_word))
          (take-append _ base _ (simp (length-append, length-le_bytes) (omega arith)))

    abbrev snapshot : SnapshotPointer
    snapshot = record { location = loc; through_seq = through; created_unix_ms = created }

    location_read :
        (if ltb 0 (length loc)
          then slice whole (length whole - (44 + length loc)) (length whole - 44)
          else [])
        ≡ loc
    location_read = rw read_location (nil_or_not loc)

    parse_snapshot-whole : parse_snapshot whole 26 ≡ ok (snapshot, base)
    unfolding parse_snapshot
    parse_snapshot-whole = simp sub_sub (
        rw
          (
            le→leb 44 (length whole) (omega (arith, length-whole)),
            read_len,
            read_through,
            read_created,
            le→leb (length loc) (length whole - 44) (omega (arith, length-whole)),
          )
          (rw (location_read, take_base)))

    parse_entries-whole :
        parse_entries whole 4 total next_seq epoch
        ≡ ok (manifest_of base total next_seq epoch snapshot)
    unfolding parse_entries core_footer
    parse_entries-whole = rw parse_snapshot-whole

    digest_agrees-whole : digest_agrees whole 4 ≡ (checksum covered == crc)
    unfolding digest_agrees
    digest_agrees-whole = simp sub_sub (rw (take-covered, read_crc))

    count_place : length whole - 26 + 4 ≡ length whole - 22
    count_place = omega (arith, length-whole)

    -- An object of the version 4 format, of parts that fit their fields and with any digest in its
    -- place, is read with these parts if the digest is the checksum of what it covers, and is
    -- refused as corrupt otherwise.
    pub parse_manifest-whole : parse_manifest whole ≡ (
        if checksum covered == crc
        then ok (manifest_of base total next_seq epoch snapshot)
        else err corrupt)
    unfolding parse_manifest core_footer
    parse_manifest-whole =
        rw
          (
            le→leb 22 (length whole) (omega (arith, length-whole)),
            read_version,
            le→leb 26 (length whole) (omega (arith, length-whole)),
            digest_agrees-whole,
            count_place,
          )
          (simp sub_sub (
            rw (read_epoch, read_next, read_total, parse_entries-whole)
              (ensure-bind (checksum covered == crc) corrupt
                (ok (manifest_of base total next_seq epoch snapshot)))))
