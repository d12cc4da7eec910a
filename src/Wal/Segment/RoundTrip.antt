-- ===== src/Wal/Segment/RoundTrip.antt =====
-- `decodeSegment` reads back what `encodeSegment` wrote.
use objwal.Prelude.{
  ℕ, zero, suc, ◌+◌, ◌-◌, ◌≤◌, ◌<◌, ◌^◌, ◌≡◌, refl, ap, ◌∙◌, Bool, true, false, List, [], ◌∷◌, ◌++◌,
  append_assoc, length, length-append, All, ◌==◌, le→leb, ==_refl, arith, if◌then◌else◌,
}
use objwal.Prelude.Slices.{take, drop, slice, take-append, drop-append, slice-append}
use objwal.Error.{ok, err, corrupt, ensure-bind}
use objwal.Std.LittleEndian.{
  Bytes, le_bytes, uint, length-le_bytes, uint-le_bytes, uint-le_bytes_all, drop-le_bytes,
  uint-drop_last,
}
use objwal.Std.Crc32.{checksum, checksum-lt}
use objwal.Wal.Segment.{
  Zstd, Compression, check_sizes, frame, unframe, max_u32, encode_segment, decode_body,
  decode_checked, decode_legacy, decode_segment,
}

-- The loop of `decodeSegment` undoes the loop of `encodeSegment`.
unframe-frame :
    (records : List Bytes)
    → check_sizes records ≡ ok tt
    → unframe (length records) (frame records) ≡ ok records
unfolding check_sizes frame unframe
unframe-frame [] h = refl
unframe-frame (r ∷ rs) h = ground (
  arith,
  uint-le_bytes 4 (length r) (r ++ frame rs),
  drop-le_bytes 4 (length r) (r ++ frame rs),
  length-append (le_bytes 4 (length r)) (r ++ frame rs),
  length-append r (frame rs),
  length-le_bytes 4 (length r),
  take-append (length r) r (frame rs) refl,
  drop-append (length r) r (frame rs) refl,
  unframe-frame rs,
)

uint-one : (c : ℕ) (rest : Bytes) → uint 1 (c ∷ rest) ≡ c
unfolding uint take
uint-one c rest = omega arith

module _ (zstd : Zstd) (block : Bytes) (comp count : ℕ) (fits : count < 2 ^ 32) where
  abbrev fields : Bytes
  fields = comp ∷ le_bytes 4 count

  length-fields : length fields ≡ 5
  length-fields = ap suc (length-le_bytes 4 count)

  -- The footer of `k` more bytes behind the block and its fields.
  module _ (tail : Bytes) (k : ℕ) (tail_length : length tail ≡ k) where
    abbrev bytes : Bytes
    bytes = (block ++ fields) ++ tail

    bytes_assoc : bytes ≡ block ++ (fields ++ tail)
    bytes_assoc = append_assoc block fields tail

    length-bytes : length bytes ≡ length block + 5 + k
    length-bytes =
        omega
          (arith, length-append (block ++ fields) tail, length-append block fields, length-fields)

    drop_block : drop (length bytes - (5 + k)) bytes ≡ fields ++ tail
    drop_block =
        ap (drop (length bytes - (5 + k))) bytes_assoc
        ∙ drop-append _ block (fields ++ tail) (omega (arith, length-bytes))

    take_block : take (length bytes - (5 + k)) bytes ≡ block
    take_block =
        ap (take (length bytes - (5 + k))) bytes_assoc
        ∙ take-append _ block (fields ++ tail) (omega (arith, length-bytes))

    read_count : uint 4 (slice (fields ++ tail) 1 5) ≡ count
    read_count =
        ap (uint 4) (
          slice-append (fields ++ tail) (comp ∷ []) (le_bytes 4 count) tail 1 5 refl refl
            (omega (arith, length-le_bytes 4 count)))
        ∙ uint-le_bytes_all 4 count fits

  decode_legacy-sealed :
      decode_legacy zstd ((block ++ fields) ++ le_bytes 2 1) ≡ decode_body zstd block comp count
  unfolding decode_legacy
  decode_legacy-sealed = rw (
    drop_block (le_bytes 2 1) 2 (length-le_bytes 2 1),
    take_block (le_bytes 2 1) 2 (length-le_bytes 2 1),
    read_count (le_bytes 2 1) 2 (length-le_bytes 2 1),
    uint-one,
  )

  module _ (crc : ℕ) (crc_fits : crc < 2 ^ 32) where
    abbrev footer : Bytes
    footer = le_bytes 4 crc ++ le_bytes 2 2

    length-footer : length footer ≡ 6
    length-footer = omega (
      arith,
      length-append (le_bytes 4 crc) (le_bytes 2 2),
      length-le_bytes 4 crc,
      length-le_bytes 2 2,
    )

    read_crc : uint 4 (slice (fields ++ footer) 5 9) ≡ crc
    read_crc =
        ap (uint 4) (
          slice-append (fields ++ footer) fields (le_bytes 4 crc) (le_bytes 2 2) 5 9 refl
            length-fields (omega (arith, length-le_bytes 4 crc)))
        ∙ uint-le_bytes_all 4 crc crc_fits

    take-covered :
        take (length ((block ++ fields) ++ footer) - 6) ((block ++ fields) ++ footer)
        ≡ block ++ fields
    take-covered =
        take-append _ (block ++ fields) footer
          (omega (arith, length-append (block ++ fields) footer, length-footer))

    -- Whatever the stored checksum, it is what decides.
    pub decode_checked-sealed : decode_checked zstd ((block ++ fields) ++ footer) ≡ (
        if checksum (block ++ fields) == crc
        then decode_body zstd block comp count
        else err corrupt)
    unfolding decode_checked
    decode_checked-sealed =
        rw
          (
            le→leb 11 (length (bytes footer 6 length-footer))
                (omega (arith, length-bytes footer 6 length-footer)),
            drop_block footer 6 length-footer,
            take_block footer 6 length-footer,
            take-covered,
            read_crc,
            read_count footer 6 length-footer,
            uint-one,
          )
          (ensure-bind (checksum (block ++ fields) == crc) corrupt
            (decode_body zstd block comp count))

  decode_segment-legacy :
      decode_segment zstd ((block ++ fields) ++ le_bytes 2 1) ≡ decode_body zstd block comp count
  unfolding decode_segment
  decode_segment-legacy =
      rw
        (
          le→leb 7 (length (bytes (le_bytes 2 1) 2 (length-le_bytes 2 1)))
              (omega (arith, length-bytes (le_bytes 2 1) 2 (length-le_bytes 2 1))),
          uint-drop_last 2 1 _ (block ++ fields) (omega arith) refl,
        )
        decode_legacy-sealed

  -- The footer's last word is the version, wherever the rest is cut.
  decode_segment-checked :
      (crc : ℕ) (crc_fits : crc < 2 ^ 32)
      → decode_segment zstd ((block ++ fields) ++ (le_bytes 4 crc ++ le_bytes 2 2)) ≡ (
          if checksum (block ++ fields) == crc
          then decode_body zstd block comp count
          else err corrupt)
  unfolding decode_segment
  decode_segment-checked crc crc_fits =
      rw
        (
          le→leb 7 (length (bytes (footer crc crc_fits) 6 (length-footer crc crc_fits)))
              (omega (arith, length-bytes (footer crc crc_fits) 6 (length-footer crc crc_fits))),
          version,
        )
        (decode_checked-sealed crc crc_fits)
    where
      whole : List ℕ
      whole = (block ++ fields) ++ (le_bytes 4 crc ++ le_bytes 2 2)

      version : uint 2 (drop (length whole - 2) whole) ≡ 2
      version =
          rw (← append_assoc (block ++ fields) (le_bytes 4 crc) (le_bytes 2 2))
            (uint-drop_last 2 2 _ ((block ++ fields) ++ le_bytes 4 crc) (omega arith) refl)

-- A record block decodes to the records that it holds, under either codec.
decode_body-frame :
    (zstd : Zstd) (records : List Bytes) (comp : Compression)
    → check_sizes records ≡ ok tt
    → comp ≤ 1
    → decode_body zstd
        (if comp == 1 then zstd.encode_all (frame records) else frame records)
        comp
        (length records)
      ≡ ok records
unfolding decode_body
decode_body-frame zstd records zero sizes small = unframe-frame records sizes
decode_body-frame zstd records (suc zero) sizes small =
    rw (zstd.decode_all-encode_all (frame records)) (unframe-frame records sizes)
decode_body-frame zstd records (suc (suc c)) sizes small = absurd (omega arith)

check_sizes-ok :
    (records : List Bytes) → All (λ r. length r ≤ max_u32) records → check_sizes records ≡ ok tt
unfolding check_sizes
check_sizes-ok [] h = refl
check_sizes-ok (r ∷ rs) (h, hs) = rw (le→leb (length r) max_u32 h) (check_sizes-ok rs hs)

-- Records whose number and lengths fit 32 bits are encoded, under either codec and in either
-- format, and `decodeSegment` gives them back.
pub decode_segment-encode_segment :
    (zstd : Zstd) (records : List Bytes) (comp : Compression) (legacy : Bool)
    → length records ≤ max_u32
    → All (λ r. length r ≤ max_u32) records
    → comp ≤ 1
    → (bytes : Bytes) × (encode_segment zstd records comp legacy ≡ ok bytes)
      × (decode_segment zstd bytes ≡ ok records)
unfolding encode_segment
decode_segment-encode_segment zstd records comp true few short small =
    let block = if comp == 1 then zstd.encode_all (frame records) else frame records in
    let sizes = check_sizes-ok records short in
    (
      (block ++ (comp ∷ le_bytes 4 (length records))) ++ le_bytes 2 1,
      rw (le→leb (length records) max_u32 few, sizes) refl,
      decode_segment-legacy zstd block comp (length records) (omega arith)
          ∙ decode_body-frame zstd records comp sizes small,
    )
decode_segment-encode_segment zstd records comp false few short small =
    let block = if comp == 1 then zstd.encode_all (frame records) else frame records in
    let sizes = check_sizes-ok records short in
    let out = block ++ (comp ∷ le_bytes 4 (length records)) in
    (
      out ++ (le_bytes 4 (checksum out) ++ le_bytes 2 2),
      rw (le→leb (length records) max_u32 few, sizes) refl,
      decode_segment-checked zstd block comp (length records) (omega arith) (checksum out)
            (checksum-lt out)
          ∙ rw (==_refl (checksum out)) (decode_body-frame zstd records comp sizes small),
    )
