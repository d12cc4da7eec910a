-- ===== src/Wal/Segment.antt =====
-- wal/segment.go: the segment wire format. The zstd codec is a parameter.
pub mod RoundTrip
use objwal.Prelude.{
  ℕ, zero, suc, ◌-◌, ◌^◌, ◌≡◌, Bool, ◌||◌, List, [], ◌∷◌, ◌++◌, length, leb, ◌==◌, if◌then◌else◌,
}
use objwal.Prelude.Slices.{take, drop, slice}
use objwal.Error.{
  Result, ok, err, corrupt, invalid, guard, ensure, ◌>>=◌, ◌>>◌, segment_too_small,
  segment_too_small_v2, truncated_record_length, truncated_record, record_too_large,
  record_count_too_large, zstd_decode, wrapped, unsupported_segment_version,
  unsupported_compression,
}
use objwal.Std.LittleEndian.{Bytes, le_bytes, uint}
use objwal.Std.Crc32.{checksum}

-- github.com/klauspost/compress/zstd: `EncodeAll` cannot fail, `DecodeAll` can, and it reads back
-- what `EncodeAll` wrote.
pub record Zstd : Type 0 where
  pub encode_all : Bytes → Bytes
  pub decode_all : Bytes → Result Bytes
  pub decode_all-encode_all : (block : Bytes) → decode_all (encode_all block) ≡ ok block

abbrev pub Compression : Type 0
Compression = ℕ

abbrev pub compression_none : Compression
compression_none = 0

abbrev pub compression_zstd : Compression
compression_zstd = 1

abbrev segment_format_version : ℕ
segment_format_version = 2

abbrev segment_legacy_version : ℕ
segment_legacy_version = 1

abbrev pub max_u32 : ℕ
max_u32 = 2 ^ 32 - 1

-- Every record's length fits its length prefix.
unfoldable pub check_sizes : List Bytes → Result (Unit {0})
check_sizes [] = ok tt
check_sizes (r ∷ rs) = do guard (leb (length r) max_u32) record_too_large; check_sizes rs

-- The record block: each record behind its length.
unfoldable pub frame : List Bytes → Bytes
frame [] = []
frame (r ∷ rs) = le_bytes 4 (length r) ++ (r ++ frame rs)

-- `for i < count`, reading the block from the front; `body` is what follows `off`.
unfoldable pub unframe : ℕ → Bytes → Result (List Bytes)
unframe zero body = ok []
unframe (suc count) body = do
  guard (leb 4 (length body)) truncated_record_length
  let r = uint 4 body
  let after = drop 4 body
  guard (leb r (length after)) truncated_record
  records ← unframe count (drop r after)
  ok (take r after ∷ records)

module _ (zstd : Zstd) where
  unfoldable pub encode_segment : List Bytes → Compression → Bool → Result Bytes
  unfolding check_sizes frame
  encode_segment records comp legacy = do
    guard (leb (length records) max_u32) record_count_too_large
    check_sizes records
    let block = if comp == compression_zstd then zstd.encode_all (frame records) else frame records
    let out = block ++ (comp ∷ le_bytes 4 (length records))
    let sealed = out ++ (le_bytes 4 (checksum out) ++ le_bytes 2 segment_format_version)
    ok (if legacy then out ++ le_bytes 2 segment_legacy_version else sealed)

  -- The tail of `decodeSegment`, once the footer has been read.
  unfoldable pub decode_body : Bytes → Compression → ℕ → Result (List Bytes)
  unfolding unframe
  decode_body body comp count = do
    guard (comp == compression_none || comp == compression_zstd) (unsupported_compression comp)
    block ← if comp == compression_zstd then wrapped zstd_decode (zstd.decode_all body) else ok body
    unframe count block

  -- `case segmentFormatVersion`: the checksum is verified before anything else is read.
  unfoldable pub decode_checked : Bytes → Result (List Bytes)
  unfolding decode_body
  decode_checked bytes = do
    let n = length bytes
    guard (leb 11 n) segment_too_small_v2
    let footer = drop (n - 11) bytes
    let want = uint 4 (slice footer 5 9)
    let covered = take (n - 6) bytes
    ensure (checksum covered == want) corrupt
    decode_body (take (n - 11) bytes) (uint 1 footer) (uint 4 (slice footer 1 5))

  -- `case segmentLegacyVersion`
  unfoldable pub decode_legacy : Bytes → Result (List Bytes)
  unfolding decode_body
  decode_legacy bytes =
      let n = length bytes in
      let footer = drop (n - 7) bytes in
      decode_body (take (n - 7) bytes) (uint 1 footer) (uint 4 (slice footer 1 5))

  unfoldable pub decode_segment : Bytes → Result (List Bytes)
  unfolding decode_checked decode_legacy
  decode_segment bytes = do
    guard (leb 7 (length bytes)) segment_too_small
    let version = uint 2 (drop (length bytes - 2) bytes)
    if version == segment_format_version
        then decode_checked bytes
        else if version == segment_legacy_version
        then decode_legacy bytes
        else err (invalid (unsupported_segment_version version))
