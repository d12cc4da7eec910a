-- ===== src/Wal/Entry.antt =====
-- wal/manifest.go, lines 82 to 116 and 439 to 533: manifest entries and their encoding. A slice
-- `data[off:]` stands for the pair of `data` and `off`; a location is the bytes of the string; an
-- int64 is its bit pattern.
pub mod Encoding
pub mod RoundTrip
use objwal.Prelude.{
  ℕ, zero, suc, ◌+◌, ◌-◌, ◌^◌, ◌%◌, ◌<◌, Bool, ◌&&◌, List, [], ◌∷◌, ◌++◌, length, All, leb, ltb,
  ◌==◌, if◌then◌else◌,
}
use objwal.Prelude.Slices.{take, drop}
use objwal.Error.{
  Result, ok, guard, ◌>>=◌, ◌>>◌, truncated_body_length, body_overruns, location_overruns,
  truncated_metadata_count, truncated_metadata_header, payload_overruns, trailing_bytes,
  payload_too_large, location_too_long, body_too_large,
}
use objwal.Std.LittleEndian.{Bytes, le_bytes, uint}

abbrev pub max_u16 : ℕ
max_u16 = 2 ^ 16 - 1

abbrev pub max_u32 : ℕ
max_u32 = 2 ^ 32 - 1

abbrev pub u64_mod : ℕ
u64_mod = 2 ^ 64

pub record RecordMeta : Type 0 where
  pub start_index : ℕ
  pub ingestion_time_ms : ℕ
  pub payload : Bytes

pub record Entry : Type 0 where
  pub sequence : ℕ
  pub count : ℕ
  pub location : Bytes
  pub metadata : List RecordMeta

unfoldable pub range_size : Entry → ℕ
range_size e = if e.count == 0 then 1 else e.count

-- A uint64 sum.
unfoldable pub end : Entry → ℕ
unfolding range_size
end e = (e.sequence + range_size e) % u64_mod

unfoldable pub contains : Entry → ℕ → Bool
unfolding end
contains e seq = leb e.sequence seq && ltb seq (end e)

-- The first loop of `encodeEntry`: sizes are checked, and the metadata's size is added up.
unfoldable pub metadata_size : List RecordMeta → Result ℕ
metadata_size [] = ok 0
metadata_size (md ∷ mds) = do
  guard (leb (length md.payload) max_u32) payload_too_large
  n ← metadata_size mds
  ok (4 + 8 + 4 + length md.payload + n)

-- The last loop of `encodeEntry`.
unfoldable pub encode_metas : List RecordMeta → Bytes
encode_metas [] = []
encode_metas (md ∷ mds) =
    le_bytes 4 md.start_index
    ++ (le_bytes 8 md.ingestion_time_ms
        ++ (le_bytes 4 (length md.payload) ++ (md.payload ++ encode_metas mds)))

-- What `encodeEntry` writes behind the body length.
unfoldable pub encode_body : Entry → Bytes
unfolding encode_metas
encode_body e =
    le_bytes 8 e.sequence
    ++ (le_bytes 4 e.count
        ++ (le_bytes 2 (length e.location)
            ++ (e.location ++ (le_bytes 4 (length e.metadata) ++ encode_metas e.metadata))))

unfoldable pub encode_entry : Bytes → Entry → Result Bytes
encode_entry buf e = do
  md_size ← metadata_size e.metadata
  guard (leb (length e.location) max_u16) location_too_long
  let body_len = 8 + 4 + 2 + length e.location + (4 + md_size)
  guard (leb body_len max_u32) body_too_large
  ok (buf ++ (le_bytes 4 body_len ++ encode_body e))

-- `for i < mdCount`: the ranges, and the bytes of the body that are left.
unfoldable pub decode_metas : ℕ → Bytes → Result (List RecordMeta × Bytes)
decode_metas zero body = ok ([], body)
decode_metas (suc n) body = do
  guard (leb 16 (length body)) truncated_metadata_header
  let start = uint 4 body
  let ing_ms = uint 8 (drop 4 body)
  let plen = uint 4 (drop 8 (drop 4 body))
  let after = drop 4 (drop 8 (drop 4 body))
  guard (leb plen (length after)) payload_overruns
  (mds, left) ← decode_metas n (drop plen after)
  ok (
    record { start_index = start; ingestion_time_ms = ing_ms; payload = take plen after } ∷ mds,
    left,
  )

-- `decodeEntry` behind the sequence and the count.
unfoldable pub decode_tail : ℕ → ℕ → Bytes → Result Entry
decode_tail seq cnt body = do
  let loc_len = uint 2 body
  let after = drop 2 body
  guard (leb loc_len (length after)) location_overruns
  let md_body = drop loc_len after
  guard (leb 4 (length md_body)) truncated_metadata_count
  (mds, left) ← decode_metas (uint 4 md_body) (drop 4 md_body)
  guard (length left == 0) trailing_bytes
  ok (record { sequence = seq; count = cnt; location = take loc_len after; metadata = mds })

-- The entry at the front, and what follows it.
unfoldable pub decode_entry : Bytes → Bool → Result (Entry × Bytes)
decode_entry region has_count = do
  guard (leb 4 (length region)) truncated_body_length
  let body_len = uint 4 region
  let after = drop 4 region
  let min_body = 8 + 2 + 4 + (if has_count then 4 else 0)
  guard (leb min_body body_len && leb body_len (length after)) body_overruns
  let body = take body_len after
  let cnt = if has_count then uint 4 (drop 8 body) else 0
  let rest = if has_count then drop 4 (drop 8 body) else drop 8 body
  e ← decode_tail (uint 8 body) cnt rest
  ok (e, drop body_len after)

-- The ranges of the Go types.
pub record IsMeta (md : RecordMeta) : Type 0 where
  pub start_fits : md.start_index < 2 ^ 32
  pub time_fits : md.ingestion_time_ms < 2 ^ 64

pub record IsEntry (e : Entry) : Type 0 where
  pub sequence_fits : e.sequence < 2 ^ 64
  pub count_fits : e.count < 2 ^ 32
  pub metas : All IsMeta e.metadata
