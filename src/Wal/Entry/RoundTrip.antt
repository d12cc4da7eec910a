-- ===== src/Wal/Entry/RoundTrip.antt =====
-- `decodeEntry` reads back what `encodeEntry` wrote, and leaves what follows.
use objwal.Prelude.{
  ◌≤◌, ◌≡◌, refl, List, [], ◌∷◌, ◌++◌, append_assoc, append-nil, length, length-append, All, le→leb,
  true, arith,
}
use objwal.Prelude.Slices.{take-append, drop-append}
use objwal.Error.{ok}
use objwal.Std.LittleEndian.{Bytes, le_bytes, length-le_bytes, uint-le_bytes, drop-le_bytes}
use objwal.Wal.Entry.{
  RecordMeta, Entry, max_u32, encode_metas, encode_body, decode_metas, decode_tail, decode_entry,
  IsMeta, IsEntry,
}
use objwal.Wal.Entry.Encoding.{Fits, entry_bytes, length-encode_body, length-le-encode_metas}

decode_metas-encode_metas :
    (mds : List RecordMeta) (rest : Bytes)
    → All IsMeta mds
    → All (λ md. length md.payload ≤ max_u32) mds
    → decode_metas (length mds) (encode_metas mds ++ rest) ≡ ok (mds, rest)
unfolding decode_metas encode_metas
decode_metas-encode_metas [] rest h k = refl
decode_metas-encode_metas (md ∷ mds) rest (h, hs) (k, ks) =
    let later = md.payload ++ (encode_metas mds ++ rest) in
    let b2 = le_bytes 4 (length md.payload) ++ later in
    let b1 = le_bytes 8 md.ingestion_time_ms ++ b2 in
    simp append_assoc (
      rw (
        le→leb 16 (length (le_bytes 4 md.start_index ++ b1))
            (simp (length-append, length-le_bytes) (omega arith)),
        drop-le_bytes 4 md.start_index b1,
        drop-le_bytes 8 md.ingestion_time_ms b2,
        drop-le_bytes 4 (length md.payload) later,
        uint-le_bytes 4 md.start_index b1 (omega arith),
        uint-le_bytes 8 md.ingestion_time_ms b2 (omega arith),
        uint-le_bytes 4 (length md.payload) later (omega arith),
        le→leb (length md.payload) (length later)
            (omega (arith, length-append md.payload (encode_metas mds ++ rest))),
        drop-append (length md.payload) md.payload (encode_metas mds ++ rest) refl,
        take-append (length md.payload) md.payload (encode_metas mds ++ rest) refl,
        decode_metas-encode_metas mds rest hs ks,
      ))

decode_metas_all :
    (mds : List RecordMeta)
    → All IsMeta mds
    → All (λ md. length md.payload ≤ max_u32) mds
    → decode_metas (length mds) (encode_metas mds) ≡ ok (mds, [])
decode_metas_all mds h k =
    rw (append-nil (encode_metas mds)) at (decode_metas-encode_metas mds [] h k)

decode_tail-encoded :
    (e : Entry)
    → IsEntry e
    → Fits e
    → decode_tail e.sequence e.count (
        le_bytes 2 (length e.location)
        ++ (e.location ++ (le_bytes 4 (length e.metadata) ++ encode_metas e.metadata)))
      ≡ ok e
unfolding decode_tail
decode_tail-encoded e h k =
    let mds = encode_metas e.metadata in
    let md_body = le_bytes 4 (length e.metadata) ++ mds in
    let after = e.location ++ md_body in
    rw (
      uint-le_bytes 2 (length e.location) after (omega (arith, k.location_fits)),
      drop-le_bytes 2 (length e.location) after,
      le→leb (length e.location) (length after) (omega (arith, length-append e.location md_body)),
      drop-append (length e.location) e.location md_body refl,
      take-append (length e.location) e.location md_body refl,
      le→leb 4 (length md_body) (
          omega (
            arith,
            length-append (le_bytes 4 (length e.metadata)) mds,
            length-le_bytes 4 (length e.metadata),
          )),
      uint-le_bytes 4 (length e.metadata) mds
          (omega (arith, k.body_fits, length-encode_body e, length-le-encode_metas e.metadata)),
      drop-le_bytes 4 (length e.metadata) mds,
      decode_metas_all e.metadata h.metas k.payloads,
    )

-- An entry whose fields fit their words is decoded from its encoding, with whatever bytes stand
-- behind it left over.
pub decode_entry-entry_bytes :
    (e : Entry) (rest : Bytes)
    → IsEntry e
    → Fits e
    → decode_entry (entry_bytes e ++ rest) true ≡ ok (e, rest)
unfolding decode_entry entry_bytes
decode_entry-entry_bytes e rest h k =
    let body = encode_body e in
    let locs = e.location ++ (le_bytes 4 (length e.metadata) ++ encode_metas e.metadata) in
    let tail = le_bytes 2 (length e.location) ++ locs in
    let n = length body in
    rw
      (
        append_assoc (le_bytes 4 n) body rest,
        le→leb 4 (length (le_bytes 4 n ++ (body ++ rest)))
            (omega (arith, length-append (le_bytes 4 n) (body ++ rest), length-le_bytes 4 n)),
        uint-le_bytes 4 n (body ++ rest) (omega (arith, k.body_fits)),
        drop-le_bytes 4 n (body ++ rest),
        le→leb 18 n (omega (arith, length-encode_body e)),
        le→leb n (length (body ++ rest)) (omega (arith, length-append body rest)),
        take-append n body rest refl,
        drop-append n body rest refl,
      )
      (unfold encode_body in
        rw (
          uint-le_bytes 8 e.sequence (le_bytes 4 e.count ++ tail) h.sequence_fits,
          drop-le_bytes 8 e.sequence (le_bytes 4 e.count ++ tail),
          uint-le_bytes 4 e.count tail h.count_fits,
          drop-le_bytes 4 e.count tail,
          decode_tail-encoded e h k,
        ))
