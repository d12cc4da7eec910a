-- ===== src/Wal/Entry/Encoding.antt =====
-- What `encodeEntry` appends, and when it succeeds.
use objwal.Prelude.{
  ℕ, ◌+◌, ◌≤◌, ◌≡◌, refl, sym, ◌∙◌, ap, List, [], ◌∷◌, ◌++◌, length, length-append, All, leb,
  le→leb, leb→le, arith,
}
use objwal.Error.{
  ok, >>=-eq-ok, guard, guard-ok, payload_too_large, location_too_long, body_too_large,
}
use objwal.Std.LittleEndian.{Bytes, le_bytes, length-le_bytes}
use objwal.Wal.Entry.{
  RecordMeta, Entry, max_u16, max_u32, metadata_size, encode_metas, encode_body, encode_entry,
}

-- The sizes that the encoding can hold.
pub record Fits (e : Entry) : Type 0 where
  pub payloads : All (λ md. length md.payload ≤ max_u32) e.metadata
  pub location_fits : length e.location ≤ max_u16
  pub body_fits : length (encode_body e) ≤ max_u32

-- One entry as it stands in a manifest: its body behind the body's length.
unfoldable pub entry_bytes : Entry → Bytes
entry_bytes e = le_bytes 4 (length (encode_body e)) ++ encode_body e

-- The entries of a region of a manifest.
unfoldable pub encodings : List Entry → Bytes
unfolding entry_bytes
encodings [] = []
encodings (e ∷ es) = entry_bytes e ++ encodings es

meta_length :
    (md : RecordMeta) (mds : List RecordMeta)
    → length (encode_metas (md ∷ mds)) ≡ 16 + length md.payload + length (encode_metas mds)
unfolding encode_metas
meta_length md mds = simp (length-append, length-le_bytes) (omega arith)

metadata_size-encode_metas :
    (mds : List RecordMeta)
    → All (λ md. length md.payload ≤ max_u32) mds
    → metadata_size mds ≡ ok (length (encode_metas mds))
unfolding metadata_size
metadata_size-encode_metas [] h = unfold encode_metas in refl
metadata_size-encode_metas (md ∷ mds) (h, hs) =
    rw (le→leb (length md.payload) max_u32 h, metadata_size-encode_metas mds hs)
      (ap ok (omega (arith, meta_length md mds)))

metadata_size-payloads :
    (mds : List RecordMeta) (n : ℕ)
    → metadata_size mds ≡ ok n
    → All (λ md. length md.payload ≤ max_u32) mds
unfolding metadata_size
metadata_size-payloads [] n h = tt
metadata_size-payloads (md ∷ mds) n h =
    let (u, fits, h') = >>=-eq-ok (guard (leb (length md.payload) max_u32) payload_too_large) _ h in
    let (k, sized, _) = >>=-eq-ok (metadata_size mds) _ h' in
    (leb→le (length md.payload) max_u32 (guard-ok _ _ fits), metadata_size-payloads mds k sized)

pub length-encode_body :
    (e : Entry) → length (encode_body e) ≡ 18 + length e.location + length (encode_metas e.metadata)
unfolding encode_body
length-encode_body e = simp (length-append, length-le_bytes) (omega arith)

pub length-le-encode_metas : (mds : List RecordMeta) → length mds ≤ length (encode_metas mds)
length-le-encode_metas [] = omega arith
length-le-encode_metas (md ∷ mds) = omega (arith, meta_length md mds, length-le-encode_metas mds)

body_length :
    (e : Entry)
    → 14 + length e.location + (4 + length (encode_metas e.metadata)) ≡ length (encode_body e)
body_length e = omega (arith, length-encode_body e)

-- An entry within the sizes is encoded behind what the buffer holds.
pub encode_entry-Fits :
    (buf : Bytes) (e : Entry) → Fits e → encode_entry buf e ≡ ok (buf ++ entry_bytes e)
unfolding encode_entry entry_bytes
encode_entry-Fits buf e h = rw (
  metadata_size-encode_metas e.metadata h.payloads,
  le→leb (length e.location) max_u16 h.location_fits,
  body_length e,
  le→leb (length (encode_body e)) max_u32 h.body_fits,
)

-- No other entry is.
pub encode_entry-ok :
    (buf : Bytes) (e : Entry) (out : Bytes)
    → encode_entry buf e ≡ ok out
    → Fits e × (out ≡ buf ++ entry_bytes e)
unfolding encode_entry
encode_entry-ok buf e out h =
    let (n, sized, h₁) = >>=-eq-ok (metadata_size e.metadata) _ h in
    let (_, loc, h₂) = >>=-eq-ok (guard (leb (length e.location) max_u16) location_too_long) _ h₁ in
    let (_, body, _) =
      >>=-eq-ok (guard (leb (14 + length e.location + (4 + n)) max_u32) body_too_large) _ h₂ in
    let payloads = metadata_size-payloads e.metadata n sized in
    let n_eq : ok n ≡ ok (length (encode_metas e.metadata)) =
      sym sized ∙ metadata_size-encode_metas e.metadata payloads in
    let fits : Fits e = record {
      payloads = payloads;
      location_fits = leb→le _ _ (guard-ok _ _ loc);
      body_fits = ground (arith, n_eq, guard-ok _ _ body, body_length e);
    } in
    (fits, cc (h, encode_entry-Fits buf e fits))
