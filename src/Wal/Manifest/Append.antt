-- ===== src/Wal/Manifest/Append.antt =====
-- `Append` puts one entry behind the log.
use objwal.Prelude.{
  ℕ, ◌+◌, ◌≤◌, ◌<◌, ◌^◌, ◌%◌, ◌≡◌, refl, ap, ◌∙◌, List, [], ◌∷◌, ◌++◌, append_assoc, length-append,
  All, leb, le→leb, leb→le, arith,
}
use objwal.Error.{ok, guard, guard-ok, >>=-eq-ok, count_too_small, count_too_large}
use objwal.Std.LittleEndian.{Bytes}
use objwal.Wal.Entry.{
  Entry, RecordMeta, range_size, IsEntry, IsMeta, max_u32, u64_mod, encode_entry,
}
use objwal.Wal.Entry.Encoding.{Fits, entry_bytes, encode_entry-Fits, encode_entry-ok}
use objwal.Wal.Manifest.{Manifest, append}
use objwal.Wal.Manifest.Holds.{Holds, Encodes-append, Encodes-one, Tiles-append}

abbrev pub entry_of : ℕ → ℕ → Bytes → List RecordMeta → Entry
entry_of seq count location md = record {
  sequence = seq;
  count = count;
  location = location;
  metadata = md;
}

-- The manifest behind a successful `Append`.
abbrev pub appended_to : Manifest → Bytes → List RecordMeta → ℕ → Manifest
appended_to m location md count = record m {
  appended = m.appended ++ entry_bytes (entry_of m.next_sequence count location md);
  appended_count = m.appended_count + 1;
  next_sequence = (m.next_sequence + count) % u64_mod;
}

range_size-pos : (e : Entry) → 1 ≤ e.count → range_size e ≡ e.count
unfolding range_size
range_size-pos e h = ground arith

module _ (m : Manifest) (location : Bytes) (md : List RecordMeta) (count : ℕ) where
  abbrev e : Entry
  e = entry_of m.next_sequence count location md

  pub append_lem :
      1 ≤ count
      → count ≤ max_u32
      → Fits e
      → append m location md count ≡ ok (m.next_sequence, appended_to m location md count)
  unfolding append
  append_lem lo hi fits =
      rw (le→leb 1 count lo, le→leb count max_u32 hi, encode_entry-Fits m.appended e fits)

  -- It succeeds on no other arguments.
  pub append-ok :
      (seq : ℕ) (m' : Manifest)
      → append m location md count ≡ ok (seq, m')
      → (1 ≤ count) × (count ≤ max_u32) × Fits e
  unfolding append
  append-ok seq m' h =
      let (_, lo, h₁) = >>=-eq-ok (guard (leb 1 count) count_too_small) _ h in
      let (_, hi, h₂) = >>=-eq-ok (guard (leb count max_u32) count_too_large) _ h₁ in
      let (enc, encoded, _) = >>=-eq-ok (encode_entry m.appended e) _ h₂ in
      (
        leb→le 1 count (guard-ok _ _ lo),
        leb→le count max_u32 (guard-ok _ _ hi),
        (encode_entry-ok m.appended e enc encoded).0,
      )

  -- A manifest that holds `es` holds one more entry, of `count` sequences, at the end.
  pub appended_to-Holds :
      {first : ℕ} {es : List Entry}
      → Holds m first es
      → All IsMeta md
      → 1 ≤ count
      → count ≤ max_u32
      → Fits e
      → m.next_sequence + count < 2 ^ 64
      → Holds (appended_to m location md count) first (es ++ e ∷ [])
  appended_to-Holds {first} {es} h metas lo hi fits room =
      let is_entry : IsEntry e = record {
        sequence_fits = h.next_fits;
        count_fits = omega arith;
        metas = metas;
      } in
      let sum : (m.next_sequence + count) % u64_mod ≡ m.next_sequence + range_size e =
        omega (arith, range_size-pos e lo) in
      record {
        older = h.older;
        newer = h.newer ++ e ∷ [];
        split = ap (λ xs. xs ++ e ∷ []) h.split ∙ append_assoc h.older h.newer (e ∷ []);
        base_holds = h.base_holds;
        appended_holds = Encodes-append h.appended_holds (Encodes-one e is_entry fits);
        base_counted = h.base_counted;
        appended_counted = omega (arith, h.appended_counted, length-append h.newer (e ∷ []));
        tiled = rw sum (Tiles-append first m.next_sequence es e h.tiled refl);
        next_fits = omega arith;
      }

-- An `Append` that succeeds on a manifest that holds a log, with ranges of numbers that fit their
-- words and while the sequences stay below 2 ^ 64, returns the manifest's next sequence and leaves
-- a manifest that holds the log with one more entry at its end: of that sequence, with the count,
-- location and ranges given. The next sequence moves by the count.
pub append-Holds :
    {m : Manifest} {first : ℕ} {es : List Entry} (location : Bytes) (md : List RecordMeta)
    (count seq : ℕ) (m' : Manifest)
    → Holds m first es
    → All IsMeta md
    → m.next_sequence + count < 2 ^ 64
    → append m location md count ≡ ok (seq, m')
    → (seq ≡ m.next_sequence)
      × Holds m' first (es ++ entry_of seq count location md ∷ [])
      × (m'.next_sequence ≡ seq + count)
append-Holds {m} {first} {es} location md count seq m' h metas room a =
    let (lo, hi, fits) = append-ok m location md count seq m' a in
    let same = append_lem m location md count lo hi fits in
    let is_seq : seq ≡ m.next_sequence = cc (a, same) in
    let is_m : m' ≡ appended_to m location md count = cc (a, same) in
    rw (is_m, is_seq)
      (refl, appended_to-Holds m location md count h metas lo hi fits room, omega (arith, room))
