-- ===== src/Wal/Manifest/Fuel.antt =====
-- The loop of `Entries` ends on any bytes.
use objwal.Prelude.{ℕ, zero, suc, ◌≤◌, ◌<◌, ◌≡◌, ◌≢◌, [], ◌∷◌, length, true, arith, inl, inr}
use objwal.Prelude.Slices.{take, drop, length-drop}
use objwal.Error.{ok, err, out_of_fuel, Result-cases}
use objwal.Std.LittleEndian.{Bytes, uint}
use objwal.Wal.Entry.{Entry, decode_metas, decode_tail, decode_entry}
use objwal.Wal.Manifest.{Manifest, entries_loop, region_entries, entries}

decode_shorter :
    (region : Bytes) (e : Entry) (next : Bytes)
    → decode_entry region true ≡ ok (e, next)
    → length next < length region
unfolding decode_entry
decode_shorter region e next h =
    ground (arith, length-drop 4 region, length-drop (uint 4 region) (drop 4 region))

decode_metas_error : (n : ℕ) (body : Bytes) → decode_metas n body ≢ err out_of_fuel
unfolding decode_metas
decode_metas_error zero body h = cc
decode_metas_error (suc n) body h = ground (
  arith,
  decode_metas_error n (drop (uint 4 (drop 8 (drop 4 body))) (drop 4 (drop 8 (drop 4 body)))),
)

decode_tail_error : (s c : ℕ) (body : Bytes) → decode_tail s c body ≢ err out_of_fuel
unfolding decode_tail
decode_tail_error s c body h =
    let md = drop (uint 2 body) (drop 2 body) in
    ground (arith, decode_metas_error (uint 4 md) (drop 4 md))

decode_entry_error : (region : Bytes) → decode_entry region true ≢ err out_of_fuel
unfolding decode_entry
decode_entry_error region h =
    let body = take (uint 4 region) (drop 4 region) in
    ground (arith, decode_tail_error (uint 8 body) (uint 4 (drop 8 body)) (drop 4 (drop 8 body)))

entries_loop-enough :
    (fuel : ℕ) (region : Bytes) → length region ≤ fuel → entries_loop fuel region ≢ err out_of_fuel
unfolding entries_loop
entries_loop-enough fuel [] h = λ p. cc
entries_loop-enough zero (b ∷ bs) h = absurd (omega arith)
entries_loop-enough (suc fuel) (b ∷ bs) h = elim (Result-cases (decode_entry (b ∷ bs) true)) [
  | inl ((e, next), p) ↦
      let rest = entries_loop-enough fuel next (omega (arith, decode_shorter (b ∷ bs) e next p)) in
      rw p (λ q. ground (arith, rest))
  | inr (e, p) ↦ rw p (λ q. decode_entry_error (b ∷ bs) (cc (p, q)))
]

-- `Entries` never runs out of fuel, whatever the bytes of the manifest.
pub entries-ne-out_of_fuel : (m : Manifest) → entries m ≢ err out_of_fuel
unfolding entries region_entries
entries-ne-out_of_fuel m h = ground (
  arith,
  entries_loop-enough (length m.base) m.base (omega arith),
  entries_loop-enough (length m.appended) m.appended (omega arith),
)
