-- ===== src/Wal/Producer/Plan/Groups.antt =====
-- How `planSegments` packs Append groups into segments.
use objwal.Prelude.{
  ℕ, suc, ◌+◌, ◌≤◌, ◌^◌, ◌%◌, ◌≡◌, refl, sym, ap, ◌∙◌, ◌⊎◌, inl, inr, Bool, true, false, ◌&&◌, List,
  [], ◌∷◌, ◌++◌, map, append_assoc, append-nil, length, All, ltb, if◌then◌else◌, Bool-cases, lt→ltb,
  arith,
}
use objwal.Std.LittleEndian.{Bytes}
use objwal.Wal.Entry.{RecordMeta}
use objwal.Wal.Producer.Types.{PendingItem, SegPlan}
use objwal.Wal.Producer.Plan.{Packing, seal, pack, overflows, plan_loop, plan_segments}

-- The contents of a segment that carries the given groups.
unfoldable pub all_records : List PendingItem → List Bytes
all_records [] = []
all_records (it ∷ its) = it.records ++ all_records its

unfoldable pub all_bytes : List PendingItem → ℕ
all_bytes [] = 0
all_bytes (it ∷ its) = it.bytes + all_bytes its

-- One range for each group, where the records of the groups before it end.
unfoldable pub metas_from : ℕ → ℕ → List PendingItem → List RecordMeta
metas_from now_ms idx [] = []
metas_from now_ms idx (it ∷ its) =
    record { start_index = idx; ingestion_time_ms = now_ms; payload = it.meta }
    ∷ metas_from now_ms ((idx + length it.records) % 2 ^ 32) its

unfoldable pub index_after : ℕ → List PendingItem → ℕ
index_after idx [] = idx
index_after idx (it ∷ its) = index_after ((idx + length it.records) % 2 ^ 32) its

abbrev pub plan_of : ℕ → List PendingItem → SegPlan
plan_of now_ms its = record {
  items = its;
  records = all_records its;
  metas = metas_from now_ms 0 its;
  bytes = all_bytes its;
  location = [];
}

-- Greedy packing: `cur` is the segment that is being filled.
unfoldable pack_groups : ℕ → List PendingItem → List PendingItem → List (List PendingItem)
pack_groups limit [] [] = []
pack_groups limit (c ∷ cur) [] = (c ∷ cur) ∷ []
pack_groups limit [] (it ∷ batch) = pack_groups limit (it ∷ []) batch
pack_groups limit (c ∷ cur) (it ∷ batch) =
    let apart = (c ∷ cur) ∷ pack_groups limit (it ∷ []) batch in
    let joined = pack_groups limit ((c ∷ cur) ++ it ∷ []) batch in
    if ltb 0 limit && ltb limit (all_bytes (c ∷ cur) + it.bytes) then apart else joined

unfoldable pub flatten : List (List PendingItem) → List PendingItem
flatten [] = []
flatten (g ∷ gs) = g ++ flatten gs

-- Within the cap, or a single group; never empty.
abbrev pub Within : ℕ → List PendingItem → Type 0
Within limit its = (1 ≤ length its) × ((limit ≡ 0) ⊎ (all_bytes its ≤ limit) ⊎ (length its ≡ 1))

and-true : (b c : Bool) → (b && true && c) ≡ (b && c)
and-true true c = refl
and-true false c = refl

and-false : (b c : Bool) → (b && false && c) ≡ false
and-false true c = refl
and-false false c = refl

all_records-snoc :
    (its : List PendingItem) (it : PendingItem)
    → all_records (its ++ it ∷ []) ≡ all_records its ++ it.records
unfolding all_records
all_records-snoc [] it = append-nil it.records
all_records-snoc (x ∷ its) it =
    rw (all_records-snoc its it) (sym (append_assoc x.records (all_records its) it.records))

all_bytes-snoc :
    (its : List PendingItem) (it : PendingItem)
    → all_bytes (its ++ it ∷ []) ≡ all_bytes its + it.bytes
unfolding all_bytes
all_bytes-snoc [] it = omega arith
all_bytes-snoc (x ∷ its) it = omega (arith, all_bytes-snoc its it)

metas_from-snoc :
    (now_ms idx : ℕ) (its : List PendingItem) (it : PendingItem)
    → metas_from now_ms idx (its ++ it ∷ [])
      ≡ metas_from now_ms idx its
        ++ record {
          start_index = index_after idx its;
          ingestion_time_ms = now_ms;
          payload = it.meta;
        }
          ∷ []
unfolding metas_from index_after
metas_from-snoc now_ms idx [] it = refl
metas_from-snoc now_ms idx (x ∷ its) it =
    ap (λ l. record { start_index = idx; ingestion_time_ms = now_ms; payload = x.meta } ∷ l)
      (metas_from-snoc now_ms ((idx + length x.records) % 2 ^ 32) its it)

index_after-snoc :
    (idx : ℕ) (its : List PendingItem) (it : PendingItem)
    → index_after idx (its ++ it ∷ []) ≡ (index_after idx its + length it.records) % 2 ^ 32
unfolding index_after
index_after-snoc idx [] it = refl
index_after-snoc idx (x ∷ its) it = index_after-snoc ((idx + length x.records) % 2 ^ 32) its it

-- The loop's variables while the segment that is being filled carries `cur`.
abbrev packing : ℕ → List SegPlan → List PendingItem → Packing
packing now_ms plans cur = record {
  plans = plans;
  cur = plan_of now_ms cur;
  cur_idx = index_after 0 cur;
}

pack-packing :
    (now_ms : ℕ) (plans : List SegPlan) (cur : List PendingItem) (it : PendingItem)
    → pack now_ms it (packing now_ms plans cur) ≡ packing now_ms plans (cur ++ it ∷ [])
unfolding pack
pack-packing now_ms plans cur it =
    simp (all_records-snoc, all_bytes-snoc, metas_from-snoc, index_after-snoc)

seal-packing :
    (now_ms : ℕ) (plans : List SegPlan) (c : PendingItem) (cur : List PendingItem)
    → seal (packing now_ms plans (c ∷ cur))
      ≡ packing now_ms (plans ++ plan_of now_ms (c ∷ cur) ∷ []) []
unfolding seal index_after all_records all_bytes metas_from
seal-packing now_ms plans c cur = rw (lt→ltb 0 (suc (length cur)) (omega arith))

overflows-packing :
    (now_ms limit : ℕ) (plans : List SegPlan) (c : PendingItem) (cur : List PendingItem)
    (it : PendingItem)
    → overflows limit it (packing now_ms plans (c ∷ cur))
      ≡ (ltb 0 limit && ltb limit (all_bytes (c ∷ cur) + it.bytes))
unfolding overflows
overflows-packing now_ms limit plans c cur it =
    rw (lt→ltb 0 (suc (length cur)) (omega arith)) (and-true (ltb 0 limit) _)

overflows-empty :
    (now_ms limit : ℕ) (plans : List SegPlan) (it : PendingItem)
    → overflows limit it (packing now_ms plans []) ≡ false
unfolding overflows all_bytes
overflows-empty now_ms limit plans it = and-false (ltb 0 limit) (ltb limit (0 + it.bytes))

plan_loop-pack_groups :
    (now_ms limit : ℕ) (batch : List PendingItem) (plans : List SegPlan) (cur : List PendingItem)
    → plan_loop now_ms limit batch (packing now_ms plans cur)
      ≡ plans ++ map (plan_of now_ms) (pack_groups limit cur batch)
unfolding plan_loop pack_groups
plan_loop-pack_groups now_ms limit [] plans [] = unfold seal in sym (append-nil plans)
plan_loop-pack_groups now_ms limit [] plans (c ∷ cur) =
    rw (seal-packing now_ms plans c cur, plan_loop)
plan_loop-pack_groups now_ms limit (it ∷ batch) plans [] =
    rw (overflows-empty now_ms limit plans it, pack-packing now_ms plans [] it)
      (plan_loop-pack_groups now_ms limit batch plans (it ∷ []))
plan_loop-pack_groups now_ms limit (it ∷ batch) plans (c ∷ cur) =
    elim (Bool-cases (ltb 0 limit && ltb limit (all_bytes (c ∷ cur) + it.bytes))) [
      | inl over ↦
          rw
            (
              overflows-packing now_ms limit plans c cur it,
              over,
              seal-packing now_ms plans c cur,
              pack-packing now_ms (plans ++ plan_of now_ms (c ∷ cur) ∷ []) [] it,
            )
            (plan_loop-pack_groups now_ms limit batch (plans ++ plan_of now_ms (c ∷ cur) ∷ [])
                (it ∷ [])
              ∙ append_assoc plans (plan_of now_ms (c ∷ cur) ∷ []) _)
      | inr fits ↦
          rw
            (
              overflows-packing now_ms limit plans c cur it,
              fits,
              pack-packing now_ms plans (c ∷ cur) it,
            )
            (plan_loop-pack_groups now_ms limit batch plans ((c ∷ cur) ++ it ∷ []))
    ]

flatten-pack_groups :
    (limit : ℕ) (batch cur : List PendingItem)
    → flatten (pack_groups limit cur batch) ≡ cur ++ batch
unfolding flatten pack_groups
flatten-pack_groups limit [] [] = refl
flatten-pack_groups limit [] (c ∷ cur) = refl
flatten-pack_groups limit (it ∷ batch) [] = flatten-pack_groups limit batch (it ∷ [])
flatten-pack_groups limit (it ∷ batch) (c ∷ cur) =
    elim (Bool-cases (ltb 0 limit && ltb limit (all_bytes (c ∷ cur) + it.bytes))) [
      | inl over ↦ rw (over, flatten-pack_groups limit batch (it ∷ []))
      | inr fits ↦ rw fits (
          flatten-pack_groups limit batch ((c ∷ cur) ++ it ∷ [])
          ∙ append_assoc (c ∷ cur) (it ∷ []) batch)
    ]

joined-Within :
    (limit : ℕ) (c : PendingItem) (cur : List PendingItem) (it : PendingItem)
    → (ltb 0 limit && ltb limit (all_bytes (c ∷ cur) + it.bytes)) ≡ false
    → Within limit ((c ∷ cur) ++ it ∷ [])
joined-Within limit c cur it h = (omega arith, ground (arith, all_bytes-snoc (c ∷ cur) it))

pack_groups-Within :
    (limit : ℕ) (batch cur : List PendingItem)
    → (cur ≡ []) ⊎ Within limit cur
    → All (Within limit) (pack_groups limit cur batch)
unfolding pack_groups
pack_groups-Within limit [] [] h = tt
pack_groups-Within limit [] (c ∷ cur) (inl e) = absurd (cc e)
pack_groups-Within limit [] (c ∷ cur) (inr w) = (w, tt)
pack_groups-Within limit (it ∷ batch) [] h =
    pack_groups-Within limit batch (it ∷ []) (inr (omega arith, inr (inr refl)))
pack_groups-Within limit (it ∷ batch) (c ∷ cur) (inl e) = absurd (cc e)
pack_groups-Within limit (it ∷ batch) (c ∷ cur) (inr w) =
    elim (Bool-cases (ltb 0 limit && ltb limit (all_bytes (c ∷ cur) + it.bytes))) [
      | inl over ↦
          rw over (w, pack_groups-Within limit batch (it ∷ []) (inr (omega arith, inr (inr refl))))
      | inr fits ↦ rw fits (
          pack_groups-Within limit batch ((c ∷ cur) ++ it ∷ [])
            (inr (joined-Within limit c cur it fits)))
    ]

-- The batch is cut into consecutive runs of whole groups, none empty, each within the cap or a
-- single group; each run becomes one plan, with the groups' records in order, a range for each
-- group that starts where the records before it end, and the sum of their bytes.
pub plan_segments_lem :
    (now_ms limit : ℕ) (batch : List PendingItem)
    → (gs : List (List PendingItem)) × (plan_segments now_ms limit batch ≡ map (plan_of now_ms) gs)
      × (flatten gs ≡ batch)
      × All (Within limit) gs
unfolding plan_segments all_records metas_from all_bytes index_after
plan_segments_lem now_ms limit batch = (
  pack_groups limit [] batch,
  plan_loop-pack_groups now_ms limit batch [] [],
  flatten-pack_groups limit batch [],
  pack_groups-Within limit batch [] (inl refl),
)
