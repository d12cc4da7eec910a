-- ===== src/Wal/Producer/Plan.antt =====
-- `planSegments` of wal/producer.go, and the naming of segments in `flush`.
pub mod Groups
use objwal.Prelude.{
  ℕ, zero, suc, ◌+◌, ◌^◌, ◌%◌, Bool, true, false, ◌&&◌, List, [], ◌∷◌, ◌++◌, length, leb, ltb, ◌==◌,
  if◌then◌else◌,
}
use objwal.Std.LittleEndian.{Bytes}
use objwal.Std.Hex.{hex}
use objwal.Wal.Entry.{RecordMeta, u64_mod}
use objwal.Wal.Producer.Types.{Config, PendingItem, SegPlan}

abbrev empty_plan : SegPlan
empty_plan = record { items = []; records = []; metas = []; bytes = 0; location = [] }

-- The loop's variables: `plans`, `cur` and `curIdx`.
pub record Packing : Type 0 where
  pub plans : List SegPlan
  pub cur : SegPlan
  pub cur_idx : ℕ

unfoldable pub seal : Packing → Packing
seal p =
    if ltb 0 (length p.cur.items)
    then record { plans = p.plans ++ (p.cur ∷ []); cur = empty_plan; cur_idx = 0 }
    else p

-- One Append group joins the current segment.
unfoldable pub pack : ℕ → PendingItem → Packing → Packing
pack now_ms it p = record p {
  cur = record {
    items = p.cur.items ++ (it ∷ []);
    records = p.cur.records ++ it.records;
    metas =
        p.cur.metas
        ++ (record { start_index = p.cur_idx; ingestion_time_ms = now_ms; payload = it.meta } ∷ []);
    bytes = p.cur.bytes + it.bytes;
    location = p.cur.location;
  };
  cur_idx = (p.cur_idx + length it.records) % 2 ^ 32;
}

-- Whether the group opens a new segment; `limit` is SegmentMaxBytes.
unfoldable pub overflows : ℕ → PendingItem → Packing → Bool
overflows limit it p =
    ltb 0 limit && ltb 0 (length p.cur.items) && ltb limit (p.cur.bytes + it.bytes)

unfoldable pub plan_loop : ℕ → ℕ → List PendingItem → Packing → List SegPlan
plan_loop now_ms limit [] p = (seal p).plans
plan_loop now_ms limit (it ∷ batch) p =
    plan_loop now_ms limit batch (pack now_ms it (if overflows limit it p then seal p else p))

unfoldable pub plan_segments : ℕ → ℕ → List PendingItem → List SegPlan
plan_segments now_ms limit batch =
    plan_loop now_ms limit batch (record { plans = []; cur = empty_plan; cur_idx = 0 })

-- "<SegmentPrefix>/<runID>/<ordinal:016x>"
unfoldable pub location : Bytes → Bytes → ℕ → Bytes
location prefix run_id ordinal = prefix ++ (b'/' ∷ (run_id ++ (b'/' ∷ hex 16 ordinal)))

-- The plans of a flush get the ordinals from `base` on.
unfoldable pub name_plans : Bytes → Bytes → ℕ → List SegPlan → List SegPlan
unfolding location
name_plans prefix run_id base [] = []
name_plans prefix run_id base (pl ∷ pls) =
    record pl { location = location prefix run_id (base % u64_mod) }
    ∷ name_plans prefix run_id (base + 1) pls
