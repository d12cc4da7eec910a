-- ===== src/Wal/Producer/Tests.antt =====
-- The producer over the store in memory, at concrete inputs.
use objwal.Prelude.{◌<◌, arith, ◌^◌, ℕ, ◌≡◌, ◌≢◌, refl, false, List, [], ◌∷◌, none, map, All, ◌+◌}
use objwal.Error.{ok}
use objwal.Std.LittleEndian.{le_bytes}
use objwal.ObjectStore.Memory.{InMemory, new_in_memory, in_memory}
use objwal.Wal.Manifest.Holds.{new_manifest-Holds}
use objwal.Wal.Manifest.Append.{appended_to}
use objwal.Wal.Entry.Encoding.{entry_bytes}
use objwal.Wal.Producer.Commit.Batch.{Grouped, records_in, append_plans-Grouped}
use objwal.Wal.Entry.{RecordMeta, IsMeta, encode_entry, encode_body, encode_metas, metadata_size}
use objwal.Wal.Manifest.{Manifest, new_manifest, append}
use objwal.Wal.Producer.Types.{SeqRange, Config, with_defaults, PendingItem, SegPlan}
use objwal.Wal.Producer.Backoff.{Env}
use objwal.Wal.Producer.Plan.{plan_segments}
use objwal.Wal.Producer.Plan.Groups.{plan_of, flatten, Within, plan_segments_lem}
use objwal.Wal.Producer.Claim.{claim}
use objwal.Wal.Producer.Commit.{commit_entries, commit_loop, rounds, first_tries, append_plans}
use objwal.Wal.Producer.Commit.Ends.{commit_loop-ne-none}

abbrev group : ℕ → ℕ → PendingItem
group w size = record { records = (w ∷ []) ∷ []; meta = w ∷ []; bytes = size; waiter = w }

abbrev batch : List PendingItem
batch = group 0 6 ∷ group 1 3 ∷ group 2 9 ∷ []

plan_segments_lem_example :
    (gs : List (List PendingItem)) × (plan_segments 1700 10 batch ≡ map (plan_of 1700) gs)
    × (flatten gs ≡ batch)
    × All (Within 10) gs
plan_segments_lem_example = plan_segments_lem 1700 10 batch

abbrev config : Config
config = with_defaults (record {
  manifest_path = 109 ∷ [];
  segment_prefix = 115 ∷ [];
  flush_interval = 0;
  flush_bytes = 0;
  compression = 0;
  legacy_segment_format = false;
  max_in_flight_bytes = 0;
  max_in_flight_batches = 0;
  segment_max_bytes = 10;
  manifest_append_batch_size = 0;
  max_claim_attempts = 0;
  upload_max_attempts = 0;
  upload_initial_backoff = 0;
  upload_concurrency = 0;
  manifest_max_attempts = 0;
  manifest_initial_backoff = 0;
  max_commit_conflicts = 0;
})

-- A sleep moves the clock.
abbrev env : Env InMemory
env = record { os = in_memory; sleep = λ d s. (ok tt, record s { now = s.now + d }) }

abbrev empty : InMemory
empty = new_in_memory 0

abbrev claimed : InMemory
claimed = (claim env config empty).1

abbrev plan : SegPlan
plan = record (plan_of 1700 (group 0 6 ∷ [])) { location = 115 ∷ [] }

commit_loop-ne-none_example :
    commit_loop env config 1
      (plan ∷ [])
      (rounds env config 1 (plan ∷ []))
      (first_tries env config 1 (plan ∷ []))
      claimed
    ≢ none
commit_loop-ne-none_example = commit_loop-ne-none env config 1 (plan ∷ []) claimed

abbrev committed : InMemory
committed = (commit_entries env config 1 (plan ∷ []) claimed).1

abbrev meta : RecordMeta
meta = record { start_index = 0; ingestion_time_ms = 1700; payload = 9 ∷ [] }

abbrev plan_at : ℕ → SegPlan
plan_at c = record {
  items = [];
  records = (7 ∷ []) ∷ (8 ∷ []) ∷ [];
  metas = meta ∷ [];
  bytes = 10;
  location = c ∷ [];
}

abbrev two_plans : List SegPlan
two_plans = plan_at 97 ∷ plan_at 98 ∷ []

abbrev grouped : Manifest
grouped = appended_to (appended_to new_manifest (97 ∷ []) (meta ∷ []) 2) (98 ∷ []) (meta ∷ []) 2

meta-IsMeta : All IsMeta (meta ∷ [])
meta-IsMeta = (record { start_fits = omega arith; time_fits = omega arith }, tt)

two_plans-appended : append_plans new_manifest two_plans ≡ ok (0 ∷ 2 ∷ [], grouped)
unfolding append_plans append encode_entry metadata_size encode_body encode_metas le_bytes
    entry_bytes
two_plans-appended = refl

few : new_manifest.next_sequence + records_in two_plans < 2 ^ 64
unfolding records_in
few = omega arith

append_plans-Grouped_example : Grouped grouped 0 0 [] two_plans (0 ∷ 2 ∷ [])
append_plans-Grouped_example =
    append_plans-Grouped new_manifest [] two_plans (0 ∷ 2 ∷ []) grouped new_manifest-Holds
      (meta-IsMeta, (meta-IsMeta, tt)) few two_plans-appended

abbrev span : SeqRange
span = record { first = 40; count = 3 }
