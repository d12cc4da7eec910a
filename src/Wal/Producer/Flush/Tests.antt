-- ===== src/Wal/Producer/Flush/Tests.antt =====
-- A producer over the store in memory: two Appends, a flush and a Close.
use objwal.Prelude.{◌+◌, ◌≡◌, refl, inr, false, [], ◌∷◌, none, some}
use objwal.Error.{ok, err, Error, fenced}
use objwal.ObjectStore.Memory.{InMemory, new_in_memory, in_memory}
use objwal.Wal.Segment.{Zstd}
use objwal.Wal.Producer.Types.{Config}
use objwal.Wal.Producer.State.{State, new_state, try_append, take_pending}
use objwal.Wal.Producer.State.Accounting.{Accounted, upto, told}
use objwal.Wal.Producer.Flush.{Setup, flush}
use objwal.Wal.Producer.Flush.Steps.{
  Reach, starts, steps, appends, takes, Bounded, Reach-Accounted, Reach-Bounded,
}
use objwal.Wal.Producer.Flush.Settles.{flush-Reach}
use objwal.Wal.Producer.Close.{close}
use objwal.Wal.Producer.Close.Final.{Drained, now, then_step, Later-try_append, close-Drained}

abbrev config : Config
config = record {
  manifest_path = 109 ∷ [];
  segment_prefix = 115 ∷ [];
  flush_interval = 1;
  flush_bytes = 8;
  compression = 0;
  legacy_segment_format = false;
  max_in_flight_bytes = 16;
  max_in_flight_batches = 4;
  segment_max_bytes = 10;
  manifest_append_batch_size = 1;
  max_claim_attempts = 2;
  upload_max_attempts = 2;
  upload_initial_backoff = 1;
  upload_concurrency = 1;
  manifest_max_attempts = 2;
  manifest_initial_backoff = 1;
  max_commit_conflicts = 2;
}

abbrev plain : Zstd
plain = record { encode_all = λ b. b; decode_all = λ b. ok b; decode_all-encode_all = λ b. refl }

abbrev setup : Setup InMemory
setup = record {
  env = record { os = in_memory; sleep = λ d s. (ok tt, record s { now = s.now + d }) };
  cfg = config;
  zstd = plain;
  epoch = 1;
  run_id = 114 ∷ [];
}

abbrev first : State
first = (try_append config ((1 ∷ 2 ∷ []) ∷ []) [] new_state).1

abbrev second : State
second = (try_append config ((3 ∷ []) ∷ (4 ∷ []) ∷ []) (5 ∷ []) first).1

second-Reach : Reach config [] second
second-Reach = steps (steps starts (appends _ _ [] new_state)) (appends _ _ [] first)

Reach-Accounted_example : Accounted [] second
Reach-Accounted_example = Reach-Accounted config second-Reach

Reach-Bounded_example : Bounded config second
Reach-Bounded_example = Reach-Bounded config second-Reach

abbrev world : InMemory
world = new_in_memory 0

flush-Reach_example :
    let (_, (s', _)) = flush setup 1700 second world in
    Reach config [] s'
    × (s'.pending ≡ [])
    × (told s'.resolved ≡ upto second.next_waiter)
    × (s'.in_flight_bytes ≡ 0)
    × (s'.in_flight_count ≡ 0)
flush-Reach_example = flush-Reach setup 1700 second world second-Reach

close-Drained_example :
    let (r, ((once, s'), w')) = close setup 1700 (none, second) world in
    Drained setup second.next_waiter (r, ((once, s'), w'))
    × (close setup 1800 (once, s') world ≡ (r, ((once, s'), world)))
close-Drained_example = close-Drained setup 1700 1800 second world world second-Reach

abbrev shut : State
shut = record second { halted_by = some fenced }

abbrev drained : State
drained = (take_pending shut).1

Later-try_append_example :
    (drained.next_waiter ≡ shut.next_waiter)
    × ((e : Error) × ((try_append config ((6 ∷ []) ∷ []) [] drained).0 ≡ some (err e)))
    × ((try_append config ((6 ∷ []) ∷ []) [] drained).1 ≡ drained)
Later-try_append_example =
    Later-try_append config ((6 ∷ []) ∷ []) [] (then_step now (takes shut)) (inr (fenced, refl))
