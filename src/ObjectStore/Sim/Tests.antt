-- ===== src/ObjectStore/Sim/Tests.antt =====
-- A put whose answer is always lost, over the store in memory.
use objwal.Prelude.{ℕ, ◌^◌, ◌⊎◌, refl, [], ◌∷◌}
use objwal.Error.{ok}
use objwal.ObjectStore.{PutOptions, put_create, Eff}
use objwal.ObjectStore.Memory.{InMemory, new_in_memory, in_memory}
use objwal.ObjectStore.Sim.{Sim, Faults, SimStats, sim_put_opts}
use objwal.ObjectStore.Sim.Outcomes.{Untried, Executed, sim_put_opts-Executed}

abbrev losing : Faults
losing = record {
  fail_clean = 0;
  fail_ambiguous = 2 ^ 53;
  slow_ambiguous = 0;
  slow_delay = 0;
  corrupt_reads = 0;
  latency = 0;
  latency_jitter = 0;
  key_substring = [];
}

abbrev no_stats : SimStats
no_stats = record {
  gets = 0;
  puts = 0;
  cas_failures = 0;
  deletes = 0;
  clean_faults = 0;
  ambiguous_faults = 0;
  slow_faults = 0;
  corrupted = 0;
}

abbrev start : Sim InMemory
start = record { inner = new_in_memory 0; rng = 42; stats = no_stats }

abbrev no_sleep : ℕ → Eff InMemory (Unit {0})
no_sleep d w = (ok tt, w)

abbrev creating : PutOptions
creating = record { mode = put_create; version = record { etag = []; version = [] } }

sim_put_opts-Executed_example :
    Untried start.inner (sim_put_opts in_memory no_sleep losing (107 ∷ []) (1 ∷ []) creating start)
    ⊎ Executed
        (in_memory.put_opts (107 ∷ []) (1 ∷ []) creating)
        start.inner
        (sim_put_opts in_memory no_sleep losing (107 ∷ []) (1 ∷ []) creating start)
sim_put_opts-Executed_example =
    sim_put_opts-Executed in_memory no_sleep losing (λ d w. refl) (107 ∷ []) (1 ∷ []) creating start
