-- ===== src/Cmd/S3bench/Tests.antt =====
-- The benchmark over a producer that logs, and over a store of one segment.
use objwal.Prelude.{ℕ, zero, suc, ◌≡◌, refl, [], ◌∷◌, ◌<◌, arith}
use objwal.Error.{ok}
use objwal.Std.LittleEndian.{Bytes}
use objwal.Wal.Store.{load}
use objwal.Wal.Replica.{Record, record_of, record_sequence, group_meta_for}
use objwal.Wal.Replica.Fixture
use objwal.Wal.Replica.Fixture.{
  plain, one_log, manifest_path, manifest_loaded, loaded-object_at, loaded-Holds, object_at_sized,
}
use objwal.Wal.Replica.Follow.{Log}
use objwal.Cmd.S3bench.Read.{Tally, bench_env, run_read}
use objwal.Cmd.S3bench.Read.Whole.{Tallied, IsAt, WholeTally, run_read-whole}

abbrev contents_at : ℕ → Bytes
contents_at zero = 7 ∷ []
contents_at (suc n) = 8 ∷ []

abbrev log_at : ℕ → Record
log_at n = record { sequence = n; group_meta = []; contents = contents_at n }

abbrev IsLogged : Record → Type 0
IsLogged = IsAt {W = ℕ} plain one_log manifest_path log_at

abbrev IsTallied : ℕ → Tally × ℕ → Type 0
IsTallied = Tallied {W = ℕ} plain one_log manifest_path log_at

bench-Log : Log (bench_env {W = ℕ} plain one_log) IsLogged IsTallied manifest_loaded.manifest 0
unfolding bench_env record_of record_sequence group_meta_for
bench-Log = record {
  first = 0;
  log = Fixture.entry ∷ [];
  holds = loaded-Holds manifest_loaded loaded-object_at;
  not_before = omega arith;
  sized = (λ n v res records _ h k. object_at_sized IsLogged res records refl refl h k, tt);
}

still_loaded :
    (t : Tally) (w : ℕ)
    → (load (bench_env {W = ℕ} plain one_log).os manifest_path (t, w)).0 ≡ ok manifest_loaded
unfolding bench_env load
still_loaded t w = loaded-object_at

run_read-whole_example :
    (run_read {W = ℕ} plain one_log manifest_path 5 0
      ≡ run_read {W = ℕ} plain one_log manifest_path 2 0)
    × ((t : Tally)
        → (run_read {W = ℕ} plain one_log manifest_path 2 0).0 ≡ ok t
        → WholeTally {W = ℕ} plain one_log manifest_path log_at manifest_loaded still_loaded refl t
          × (0 < t.read_records))
run_read-whole_example =
    run_read-whole plain one_log manifest_path log_at manifest_loaded still_loaded refl 3 0
      bench-Log
