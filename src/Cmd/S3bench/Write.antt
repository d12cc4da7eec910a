-- ===== src/Cmd/S3bench/Write.antt =====
-- `runWrite`, `runWriteLatency` and `parallel` of cmd/s3bench/main.go, behind the producer's claim.
pub mod Appended
use objwal.Prelude.{
  ℕ, zero, suc, ◌+◌, ◌*◌, ◌%◌, ◌^◌, List, [], ◌∷◌, Option, none, some, length, ltb, ◌==◌,
  if◌then◌else◌,
}
use objwal.Error.{Result, ok, err, Error, wrap, panicked, row_append, bench_wait, bench_close}
use objwal.Std.LittleEndian.{Bytes}
use objwal.ObjectStore.{Eff}
use objwal.Wal.Entry.{u64_mod}

-- A `*wal.Producer` as the benchmark uses it, with what a `*wal.Durability` is.
pub record BenchProducer (W D : Type 0) : Type 0 where
  pub append_to_log : List Bytes → Eff W D
  pub await : D → Eff W ℕ
  pub close_log : Eff W (Unit {0})

-- The first error is kept; the calls behind it are still made.
unfoldable pub keep_first :
    {V : Type 0} → Result (Unit {0}) → Result (Unit {0}) × V → Result (Unit {0}) × V
keep_first (err e) (rest, v) = (err e, v)
keep_first (ok u) (rest, v) = (rest, v)

-- `parallel`: each worker makes the next call and keeps its error. `order` is the order in which the
-- calls of the workers take effect, which their number bounds.
unfoldable pub parallel :
    {V : Type 0} → (ℕ → V → Result (Unit {0}) × V) → List ℕ → V → Result (Unit {0}) × V
parallel call [] v = (ok tt, v)
parallel call (i ∷ order) v = let (x, v') = call i v in keep_first x (parallel call order v')

-- `durs`, with what has been set, and `written`.
pub record BenchProgress (D : Type 0) : Type 0 where
  pub durs : List (ℕ × D)
  pub written : ℕ

unfoldable pub handle_at : {D : Type 0} → ℕ → List (ℕ × D) → Option D
handle_at i [] = none
handle_at i ((j, d) ∷ durs) = let rest = handle_at i durs in if j == i then some d else rest

module _ {W D : Type 0} (p : BenchProducer W D) (payload : Bytes) where
  -- The producer is closed, and its error is dropped.
  unfoldable pub closed_on : {A : Type 0} → Error → W → Result A × W
  closed_on e w = let (_, w') = p.close_log w in (err e, w')

  unfoldable pub after_bench_append :
      ℕ → BenchProgress D → Result D × W → Result (Unit {0}) × (BenchProgress D × W)
  after_bench_append i s (err e, w) = (err e, (s, w))
  after_bench_append i s (ok d, w) = (
    ok tt,
    (record { durs = (i, d) ∷ s.durs; written = (s.written + length payload) % u64_mod }, w),
  )

  -- The call of a worker in `runWrite`.
  unfoldable pub append_call : ℕ → BenchProgress D × W → Result (Unit {0}) × (BenchProgress D × W)
  append_call i (s, w) = after_bench_append i s (p.append_to_log (payload ∷ []) w)

  unfoldable pub after_bench_close : ℕ → Result (Unit {0}) × W → Result ℕ × W
  after_bench_close written (err e, w) = (err (wrap bench_close e), w)
  after_bench_close written (ok u, w) = (ok written, w)

  unfoldable pub after_bench_wait : (W → Result ℕ × W) → Result ℕ × W → Result ℕ × W
  after_bench_wait more (err e, w) = closed_on (wrap bench_wait e) w
  after_bench_wait more (ok seq, w) = more w

  -- A handle that was not set is nil.
  unfoldable pub wait_handle : Option D → (W → Result ℕ × W) → W → Result ℕ × W
  wait_handle none more w = (err panicked, w)
  wait_handle (some d) more w = after_bench_wait more (p.await d w)

  -- The loop over `durs`, from the index `i` on, with `n` to go.
  unfoldable pub wait_all : BenchProgress D → ℕ → ℕ → Eff W ℕ
  wait_all s i zero w = after_bench_close s.written (p.close_log w)
  wait_all s i (suc n) w = wait_handle (handle_at i s.durs) (wait_all s (i + 1) n) w

  unfoldable pub after_appends : ℕ → Result (Unit {0}) × (BenchProgress D × W) → Result ℕ × W
  after_appends count (err e, (s, w)) = closed_on (wrap row_append e) w
  after_appends count (ok u, (s, w)) = wait_all s 0 count w

  -- What has been written, of a run of `count` records.
  unfoldable pub run_write : ℕ → List ℕ → Eff W ℕ
  run_write count order w =
      after_appends count (parallel append_call order (record { durs = []; written = 0 }, w))

  unfoldable pub after_latency_wait : ℕ → Result ℕ × W → Result (Unit {0}) × (ℕ × W)
  after_latency_wait written (err e, w) = (err e, (written, w))
  after_latency_wait written (ok seq, w) = (ok tt, ((written + length payload) % u64_mod, w))

  unfoldable pub after_latency_append : ℕ → Result D × W → Result (Unit {0}) × (ℕ × W)
  after_latency_append written (err e, w) = (err e, (written, w))
  after_latency_append written (ok d, w) = after_latency_wait written (p.await d w)

  -- The call of a worker in `runWriteLatency`, but for its clock.
  unfoldable pub latency_call : ℕ → ℕ × W → Result (Unit {0}) × (ℕ × W)
  latency_call i (written, w) = after_latency_append written (p.append_to_log (payload ∷ []) w)

  unfoldable pub after_latencies : Result (Unit {0}) × (ℕ × W) → Result ℕ × W
  after_latencies (err e, (written, w)) = closed_on (wrap row_append e) w
  after_latencies (ok u, (written, w)) = after_bench_close written (p.close_log w)

  unfoldable pub run_write_latency : List ℕ → Eff W ℕ
  run_write_latency order w = after_latencies (parallel latency_call order (0, w))
