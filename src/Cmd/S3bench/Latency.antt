-- ===== src/Cmd/S3bench/Latency.antt =====
-- `reportLatency` and `rd` of cmd/s3bench/main.go. A time.Duration is the 64 bits of its two's
-- complement; a latency, the time between two readings of a monotonic clock, is not negative.
pub mod Percentiles
use objwal.Prelude.{
  ℕ, zero, suc, ◌+◌, ◌-◌, ◌*◌, ◌/◌, ◌%◌, ◌^◌, List, [], ◌∷◌, Option, none, some, length, get_elem?,
  ltb, leb, if◌then◌else◌,
}
use objwal.Error.{Result, ok, err, panicked, ◌>>=◌}
use objwal.Wal.Producer.Types.{millisecond}

-- `sort.Slice` by `<`: of equal durations it does not matter which is first.
unfoldable pub inserted : ℕ → List ℕ → List ℕ
inserted d [] = d ∷ []
inserted d (x ∷ xs) = let rest = inserted d xs in if leb d x then d ∷ x ∷ xs else x ∷ rest

unfoldable pub sorted_latencies : List ℕ → List ℕ
sorted_latencies [] = []
sorted_latencies (d ∷ ds) = inserted d (sorted_latencies ds)

unfoldable pub indexed : List ℕ → ℕ → Result ℕ
indexed xs i = elim (get_elem? xs i) [ none ↦ err panicked | some x ↦ ok x ]

-- `scale p n` is `int(p / 100 * float64(n))`.
unfoldable pub percentile : (ℕ → ℕ → ℕ) → List ℕ → ℕ → Result ℕ
percentile scale xs p =
    let idx = scale p (length xs) in indexed xs (if leb (length xs) idx then length xs - 1 else idx)

unfoldable pub latency_sum : List ℕ → ℕ
latency_sum [] = 0
latency_sum (d ∷ ds) = (d + latency_sum ds) % 2 ^ 64

-- The quotient of an int64 by a positive one, toward 0.
unfoldable pub signed_quotient : ℕ → ℕ → ℕ
signed_quotient v n = if ltb v (2 ^ 63) then v / n else (2 ^ 64 - (2 ^ 64 - v) / n) % 2 ^ 64

pub record LatencyReport : Type 0 where
  pub minimum : ℕ
  pub p50 : ℕ
  pub p90 : ℕ
  pub p99 : ℕ
  pub maximum : ℕ
  pub mean : ℕ

-- Of the latencies in order.
unfoldable pub report_of : (ℕ → ℕ → ℕ) → List ℕ → Result LatencyReport
report_of scale xs = indexed xs 0 >>= λ lowest. percentile scale xs 50 >>= λ half.
    percentile scale xs 90 >>= λ most. percentile scale xs 99 >>= λ nearly_all.
    indexed xs (length xs - 1) >>= λ highest. ok (record {
      minimum = lowest;
      p50 = half;
      p90 = most;
      p99 = nearly_all;
      maximum = highest;
      mean = signed_quotient (latency_sum xs) (length xs);
    })

-- Without a sample there is no report.
unfoldable pub report_latency : (ℕ → ℕ → ℕ) → List ℕ → Option (Result LatencyReport)
report_latency scale [] = none
report_latency scale (d ∷ ds) = some (report_of scale (sorted_latencies (d ∷ ds)))

-- `Duration.Round` of a duration that is not negative: halves go up, and the greatest duration
-- stands for what is out of range.
unfoldable round_to : ℕ → ℕ → ℕ
round_to d m =
    let r = d % m in
    if ltb (r + r) m then d - r else if leb (2 ^ 63) (d + (m - r)) then 2 ^ 63 - 1 else d + (m - r)

-- `rd`; a negative duration is below a microsecond.
unfoldable rounded : ℕ → ℕ
rounded d =
    if leb (2 ^ 63) d
    then d
    else if ltb d 1000
    then d
    else if ltb d millisecond
    then round_to d 1000
    else round_to d (100 * 1000)
