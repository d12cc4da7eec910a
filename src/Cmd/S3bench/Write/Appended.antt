-- ===== src/Cmd/S3bench/Write/Appended.antt =====
-- What the benchmark has appended when it returns no error.
use objwal.Prelude.{
  ℕ, zero, suc, ◌+◌, ◌%◌, ◌≡◌, refl, sym, ap, subst, ◌∙◌, List, [], ◌∷◌, ◌++◌, append-nil,
  append_assoc, Option, none, some, length, arith,
}
use objwal.Error.{Result, ok, err}
use objwal.Std.LittleEndian.{Bytes}
use objwal.Wal.Entry.{u64_mod}
use objwal.Wal.Producer.State.{total_length}
use objwal.Cmd.S3bench.Write.{
  BenchProducer, keep_first, parallel, BenchProgress, handle_at, closed_on, after_bench_append,
  append_call, after_bench_close, after_bench_wait, wait_handle, wait_all, after_appends, run_write,
  after_latency_wait, after_latency_append, latency_call, after_latencies, run_write_latency,
}

-- A log of the records appended, in the world.
pub record BenchLogging {W D : Type 0} (p : BenchProducer W D) (log : W → List Bytes) : Type 0 where
  pub append_logs :
      (batch : List Bytes) (w : W) (d : D)
      → (p.append_to_log batch w).0 ≡ ok d
      → log (p.append_to_log batch w).1 ≡ log w ++ batch
  pub wait_keeps : (d : D) (w : W) → log (p.await d w).1 ≡ log w
  pub close_keeps : (w : W) → log (p.close_log w).1 ≡ log w

-- A payload, `n` times.
unfoldable pub repeated : ℕ → Bytes → List Bytes
repeated zero payload = []
repeated (suc n) payload = payload ∷ repeated n payload

repeated-behind :
    (n : ℕ) (payload : Bytes) → repeated n payload ++ payload ∷ [] ≡ repeated (suc n) payload
unfolding repeated
repeated-behind zero payload = refl
repeated-behind (suc n) payload = ap (λ l. payload ∷ l) (repeated-behind n payload)

keep_first-ok :
    {V : Type 0} (x : Result (Unit {0})) (d : Result (Unit {0}) × V)
    → (keep_first x d).0 ≡ ok tt
    → (x ≡ ok tt) × (d.0 ≡ ok tt) × ((keep_first x d).1 ≡ d.1)
unfolding keep_first
keep_first-ok (err e) (rest, v) h = absurd (cc h)
keep_first-ok (ok u) (rest, v) h = (refl, h, refl)

-- If no call fails, what each call takes on by one has been taken on by their number.
parallel-counts :
    {V : Type 0} (I : ℕ → V → Type 0) (call : ℕ → V → Result (Unit {0}) × V)
    → ((i n : ℕ) (v : V) → I n v → (call i v).0 ≡ ok tt → I (suc n) (call i v).1)
    → (order : List ℕ) (n : ℕ) (v : V) → I n v
    → (parallel call order v).0 ≡ ok tt
    → I (n + length order) (parallel call order v).1
unfolding parallel
parallel-counts I call step [] n v h good =
    let e : n ≡ n + 0 = omega arith in subst (λ k. I k v) e h
parallel-counts I call step (i ∷ order) n v h good =
    let (first, rest, same) = keep_first-ok (call i v).0 (parallel call order (call i v).1) good in
    let e : suc n + length order ≡ n + suc (length order) = omega arith in
    subst (λ x. I (n + suc (length order)) x) (sym same)
      (subst (λ k. I k (parallel call order (call i v).1).1) e
        (parallel-counts I call step order (suc n) (call i v).1 (step i n v h first) rest))

module _ {W D : Type 0} (p : BenchProducer W D) (payload : Bytes) (log : W → List Bytes)
    (logging : BenchLogging p log) (base : List Bytes) where
  -- The payload has been appended `n` times, which is what has been counted.
  abbrev pub Written : ℕ → ℕ → W → Type 0
  Written n written w =
      (log w ≡ base ++ repeated n payload) × (written ≡ total_length (repeated n payload) % u64_mod)

  Written-next :
      (n written : ℕ) (w v : W)
      → Written n written w
      → log v ≡ log w ++ payload ∷ []
      → Written (suc n) ((written + length payload) % u64_mod) v
  unfolding repeated total_length
  Written-next n written w v (h, k) e = (
    e
        ∙ ap (λ l. l ++ payload ∷ []) h
        ∙ append_assoc base (repeated n payload) (payload ∷ [])
        ∙ ap (λ l. base ++ l) (repeated-behind n payload),
    omega (arith, k),
  )

  after_bench_append-Written :
      (i n : ℕ) (s : BenchProgress D) (w : W) (d : Result D × W)
      → Written n s.written w
      → ((x : D) → d.0 ≡ ok x → log d.1 ≡ log w ++ payload ∷ [])
      → (after_bench_append p payload i s d).0 ≡ ok tt
      → let out = (after_bench_append p payload i s d).1 in Written (suc n) out.0.written out.1
  unfolding after_bench_append
  after_bench_append-Written i n s w (err e, v) h k good = absurd (cc good)
  after_bench_append-Written i n s w (ok d, v) h k good = Written-next n s.written w v h (k d refl)

  append_call-Written :
      (i n : ℕ) (s : BenchProgress D × W)
      → Written n s.0.written s.1
      → (append_call p payload i s).0 ≡ ok tt
      → let out = (append_call p payload i s).1 in Written (suc n) out.0.written out.1
  unfolding append_call
  append_call-Written i n (s, w) h good =
      after_bench_append-Written i n s w (p.append_to_log (payload ∷ []) w) h
        (λ d e. logging.append_logs (payload ∷ []) w d e) good

  after_bench_close-Written :
      (n written out : ℕ) (d : Result (Unit {0}) × W)
      → Written n written d.1
      → (after_bench_close p payload written d).0 ≡ ok out
      → Written n out (after_bench_close p payload written d).1
  unfolding after_bench_close
  after_bench_close-Written n written out (err e, w) h good = absurd (cc good)
  after_bench_close-Written n written out (ok u, w) h good =
      let same : written ≡ out = cc good in subst (λ x. Written n x w) same h

  after_bench_wait-Written :
      (n out : ℕ) (more : W → Result ℕ × W) (d : Result ℕ × W)
      → ((more d.1).0 ≡ ok out → Written n out (more d.1).1)
      → (after_bench_wait p payload more d).0 ≡ ok out
      → Written n out (after_bench_wait p payload more d).1
  unfolding after_bench_wait closed_on
  after_bench_wait-Written n out more (err e, w) h good = absurd (cc good)
  after_bench_wait-Written n out more (ok seq, w) h good = h good

  wait_handle-Written :
      (n out : ℕ) (d : Option D) (more : W → Result ℕ × W) (w : W)
      → ((v : W) → log v ≡ log w → (more v).0 ≡ ok out → Written n out (more v).1)
      → (wait_handle p payload d more w).0 ≡ ok out
      → Written n out (wait_handle p payload d more w).1
  unfolding wait_handle
  wait_handle-Written n out none more w h good = absurd (cc good)
  wait_handle-Written n out (some d) more w h good =
      after_bench_wait-Written n out more (p.await d w)
        (λ k. h (p.await d w).1 (logging.wait_keeps d w) k) good

  wait_all-Written :
      (n i k out : ℕ) (s : BenchProgress D) (w : W)
      → Written n s.written w
      → (wait_all p payload s i k w).0 ≡ ok out
      → Written n out (wait_all p payload s i k w).1
  unfolding wait_all
  wait_all-Written n i zero out s w (h, c) good =
      after_bench_close-Written n s.written out (p.close_log w) (logging.close_keeps w ∙ h, c) good
  wait_all-Written n i (suc k) out s w (h, c) good =
      wait_handle-Written n out (handle_at i s.durs) (wait_all p payload s (i + 1) k) w
        (λ v same. wait_all-Written n (i + 1) k out s v (same ∙ h, c)) good

  after_appends-Written :
      (n count out : ℕ) (d : Result (Unit {0}) × (BenchProgress D × W))
      → (d.0 ≡ ok tt → Written n d.1.0.written d.1.1)
      → (after_appends p payload count d).0 ≡ ok out
      → Written n out (after_appends p payload count d).1
  unfolding after_appends closed_on
  after_appends-Written n count out (err e, (s, w)) h good = absurd (cc good)
  after_appends-Written n count out (ok u, (s, w)) h good =
      wait_all-Written n 0 count out s w (h refl) good

  after_latency_wait-Written :
      (n written : ℕ) (w : W) (d : Result ℕ × W)
      → Written n written w
      → log d.1 ≡ log w ++ payload ∷ []
      → (after_latency_wait p payload written d).0 ≡ ok tt
      → let out = (after_latency_wait p payload written d).1 in Written (suc n) out.0 out.1
  unfolding after_latency_wait
  after_latency_wait-Written n written w (err e, v) h k good = absurd (cc good)
  after_latency_wait-Written n written w (ok seq, v) h k good = Written-next n written w v h k

  after_latency_append-Written :
      (n written : ℕ) (w : W) (d : Result D × W)
      → Written n written w
      → ((x : D) → d.0 ≡ ok x → log d.1 ≡ log w ++ payload ∷ [])
      → (after_latency_append p payload written d).0 ≡ ok tt
      → let out = (after_latency_append p payload written d).1 in Written (suc n) out.0 out.1
  unfolding after_latency_append
  after_latency_append-Written n written w (err e, v) h k good = absurd (cc good)
  after_latency_append-Written n written w (ok d, v) h k good =
      after_latency_wait-Written n written w (p.await d v) h (logging.wait_keeps d v ∙ k d refl)
        good

  after_latencies-Written :
      (n out : ℕ) (d : Result (Unit {0}) × (ℕ × W))
      → (d.0 ≡ ok tt → Written n d.1.0 d.1.1)
      → (after_latencies p payload d).0 ≡ ok out
      → Written n out (after_latencies p payload d).1
  unfolding after_latencies closed_on
  after_latencies-Written n out (err e, (s, w)) h good = absurd (cc good)
  after_latencies-Written n out (ok u, (written, w)) h good =
      let (k, c) = h refl in
      after_bench_close-Written n written out (p.close_log w) (logging.close_keeps w ∙ k, c) good

  from_nothing : (w : W) → log w ≡ base → Written 0 0 w
  unfolding repeated total_length
  from_nothing w h = (h ∙ sym (append-nil base), refl)

  -- Over a producer that logs what it accepts, in whichever order the workers' calls take effect:
  -- either mode of the write, if it returns no error, has appended the payload as many times as
  -- there are calls, and what it reports as written is the size of that, as far as 64 bits hold it.
  pub run_write-Written :
      (count : ℕ) (order : List ℕ) (w : W)
      → log w ≡ base
      → ((out : ℕ)
          → (run_write p payload count order w).0 ≡ ok out
          → Written (length order) out (run_write p payload count order w).1)
        × ((out : ℕ)
            → (run_write_latency p payload order w).0 ≡ ok out
            → Written (length order) out (run_write_latency p payload order w).1)
  unfolding run_write run_write_latency latency_call
  run_write-Written count order w h =
      let e : 0 + length order ≡ length order = omega arith in
      (
        λ out good.
            subst (λ n. Written n out (run_write p payload count order w).1) e
              (after_appends-Written (0 + length order) count out _
                (parallel-counts (λ n s. Written n s.0.written s.1) (append_call p payload)
                  (λ i n s k. append_call-Written i n s k) order 0 _ (from_nothing w h))
                good),
        λ out good.
            subst (λ n. Written n out (run_write_latency p payload order w).1) e
              (after_latencies-Written (0 + length order) out _
                (parallel-counts (λ n s. Written n s.0 s.1) (latency_call p payload)
                  (λ i n (written, w) k.
                    after_latency_append-Written n written w _ k
                      (λ d e. logging.append_logs (payload ∷ []) w d e))
                  order 0 _ (from_nothing w h))
                good),
      )
