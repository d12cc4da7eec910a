-- ===== src/Cmd/Stream/Producer.antt =====
-- cmd/stream/producer.go: the producer of the demo. What the program prints is not modelled.
pub mod Streamed
pub mod Complete
use objwal.Prelude.{
  ℕ, zero, suc, ◌+◌, ◌%◌, ◌^◌, Bool, true, false, ◌||◌, List, [], ◌∷◌, Option, none, some, length,
  ltb, leb, bytes_eq, if◌then◌else◌,
}
use objwal.Prelude.Slices.{slice}
use objwal.Error.{
  Result, ok, err, Error, wrap, wrapped, invalid, row_encode, row_append, durability_wait,
  producer_new, csv_empty, context_canceled, is_canceled, panicked, out_of_fuel, ◌>>=◌,
}
use objwal.Std.LittleEndian.{Bytes}
use objwal.ObjectStore.{Eff}
use objwal.Wal.Entry.{u64_mod}
use objwal.Wal.Segment.{Compression, compression_none, compression_zstd}
use objwal.Wal.Producer.Types.{SeqRange, Config}
use objwal.Cmd.Stream.Schema.{Review}
use objwal.Cmd.Stream.Config.{StreamConfig, zstd_name}

-- A `*wal.Producer` as the program uses it, with what a `*wal.Durability` is.
pub record Publisher (W D : Type 0) : Type 0 where
  pub append_to_log : List Bytes → Eff W D
  pub await_range : D → Eff W SeqRange
  pub close_log : Eff W (Unit {0})

-- The context: whether it has ended, and the wait for a duration or for its end, which is an error.
pub record Waiting (W : Type 0) : Type 0 where
  pub ended : W → Bool
  pub pause_for : ℕ → Eff W (Unit {0})

unfoldable pub encode_batch : (Review → Result Bytes) → List Review → Result (List Bytes)
encode_batch encode [] = ok []
encode_batch encode (r ∷ rows) =
    wrapped row_encode (encode r) >>= λ b. encode_batch encode rows >>= λ bs. ok (b ∷ bs)

-- The end of the batch from the row `i` on; none if the slice of the batch would be of a negative
-- length.
unfoldable pub batch_end : StreamConfig → List Review → ℕ → Option ℕ
batch_end c rows i =
    let next = (i + c.batch_size) % u64_mod in
    if leb (2 ^ 63) next || ltb next i
    then none
    else some (if ltb (length rows) next then length rows else next)

-- `AppendDelay > 0`
unfoldable pub delays : StreamConfig → Bool
delays c = if ltb 0 c.append_delay then ltb c.append_delay (2 ^ 63) else false

module _ {W D : Type 0} (p : Publisher W D) (ctx : Waiting W) (encode : Review → Result Bytes)
    (c : StreamConfig) where
  unfoldable pub after_pause :
      (W → Result (Unit {0}) × W) → Result (Unit {0}) × W → Result (Unit {0}) × W
  after_pause more (err e, w) = (err context_canceled, w)
  after_pause more (ok _, w) = more w

  unfoldable pub after_range :
      (W → Result (Unit {0}) × W) → Result SeqRange × W → Result (Unit {0}) × W
  after_range more (err e, w) = (err (wrap durability_wait e), w)
  after_range more (ok _, w) =
      if delays c then after_pause more (ctx.pause_for c.append_delay w) else more w

  unfoldable pub after_append : (W → Result (Unit {0}) × W) → Result D × W → Result (Unit {0}) × W
  after_append more (err e, w) = (err (wrap row_append e), w)
  after_append more (ok d, w) = after_range more (p.await_range d w)

  unfoldable pub append_batch :
      (W → Result (Unit {0}) × W) → Result (List Bytes) → W → Result (Unit {0}) × W
  append_batch more (err e) w = (err e, w)
  append_batch more (ok batch) w = after_append more (p.append_to_log batch w)

  -- One round, from the row `i` on; `more` is the next.
  unfoldable pub stream_batch :
      (ℕ → W → Result (Unit {0}) × W) → List Review → ℕ → W → Result (Unit {0}) × W
  stream_batch more rows i w =
      if ctx.ended w then (err context_canceled, w) else elim (batch_end c rows i) [
        | none ↦ (err panicked, w)
        | some end ↦
            append_batch (more ((i + c.batch_size) % u64_mod))
              (encode_batch encode (slice rows i end)) w
      ]

  unfoldable pub stream_from : ℕ → List Review → ℕ → W → Result (Unit {0}) × W
  stream_from zero rows i w = (err out_of_fuel, w)
  stream_from (suc fuel) rows i w =
      let more = stream_from fuel rows in
      if ltb i (length rows) then stream_batch more rows i w else (ok tt, w)

  -- Each round of a positive batch size is at least a row further.
  unfoldable pub stream_pass : List Review → Eff W (Unit {0})
  stream_pass rows w = stream_from (suc (length rows)) rows 0 w

  -- `Close` is deferred, and its error only printed.
  unfoldable pub closing_pass : Result (Unit {0}) × W → Option (Result (Unit {0})) × W
  closing_pass (x, w) = let (_, w') = p.close_log w in (some x, w')

  -- A pass, and the next if the passes are repeated.
  unfoldable pub after_stream_pass :
      (W → Option (Result (Unit {0})) × W) → Result (Unit {0}) × W → Option (Result (Unit {0})) × W
  after_stream_pass more (err e, w) = closing_pass ((if is_canceled e then ok tt else err e), w)
  after_stream_pass more (ok _, w) = if c.loop then more w else closing_pass (ok tt, w)

  -- `none` if it has not returned within `n` passes.
  unfoldable pub stream_passes : ℕ → List Review → W → Option (Result (Unit {0})) × W
  stream_passes zero rows w = (none, w)
  stream_passes (suc n) rows w = after_stream_pass (stream_passes n rows) (stream_pass rows w)

unfoldable pub producer_compression : StreamConfig → Compression
producer_compression c =
    if bytes_eq c.compression zstd_name then compression_zstd else compression_none

-- The fields that the program leaves out are zero.
unfoldable pub producer_config : StreamConfig → Config
producer_config c = record {
  manifest_path = c.manifest_path;
  segment_prefix = c.segment_prefix;
  flush_interval = c.flush_interval;
  flush_bytes = 0;
  compression = producer_compression c;
  legacy_segment_format = false;
  max_in_flight_bytes = 0;
  max_in_flight_batches = 0;
  segment_max_bytes = c.segment_max_bytes;
  manifest_append_batch_size = 0;
  max_claim_attempts = 0;
  upload_max_attempts = 0;
  upload_initial_backoff = 0;
  upload_concurrency = 0;
  manifest_max_attempts = 0;
  manifest_initial_backoff = 0;
  max_commit_conflicts = 0;
}

module _ {W D : Type 0} (ctx : Waiting W) (encode : Review → Result Bytes) (c : StreamConfig)
    (read : Bytes → Result (List Review)) (claim : Config → Eff W (Publisher W D)) where
  unfoldable pub after_claim :
      ℕ → List Review → Result (Publisher W D) × W → Option (Result (Unit {0})) × W
  after_claim n rows (err e, w) = (some (err (wrap producer_new e)), w)
  after_claim n rows (ok p, w) = stream_passes p ctx encode c n rows w

  unfoldable pub after_reviews : ℕ → Result (List Review) → W → Option (Result (Unit {0})) × W
  after_reviews n (err e) w = (some (err e), w)
  after_reviews n (ok []) w = (some (err (invalid csv_empty)), w)
  after_reviews n (ok (r ∷ rows)) w = after_claim n (r ∷ rows) (claim (producer_config c) w)

  -- `runProducer` behind `newStore`, as far as `n` passes; `read` is `readReviews`, and `claim` is
  -- `wal.NewProducer`.
  unfoldable pub run_producer : ℕ → W → Option (Result (Unit {0})) × W
  run_producer n w = after_reviews n (read c.csv) w
