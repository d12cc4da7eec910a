-- ===== src/Querystream/Duckdbq/Stream.antt =====
-- querystream/duckdbq/stream.go: a trigger of a continuous query, and the goroutine over what its
-- select receives. The channel of results is the
-- world's, which a cancelled context makes fail; a pooled slice is what it holds.
use objwal.Prelude.{
  ℕ, List, ◌∷◌, ◌+◌, ◌%◌, Bool, true, false, [], Option, none, some, ltb, bytes_eq, if◌then◌else◌,
}
use objwal.Error.{
  Result, ok, err, Error, invalid, wrap, stream_view, stream_query, no_query, no_watermark,
}
use objwal.ObjectStore.{Eff}
use objwal.Wal.Entry.{u64_mod}
use objwal.Querystream.Duckdbq.{
  Mode, incremental, cumulative, Config, Query, resolve_window, build_view_sql, Database,
  visible_high_of,
}
use objwal.Querystream.Duckdbq.Watermark.{WatermarkStore}

-- `Result`: the watermark and the rows.
pub record Emitted (R : Type 0) : Type 0 where
  pub high : ℕ
  pub rows : R

-- The checks of `Stream` that its parameters can fail.
unfoldable check_stream : {W : Type 0} → Query → Option (WatermarkStore W) → Result (Unit {0})
check_stream q store = if bytes_eq q.sql [] then err (invalid no_query) else elim q.mode [
  | cumulative ↦ ok tt
  | incremental ↦ elim store [ none ↦ err (invalid no_watermark) | some _ ↦ ok tt ]
]

module _ {W R : Type 0} (db : Database W R) (cfg : Config) (q : Query) (store : WatermarkStore W)
    (emit : Emitted R → Eff W (Unit {0})) where
  unfoldable pub after_commit : Emitted R → Result (Unit {0}) × W → Result (Unit {0}) × W
  after_commit out (err e, w) = (err e, w)
  after_commit out (ok _, w) = emit out w

  -- An incremental query commits the watermark before it delivers.
  unfoldable pub commit_and_emit : Mode → ℕ → Emitted R → W → Result (Unit {0}) × W
  commit_and_emit cumulative prev out w = emit out w
  commit_and_emit incremental prev out w =
      after_commit out (store.save_cas prev ((out.high + 1) % u64_mod) w)

  unfoldable pub after_scan : ℕ → ℕ → Result R × W → Result (Unit {0}) × W
  after_scan prev hi (err e, w) = (err e, w)
  after_scan prev hi (ok rows, w) =
      commit_and_emit q.mode prev (record { high = hi; rows = rows }) w

  unfoldable pub after_stream_query : ℕ → ℕ → Result (Eff W R) × W → Result (Unit {0}) × W
  after_stream_query prev hi (err e, w) = (err (wrap stream_query e), w)
  after_stream_query prev hi (ok scan, w) = after_scan prev hi (scan w)

  unfoldable pub after_stream_view : ℕ → ℕ → Result (Unit {0}) × W → Result (Unit {0}) × W
  after_stream_view prev hi (err e, w) = (err (wrap stream_view e), w)
  after_stream_view prev hi (ok _, w) = after_stream_query prev hi (db.rows q.sql w)

  unfoldable pub trigger_window : ℕ → ℕ → W → Result (Unit {0}) × W
  trigger_window prev hi w =
      after_stream_view prev hi
        (db.exec (build_view_sql cfg (resolve_window q prev cfg.bucket_size) hi) w)

  unfoldable pub after_watermark : ℕ → Result (ℕ × Bool) × W → Result (Unit {0}) × W
  after_watermark hi (err e, w) = (err e, w)
  after_watermark hi (ok (prev, _), w) =
      if ltb hi prev then (ok tt, w) else trigger_window prev hi w

  unfoldable pub trigger_from : Mode → ℕ → W → Result (Unit {0}) × W
  trigger_from cumulative hi w = trigger_window 0 hi w
  trigger_from incremental hi w = after_watermark hi (store.load w)

  unfoldable pub after_stream_high : Result (Option ℕ) × W → Result (Unit {0}) × W
  after_stream_high (err e, w) = (err e, w)
  after_stream_high (ok none, w) = (ok tt, w)
  after_stream_high (ok (some hi), w) = trigger_from q.mode hi w

  -- `streamTrigger`
  unfoldable pub stream_trigger : Eff W (Unit {0})
  stream_trigger w = after_stream_high (visible_high_of db cfg w)

-- What the select of the goroutine receives.
pub data Received : Type 0 where
  notified notify_closed context_done : Received

-- Whether the goroutine goes on, or has closed its channels, with an error sent or without.
pub data Streaming : Type 0 where
  running ended : Streaming
  failed : Error → Streaming

-- An error is not sent once the context has ended.
unfoldable pub sent_unless : Bool → Error → Streaming
sent_unless true e = ended
sent_unless false e = failed e

module _ {W R : Type 0} (db : Database W R) (cfg : Config) (q : Query) (store : WatermarkStore W)
    (emit : Emitted R → Eff W (Unit {0})) (ctx_ended : W → Bool) where
  unfoldable pub after_trigger : (W → Streaming × W) → Result (Unit {0}) × W → Streaming × W
  after_trigger more (err e, w) = (sent_unless (ctx_ended w) e, w)
  after_trigger more (ok _, w) = more w

  -- The goroutine of `Stream`.
  unfoldable pub run_stream : List Received → W → Streaming × W
  run_stream [] w = (running, w)
  run_stream (notify_closed ∷ more) w = (ended, w)
  run_stream (context_done ∷ more) w = (ended, w)
  run_stream (notified ∷ more) w =
      after_trigger (run_stream more) (stream_trigger db cfg q store emit w)
