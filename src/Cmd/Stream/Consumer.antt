-- ===== src/Cmd/Stream/Consumer.antt =====
-- cmd/stream/consumer.go: the consumer of the demo, which feeds the sink from the log and draws the
-- result of its query. What it prints of errors is not modelled.
pub mod Frames
pub mod Drain
pub mod OneShot
use objwal.Prelude.{
  ℕ, zero, suc, ◌+◌, ◌%◌, ◌&&◌, Bool, true, false, List, [], ◌∷◌, ◌++◌, Option, none, some, ◌==◌,
  if◌then◌else◌,
}
use objwal.Error.{
  Result, ok, err, Error, wrap, cause, no_data, reset_dir, reset_cursor, sink_new, engine_open,
  out_of_fuel,
}
use objwal.Std.LittleEndian.{Bytes}
use objwal.Std.Paths.{path_join}
use objwal.ObjectStore.{ObjectStore, Eff}
use objwal.Wal.Entry.{u64_mod}
use objwal.Wal.Segment.{Zstd}
use objwal.Wal.Replica.{Replica}
use objwal.Wal.Replica.Run.{Wake, ticked, cancelled}
use objwal.Querystream.Sink
use objwal.Querystream.Sink.{Sink, SinkEnv, Polled, sink_poll, with_sink_defaults}
use objwal.Querystream.Open.{new_sink}
use objwal.Querystream.Duckdbq
use objwal.Querystream.Duckdbq.{Mode, Query, Database, open_engine, run_query, seq_word}
use objwal.Cmd.Stream.Config.{StreamConfig}

unfoldable pub is_no_data : Error → Bool
unfolding cause
is_no_data e = elim (cause e) [ no_data ↦ true | _ ↦ false ]

-- `renderer`: a frame of rows over a window of sequences, and one that waits.
pub record Screen (W R : Type 0) : Type 0 where
  pub draw : Eff W R → ℕ → ℕ → Eff W (Unit {0})
  pub draw_waiting : ℕ → W → W

-- What one refresh has put on the screen.
pub data Frame : Type 0 where
  window : ℕ → ℕ → Frame
  held_at : ℕ → Frame
  no_frame : Frame

unfoldable pub sink_config : StreamConfig → Sink.Config
sink_config c = record {
  manifest_path = c.manifest_path;
  start_at = 0;
  dir = c.out_dir;
  bucket_size = c.bucket_size;
  max_rows = c.max_rows;
  max_bytes = 0;
  poll_interval = 0;
  max_records_per_poll = c.ingest_per_tick;
}

-- "seq_bucket=*"
abbrev any_bucket : Bytes
any_bucket = 115 ∷ 101 ∷ 113 ∷ 95 ∷ 98 ∷ 117 ∷ 99 ∷ 107 ∷ 101 ∷ 116 ∷ 61 ∷ 42 ∷ []

-- "*.parquet"
abbrev any_parquet : Bytes
any_parquet = 42 ∷ 46 ∷ 112 ∷ 97 ∷ 114 ∷ 113 ∷ 117 ∷ 101 ∷ 116 ∷ []

unfoldable pub engine_config : StreamConfig → Duckdbq.Config
engine_config c = record {
  read_glob = path_join (path_join c.out_dir any_bucket) any_parquet;
  seq_column = seq_word;
  bucket_size = c.bucket_size;
  dedup = c.dedup;
  view = [];
}

unfoldable pub query_of : StreamConfig → Query
query_of c = record {
  sql = c.sql;
  mode = if c.incremental then Mode.incremental else Mode.cumulative;
  start = c.start_seq;
}

module _ {W R : Type 0} (db : Database W R) (engine : Duckdbq.Config) (screen : Screen W R)
    (c : StreamConfig) where
  unfoldable pub refused_frame : ℕ → Bool → W → (Frame × ℕ) × W
  refused_frame wm true w = ((held_at wm, wm), screen.draw_waiting wm w)
  refused_frame wm false w = ((no_frame, wm), w)

  -- An error of `render` is only printed.
  unfoldable pub drawn_frame : ℕ → Eff W R → ℕ → W → (Frame × ℕ) × W
  drawn_frame wm rows hi w =
      let lo = if c.incremental then wm else c.start_seq in
      let (_, w') = screen.draw rows lo hi w in
      ((window lo hi, if c.incremental then (hi + 1) % u64_mod else wm), w')

  unfoldable pub after_emit_query : ℕ → Result (Eff W R × ℕ) × W → (Frame × ℕ) × W
  after_emit_query wm (err e, w) = refused_frame wm (is_no_data e) w
  after_emit_query wm (ok (rows, hi), w) = drawn_frame wm rows hi w

  -- `emit`: the frame, the watermark that it leaves, and the world.
  unfoldable pub emit : ℕ → W → (Frame × ℕ) × W
  emit wm w = after_emit_query wm (run_query db engine (query_of c) wm w)

module _ {W T R : Type 0} (env : SinkEnv W T) (cfg : Sink.Config) (zstd : Zstd) (os : ObjectStore W)
    (db : Database W R) (engine : Duckdbq.Config) (screen : Screen W R) (c : StreamConfig) where
  -- The frames so far, and the watermark, the replica, the sink and the world.
  abbrev pub Consumed : Type 0
  Consumed = List Frame × (ℕ × (Replica × (Sink T × W)))

  unfoldable pub with_frame : Frame → Consumed → Consumed
  with_frame f (frames, state) = (f ∷ frames, state)

  unfoldable pub after_frame :
      (ℕ → Replica → Sink T × W → Consumed) → Replica → Sink T → (Frame × ℕ) × W → Consumed
  after_frame more r s ((f, wm), w) = with_frame f (more wm r (s, w))

  unfoldable pub emit_after_poll :
      (ℕ → Replica → Sink T × W → Consumed) → ℕ → Polled env cfg → Consumed
  emit_after_poll more wm (_, (r, (s, w))) = after_frame more r s (emit db engine screen c wm w)

  -- The loop of `Follow`, over what its select receives behind each frame: it polls, whatever comes
  -- of it, and draws.
  unfoldable pub follow_loop : List Wake → ℕ → Replica → Sink T × W → Consumed
  follow_loop [] wm r s =
      emit_after_poll (λ wm' r' s'. ([], (wm', (r', s')))) wm (sink_poll env cfg zstd os r s)
  follow_loop (cancelled ∷ wakes) wm r s =
      emit_after_poll (λ wm' r' s'. ([], (wm', (r', s')))) wm (sink_poll env cfg zstd os r s)
  follow_loop (ticked ∷ wakes) wm r s =
      emit_after_poll (follow_loop wakes) wm (sink_poll env cfg zstd os r s)

  -- The loop of polls that ends at an error or at a poll without a record.
  unfoldable pub after_drain_poll :
      (Replica → Sink T × W → Polled env cfg) → Polled env cfg → Polled env cfg
  after_drain_poll more ((err e, n), (r, s)) = ((err e, n), (r, s))
  after_drain_poll more ((ok u, n), (r, s)) = if n == 0 then ((ok u, n), (r, s)) else more r s

  unfoldable pub drain_log : ℕ → Replica → Sink T × W → Polled env cfg
  drain_log zero r s = ((err out_of_fuel, 0), (r, s))
  drain_log (suc fuel) r s = after_drain_poll (drain_log fuel) (sink_poll env cfg zstd os r s)

  -- One result over the whole log.
  unfoldable pub one_shot : ℕ → Replica → Sink T × W → Consumed
  one_shot fuel r s = emit_after_poll (λ wm' r' s'. ([], (wm', (r', s')))) 0 (drain_log fuel r s)

-- What `runConsumer` does to files outside the sink: `os.RemoveAll`, and `os.Remove` with
-- `errors.Is(err, os.ErrNotExist)`.
pub record Removal (W : Type 0) : Type 0 where
  pub remove_all : Bytes → Eff W (Unit {0})
  pub remove_one : Bytes → Eff W (Unit {0})
  pub is_gone : Error → Bool

module _ {W : Type 0} (files : Removal W) (c : StreamConfig) where
  unfoldable pub after_remove_cursor : Result (Unit {0}) × W → Result (Unit {0}) × W
  after_remove_cursor (err e, w) =
      ((if files.is_gone e then ok tt else err (wrap reset_cursor e)), w)
  after_remove_cursor (ok _, w) = (ok tt, w)

  unfoldable pub after_remove_dir : Result (Unit {0}) × W → Result (Unit {0}) × W
  after_remove_dir (err e, w) = (err (wrap reset_dir e), w)
  after_remove_dir (ok _, w) = after_remove_cursor (files.remove_one c.cursor_path w)

  unfoldable pub reset_state : Eff W (Unit {0})
  reset_state w = if c.reset then after_remove_dir (files.remove_all c.out_dir w) else (ok tt, w)

module _ {W T R : Type 0} (files : Removal W) (env : SinkEnv W T) (zstd : Zstd) (os : ObjectStore W)
    (db : Database W R) (screen : Screen W R) (c : StreamConfig) where
  -- `wakes` is what the loop of `Follow` receives, `fuel` bounds the polls of the other.
  unfoldable pub run_opened :
      ℕ
      → List Wake
      → Sink.Config
      → Result Duckdbq.Config
      → Replica
      → Sink T × W
      → Result (List Frame) × W
  run_opened fuel wakes cfg (err e) r (s, w) = (err (wrap engine_open e), w)
  run_opened fuel wakes cfg (ok engine) r s =
      let (frames, (_, (_, (_, w)))) =
        if c.follow
        then follow_loop env cfg zstd os db engine screen c wakes 0 r s
        else one_shot env cfg zstd os db engine screen c fuel r s in
      (ok frames, w)

  unfoldable pub after_new_sink :
      ℕ → List Wake → Result (Sink T × Replica) × W → Result (List Frame) × W
  after_new_sink fuel wakes (err e, w) = (err (wrap sink_new e), w)
  after_new_sink fuel wakes (ok (s, r), w) =
      run_opened fuel wakes (with_sink_defaults (sink_config c)) (open_engine (engine_config c)) r
        (s, w)

  unfoldable pub after_reset : ℕ → List Wake → Result (Unit {0}) × W → Result (List Frame) × W
  after_reset fuel wakes (err e, w) = (err e, w)
  after_reset fuel wakes (ok _, w) = after_new_sink fuel wakes (new_sink env (sink_config c) w)

  -- `runConsumer`, but for `newStore` between the reset and the sink.
  unfoldable pub run_consumer : ℕ → List Wake → Eff W (List Frame)
  run_consumer fuel wakes w = after_reset fuel wakes (reset_state files c w)
