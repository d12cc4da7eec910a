-- ===== src/Querystream/Sink/Run.antt =====
-- `Run` of querystream/sink.go, over what its select receives behind each poll.
use objwal.Prelude.{List, [], ◌∷◌, Option, none, some}
use objwal.Error.{ok, err, Error}
use objwal.ObjectStore.{ObjectStore}
use objwal.Wal.Segment.{Zstd}
use objwal.Wal.Replica.{Replica}
use objwal.Wal.Replica.Run.{Wake, ticked, cancelled, Ran, stopped_by}
use objwal.Querystream.Sink.{Config, Sink, SinkEnv, Polled, sink_poll}

module _ {W T : Type 0} (env : SinkEnv W T) (cfg : Config) (zstd : Zstd) (os : ObjectStore W)
    (ctx_err : W → Option Error) (canceled : Error) where
  abbrev pub Running : Type 0
  Running = Ran (Replica × (Sink T × W))

  unfoldable pub after_sink_poll : (Replica → Sink T × W → Running) → Polled env cfg → Running
  after_sink_poll more ((err e, n), (r, (s, w))) = (some (stopped_by (ctx_err w) e), (r, (s, w)))
  after_sink_poll more ((ok _, n), (r, s)) = more r s

  -- It polls before it waits.
  unfoldable pub run_sink : List Wake → Replica → Sink T × W → Running
  run_sink [] r s = after_sink_poll (λ r' s'. (none, (r', s'))) (sink_poll env cfg zstd os r s)
  run_sink (cancelled ∷ wakes) r s =
      after_sink_poll (λ r' s'. (some canceled, (r', s'))) (sink_poll env cfg zstd os r s)
  run_sink (ticked ∷ wakes) r s = after_sink_poll (run_sink wakes) (sink_poll env cfg zstd os r s)
