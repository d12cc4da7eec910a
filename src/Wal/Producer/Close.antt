-- ===== src/Wal/Producer/Close.antt =====
-- `NewProducer` and `Close` of wal/producer.go, the latter when the run loop has
-- ended its last flush; and `run`, which flushes at each tick or signal until it is stopped.
pub mod Final
use objwal.Prelude.{ℕ, List, [], ◌∷◌, Option, none, some, true}
use objwal.Error.{Result, ok, err, halted}
use objwal.Std.LittleEndian.{Bytes}
use objwal.Wal.Segment.{Zstd}
use objwal.Wal.Producer.Types.{Config, with_defaults}
use objwal.Wal.Producer.Backoff.{Env}
use objwal.Wal.Producer.Claim.{claim}
use objwal.Wal.Producer.State.{State, new_state, halt}
use objwal.Wal.Producer.Flush.{Setup, flush}

-- `closeOnce` and `closeErr`: the result of the first Close.
abbrev pub Once : Type 0
Once = Option (Result (Unit {0}))

-- `NewProducer` behind the claim.
unfoldable claimed_setup :
    {W : Type 0} → Env W → Config → Zstd → Bytes → Result ℕ × W → Result (Setup W × State) × W
claimed_setup env cfg zstd run_id (err e, w) = (err e, w)
claimed_setup env cfg zstd run_id (ok epoch, w) = (
  ok (record { env = env; cfg = cfg; zstd = zstd; epoch = epoch; run_id = run_id }, new_state),
  w,
)

unfoldable new_producer :
    {W : Type 0} → Env W → Config → Zstd → Bytes → W → Result (Setup W × State) × W
new_producer env cfg zstd run_id w =
    claimed_setup env (with_defaults cfg) zstd run_id (claim env (with_defaults cfg) w)

module _ {W : Type 0} (p : Setup W) where
  unfoldable pub after_drain :
      Result (Unit {0}) × (State × W) → Result (Unit {0}) × ((Once × State) × W)
  after_drain (r, (s, w)) = (r, ((some r, halt halted s), w))

  unfoldable pub close : ℕ → Once × State → W → Result (Unit {0}) × ((Once × State) × W)
  close now_ms (some r, s) w = (r, ((some r, s), w))
  close now_ms (none, s) w =
      after_drain (flush p now_ms (record s { closing = true; stopped = true }) w)

  -- The flushes of the run loop, at the times `ticks`.
  unfoldable pub run : List ℕ → State → W → State × W
  run [] s w = (s, w)
  run (now_ms ∷ ticks) s w = let (_, (s', w')) = flush p now_ms s w in run ticks s' w'
