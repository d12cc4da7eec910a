-- ===== src/Cmd/Stream/Consumer/Frames.antt =====
-- The windows that the consumer of the demo draws.
use objwal.Prelude.{ℕ, ◌+◌, ◌%◌, ◌≡◌, refl, true, inl, inr, List, [], ◌∷◌, Bool-cases}
use objwal.Error.{Result, ok, err}
use objwal.ObjectStore.{ObjectStore, Eff}
use objwal.Wal.Entry.{u64_mod}
use objwal.Wal.Segment.{Zstd}
use objwal.Wal.Replica.{Replica}
use objwal.Wal.Replica.Run.{Wake, ticked, cancelled}
use objwal.Querystream.Sink
use objwal.Querystream.Sink.{Sink, SinkEnv, Polled, sink_poll}
use objwal.Querystream.Duckdbq
use objwal.Querystream.Duckdbq.{Database, run_query}
use objwal.Cmd.Stream.Config.{StreamConfig}
use objwal.Cmd.Stream.Consumer.{
  Screen, Frame, window, held_at, no_frame, is_no_data, query_of, refused_frame, drawn_frame,
  after_emit_query, emit, Consumed, with_frame, after_frame, emit_after_poll, follow_loop,
}

-- Each window begins where the one before it has ended, the first at `wm`; a frame that waits shows
-- where that is.
abbrev pub Consecutive : ℕ → List Frame → Type 0
Consecutive wm [] = Unit
Consecutive wm (window lo hi ∷ fs) = (lo ≡ wm) × Consecutive ((hi + 1) % u64_mod) fs
Consecutive wm (held_at at ∷ fs) = (at ≡ wm) × Consecutive wm fs
Consecutive wm (no_frame ∷ fs) = Consecutive wm fs

module _ {W T R : Type 0} (env : SinkEnv W T) (cfg : Sink.Config) (zstd : Zstd) (os : ObjectStore W)
    (db : Database W R) (engine : Duckdbq.Config) (screen : Screen W R) (c : StreamConfig)
    (incremental : c.incremental ≡ true)
    (more : ℕ → Replica → Sink T × W → Consumed env cfg zstd os db engine screen c)
    (go : (wm : ℕ) (r : Replica) (s : Sink T × W) → Consecutive wm (more wm r s).0) where
  after_emit_query-Consecutive :
      (wm : ℕ) (r : Replica) (s : Sink T) (d : Result (Eff W R × ℕ) × W)
      → Consecutive wm
          (after_frame env cfg zstd os db engine screen c more r s
            (after_emit_query db engine screen c wm d)).0
  unfolding after_emit_query drawn_frame refused_frame after_frame with_frame
  after_emit_query-Consecutive wm r s (ok (rows, hi), w) = rw incremental (refl, go _ r _)
  after_emit_query-Consecutive wm r s (err e, w) = elim (Bool-cases (is_no_data e)) [
    | inl waits ↦ rw (waits, refused_frame) (refl, go wm r _)
    | inr fails ↦ rw (fails, refused_frame) (go wm r _)
  ]

  emit_after_poll-Consecutive :
      (wm : ℕ) (d : Polled env cfg)
      → Consecutive wm (emit_after_poll env cfg zstd os db engine screen c more wm d).0
  unfolding emit_after_poll emit
  emit_after_poll-Consecutive wm (_, (r, (s, w))) =
      after_emit_query-Consecutive wm r s (run_query db engine (query_of c) wm w)

-- In incremental mode, however often the consumer polls and draws, and whatever the polls and the
-- queries return: each window that it draws begins one above the last sequence of the window before
-- it, and the first at the watermark that it began with; a frame that waits shows where the next
-- window begins.
pub follow_loop-Consecutive :
    {W T R : Type 0} (env : SinkEnv W T) (cfg : Sink.Config) (zstd : Zstd) (os : ObjectStore W)
    (db : Database W R) (engine : Duckdbq.Config) (screen : Screen W R) (c : StreamConfig)
    → c.incremental ≡ true
    → (wakes : List Wake) (wm : ℕ) (r : Replica) (s : Sink T × W)
    → Consecutive wm (follow_loop env cfg zstd os db engine screen c wakes wm r s).0
unfolding follow_loop
follow_loop-Consecutive env cfg zstd os db engine screen c h [] wm r s =
    emit_after_poll-Consecutive env cfg zstd os db engine screen c h _ (λ _ _ _. tt) wm _
follow_loop-Consecutive env cfg zstd os db engine screen c h (cancelled ∷ wakes) wm r s =
    emit_after_poll-Consecutive env cfg zstd os db engine screen c h _ (λ _ _ _. tt) wm _
follow_loop-Consecutive env cfg zstd os db engine screen c h (ticked ∷ wakes) wm r s =
    emit_after_poll-Consecutive env cfg zstd os db engine screen c h _
      (follow_loop-Consecutive env cfg zstd os db engine screen c h wakes) wm _
