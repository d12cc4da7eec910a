-- ===== src/Cmd/Stream/Tests.antt =====
-- The demo over a producer that logs, and over a store of one segment.
use objwal.Prelude.{ℕ, ◌+◌, ◌≡◌, refl, inl, true, false, List, [], ◌∷◌, ◌++◌, map, arith}
use objwal.Error.{ok}
use objwal.Std.LittleEndian.{Bytes}
use objwal.Wal.Replica.Run.{ticked, cancelled}
use objwal.Wal.Replica.Fixture.{plain, one_log, manifest_loaded}
use objwal.Wal.Manifest.{manifest_of}
use objwal.Wal.Store.{load}
use objwal.Wal.Replica.Fixture.{manifest_path, loaded-object_at}
use objwal.Querystream.Names.{before_last_dot}
use objwal.Querystream.Open.Restart.{no_slash}
use objwal.Querystream.Duckdbq.{glob_front, sql_string}
use objwal.Querystream.Sink.{Sink, sink_replica}
use objwal.Querystream.Sink.Fixture.{
  ext, config, env, fresh, fresh-Tiled, at_start, fresh-Log, fresh_loaded, fresh_poll, second_poll,
  two_rows,
}
use objwal.Querystream.Duckdbq.{Database}
use objwal.Cmd.Stream.Schema.{Review}
use objwal.Cmd.Stream.Config.{StreamConfig, default_config}
use objwal.Cmd.Stream.Producer.{Publisher, Waiting, stream_pass}
use objwal.Cmd.Stream.Producer.Streamed.{Publishing, Streamed, stream_pass-Streamed}
use objwal.Cmd.Stream.Producer.Complete.{Reliable, stream_pass_complete}
use objwal.Cmd.Stream.Consumer.{
  Screen, window, engine_config, after_drain_poll, drain_log, one_shot, follow_loop,
}
use objwal.Cmd.Stream.Consumer.Frames.{Consecutive, follow_loop-Consecutive}
use objwal.Cmd.Stream.Consumer.Drain.{Within, drain_log-ends}
use objwal.Cmd.Stream.Consumer.OneShot.{one_shot-whole}

-- The world is the log; a handle is nothing.
abbrev publisher : Publisher (List Bytes) (Unit {0})
publisher = record {
  append_to_log = λ batch log. (ok tt, log ++ batch);
  await_range = λ d log. (ok (record { first = 0; count = 1 }), log);
  close_log = λ log. (ok tt, log);
}

abbrev waiting : Waiting (List Bytes)
waiting = record { ended = λ log. false; pause_for = λ n log. (ok tt, log) }

publishing : Publishing publisher waiting (λ log. log)
publishing = record {
  append_logs = λ batch log. inl refl;
  wait_keeps = λ d log. refl;
  pause_keeps = λ n log. refl;
}

reliable : Reliable publisher waiting
reliable = record {
  lives = λ log. refl;
  pauses = λ n log. refl;
  appends = λ batch log h. (tt, refl);
  waits = λ d log. (record { first = 0; count = 1 }, refl);
}

abbrev review : ℕ → Review
review n = record {
  seq = 0;
  index = n;
  review_id = n ∷ [];
  product_name = [];
  rating = 5;
  review_text = [];
}

abbrev reviews : List Review
reviews = review 1 ∷ review 2 ∷ review 3 ∷ []

-- Two rows make a batch.
abbrev by_two : StreamConfig
by_two = record default_config { batch_size = 2 }

stream_pass-Streamed_example :
    Streamed publisher waiting
      (λ r. ok r.review_id)
      by_two
      (λ log. log)
      publishing
      (λ r. r.review_id)
      (λ r. refl)
      reviews
      []
      (stream_pass publisher waiting (λ r. ok r.review_id) by_two reviews [])
stream_pass-Streamed_example =
    stream_pass-Streamed publisher waiting (λ r. ok r.review_id) by_two (λ log. log) publishing
      (λ r. r.review_id) (λ r. refl) reviews [] [] refl

stream_pass_complete_example :
    ((stream_pass publisher waiting (λ r. ok r.review_id) by_two reviews []).0 ≡ ok tt)
    × ((stream_pass publisher waiting (λ r. ok r.review_id) by_two reviews []).1
        ≡ [] ++ map (λ r. r.review_id) reviews)
stream_pass_complete_example =
    stream_pass_complete publisher waiting (λ r. ok r.review_id) by_two reliable (λ r. r.review_id)
      (λ r. refl) (λ log. log) reviews [] publishing (omega arith) (omega arith)

abbrev paths : List Bytes
paths = map (λ f. f.path) two_rows.catalog

-- The database lists the sink's file.
abbrev database : Database ℕ ℕ
database = record {
  exec = λ sql w. (ok tt, w);
  strings = λ sql w. (ok paths, w);
  rows = λ sql w. (ok (λ v. (ok 2, v)), w);
}

abbrev screen : Screen ℕ ℕ
screen = record { draw = λ rows lo hi w. (ok tt, w); draw_waiting = λ wm w. w }

abbrev viewing : StreamConfig
viewing = record default_config { incremental = true; follow = false }

follow_loop-Consecutive_example :
    Consecutive 0
      (follow_loop env config plain one_log database
        (engine_config viewing)
        screen
        viewing
        (ticked ∷ cancelled ∷ [])
        0
        at_start
        (fresh, 0)).0
follow_loop-Consecutive_example =
    follow_loop-Consecutive env config plain one_log database (engine_config viewing) screen viewing
      refl (ticked ∷ cancelled ∷ []) 0 at_start (fresh, 0)

fresh-Within : Within env config plain one_log 0 manifest_loaded at_start fresh
fresh-Within = record {
  tiled = fresh-Tiled;
  log = fresh-Log manifest_loaded fresh_loaded;
  below = omega arith;
}

drained :
    (drain_log env config plain one_log database
      (engine_config viewing)
      screen
      viewing
      2
      at_start
      (fresh, 0)).0.0
    ≡ ok tt
unfolding drain_log after_drain_poll
drained = rw (fresh_poll, second_poll) refl

still_loaded :
    (s : Sink ℕ) (w : ℕ)
    → (load (sink_replica env config plain one_log).os manifest_path (s, w)).0 ≡ ok manifest_loaded
unfolding sink_replica load
still_loaded s w = loaded-object_at

lists_files :
    (database.strings
      (glob_front ++ (sql_string (engine_config viewing).read_glob ++ (41 ∷ [])))
      (drain_log env config plain one_log database
        (engine_config viewing)
        screen
        viewing
        2
        at_start
        (fresh, 0)).1.1.1).0
    ≡ ok (
        map
          (λ f. f.path)
          (drain_log env config plain one_log database
            (engine_config viewing)
            screen
            viewing
            2
            at_start
            (fresh, 0)).1.1.0.catalog)
unfolding drain_log after_drain_poll
lists_files = rw (fresh_poll, second_poll) refl

one_shot-whole_example :
    (hi : ℕ) × (hi + 1 ≡ manifest_loaded.manifest.next_sequence)
    × ((one_shot env config plain one_log database
          (engine_config viewing)
          screen
          viewing
          2
          at_start
          (fresh, 0)).0
        ≡ window 0 hi ∷ [])
unfolding manifest_of
one_shot-whole_example =
    one_shot-whole env config plain one_log database (engine_config viewing) screen viewing 0
      manifest_loaded ext 2 at_start fresh 0 (omega arith) refl still_loaded refl fresh-Within
      (omega arith) refl (unfold no_slash in refl) (unfold before_last_dot in refl) (λ sql w. refl)
      (λ sql w. (_, refl)) lists_files drained

drain_log-ends_example :
    drain_log env config plain one_log database
      (engine_config viewing)
      screen
      viewing
      5
      at_start
      (fresh, 0)
    ≡ drain_log env config plain one_log database
        (engine_config viewing)
        screen
        viewing
        2
        at_start
        (fresh, 0)
drain_log-ends_example =
    drain_log-ends env config plain one_log 0 manifest_loaded (omega arith) refl still_loaded refl
      database (engine_config viewing) screen viewing 3 at_start fresh 0 fresh-Within
