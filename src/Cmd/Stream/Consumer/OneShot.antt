-- ===== src/Cmd/Stream/Consumer/OneShot.antt =====
-- The consumer of the demo without `Follow`: it drains the log into files and draws all of it.
use objwal.Prelude.{
  ℕ, ◌+◌, ◌<◌, ◌≡◌, refl, sym, ap, subst, ◌∙◌, true, List, [], ◌∷◌, ◌++◌, Option, none, some, map,
  length, if◌then◌else◌, arith,
}
use objwal.Error.{Result, ok, err}
use objwal.Std.LittleEndian.{Bytes}
use objwal.ObjectStore.{ObjectStore, Eff}
use objwal.Wal.Segment.{Zstd}
use objwal.Wal.Store.{Loaded, load}
use objwal.Wal.Replica.{Replica}
use objwal.Querystream.Names.{before_last_dot}
use objwal.Querystream.Open.Restart.{no_slash}
use objwal.Querystream.Sink
use objwal.Querystream.Sink.{FileInfo, Sink, SinkEnv, sink_replica, Polled, sink_poll}
use objwal.Querystream.Sink.Buffer.{FilesFrom}
use objwal.Querystream.Duckdbq
use objwal.Querystream.Duckdbq.{
  Query, Database, highest_file, glob_front, sql_string, after_list, visible_high_of, after_query,
  after_view, after_high, run_query,
}
use objwal.Querystream.Duckdbq.Visible.{first_file}
use objwal.Cmd.Stream.Config.{StreamConfig}
use objwal.Cmd.Stream.Consumer.Drain.{Within, drain_log-Drained}
use objwal.Cmd.Stream.Consumer.{
  Frame, Screen, window, query_of, drawn_frame, after_emit_query, emit, after_frame, with_frame,
  emit_after_poll, drain_log, one_shot,
}

module _ {W R : Type 0} (db : Database W R) (engine : Duckdbq.Config) (screen : Screen W R)
    (c : StreamConfig) (fs : List Bytes) (hi : ℕ) (lists : highest_file none fs ≡ some hi)
    (executes : (sql : Bytes) (w : W) → (db.exec sql w).0 ≡ ok tt)
    (answers : (sql : Bytes) (w : W) → (rows : Eff W R) × ((db.rows sql w).0 ≡ ok rows)) where
  after_list-high :
      (d : Result (List Bytes) × W) → d.0 ≡ ok fs → (after_list db engine d).0 ≡ ok (some hi)
  unfolding after_list
  after_list-high (err e, w) h = absurd (cc h)
  after_list-high (ok gs, w) h =
      let same : gs ≡ fs = cc h in ap ok (ap (highest_file none) same ∙ lists)

  after_query-hi :
      (d : Result (Eff W R) × W) (rows : Eff W R)
      → d.0 ≡ ok rows
      → (after_query db engine hi d).0 ≡ ok (rows, hi)
  unfolding after_query
  after_query-hi (err e, w) rows h = absurd (cc h)
  after_query-hi (ok r, w) rows h = let same : r ≡ rows = cc h in ap (λ x. ok (x, hi)) same

  after_view-hi :
      (q : Query) (d : Result (Unit {0}) × W)
      → d.0 ≡ ok tt
      → (rows : Eff W R) × ((after_view db engine q hi d).0 ≡ ok (rows, hi))
  unfolding after_view
  after_view-hi q (err e, w) h = absurd (cc h)
  after_view-hi q (ok u, w) h =
      let (rows, e) = answers q.sql w in (rows, after_query-hi (db.rows q.sql w) rows e)

  after_high-hi :
      (q : Query) (wm : ℕ) (d : Result (Option ℕ) × W)
      → d.0 ≡ ok (some hi)
      → (rows : Eff W R) × ((after_high db engine q wm d).0 ≡ ok (rows, hi))
  unfolding after_high
  after_high-hi q wm (err e, w) h = absurd (cc h)
  after_high-hi q wm (ok none, w) h = absurd (cc h)
  after_high-hi q wm (ok (some high), w) h =
      let same : high ≡ hi = cc h in
      subst
        (λ n. (rows : Eff W R) × ((after_high db engine q wm (ok (some n), w)).0 ≡ ok (rows, hi)))
        (sym same) (after_view-hi q _ (executes _ w))

  after_emit_query-window :
      (wm : ℕ) (d : Result (Eff W R × ℕ) × W) (rows : Eff W R)
      → d.0 ≡ ok (rows, hi)
      → (after_emit_query db engine screen c wm d).0.0
        ≡ window (if c.incremental then wm else c.start_seq) hi
  unfolding after_emit_query drawn_frame
  after_emit_query-window wm (err e, w) rows h = absurd (cc h)
  after_emit_query-window wm (ok (r, high), w) rows h =
      let same : high ≡ hi = cc h in ap (window (if c.incremental then wm else c.start_seq)) same

  emit-window :
      (wm : ℕ) (w : W)
      → (db.strings (glob_front ++ (sql_string engine.read_glob ++ (41 ∷ []))) w).0 ≡ ok fs
      → (emit db engine screen c wm w).0.0 ≡ window (if c.incremental then wm else c.start_seq) hi
  unfolding emit run_query visible_high_of
  emit-window wm w h =
      let (rows, e) = after_high-hi (query_of c) wm _ (after_list-high _ h) in
      after_emit_query-window wm _ rows e

FilesFrom-some :
    (cfg : Sink.Config) (ext : Bytes) (a b : ℕ) (fs : List FileInfo)
    → a < b
    → FilesFrom cfg ext a fs b
    → 0 < length fs
FilesFrom-some cfg ext a b [] h t = absurd (omega (arith, h, t))
FilesFrom-some cfg ext a b (f ∷ fs) h t = omega arith

module _ {W T : Type 0} (env : SinkEnv W T) (cfg : Sink.Config) (zstd : Zstd) (os : ObjectStore W)
    {R : Type 0} (db : Database W R) (engine : Duckdbq.Config) (screen : Screen W R)
    (c : StreamConfig) where
  after_frame-frames :
      (r : Replica) (s : Sink T) (d : (Frame × ℕ) × W)
      → (after_frame env cfg zstd os db engine screen c
          (λ wm' r' s'. ([], (wm', (r', s'))))
          r
          s
          d).0
        ≡ d.0.0 ∷ []
  unfolding after_frame with_frame
  after_frame-frames r s ((f, wm), w) = refl

  emit_after_poll-frames :
      (wm : ℕ) (d : Polled env cfg)
      → (emit_after_poll env cfg zstd os db engine screen c
          (λ wm' r' s'. ([], (wm', (r', s'))))
          wm
          d).0
        ≡ (emit db engine screen c wm d.1.1.1).0.0 ∷ []
  unfolding emit_after_poll
  emit_after_poll-frames wm (_, (r, (s, w))) = after_frame-frames r s _

-- Without a budget of records and with a cap on rows above 0, for a log in the store that does not
-- change, a sink that stands in it, with files whose extension begins with its only '.' and has no
-- '/', and a database that lists those files and answers: if the consumer's polls return no error,
-- what it draws is one window, up to the last sequence of the log, and from the query's start on,
-- or from 0 if it is incremental.
pub one_shot-whole :
    {W T R : Type 0} (env : SinkEnv W T) (cfg : Sink.Config) (zstd : Zstd) (os : ObjectStore W)
    (db : Database W R) (engine : Duckdbq.Config) (screen : Screen W R) (c : StreamConfig)
    (start : ℕ) (l : Loaded) (ext : Bytes) (fuel : ℕ) (r : Replica) (s : Sink T) (w : W)
    → 0 < cfg.max_rows
    → cfg.max_records_per_poll ≡ 0
    → ((s : Sink T) (w : W)
        → (load (sink_replica env cfg zstd os).os cfg.manifest_path (s, w)).0 ≡ ok l)
    → l.exists ≡ true
    → Within env cfg zstd os start l r s
    → start < l.manifest.next_sequence
    → env.ext ≡ 46 ∷ ext
    → no_slash ext ≡ true
    → before_last_dot ext ≡ none
    → ((sql : Bytes) (w : W) → (db.exec sql w).0 ≡ ok tt)
    → ((sql : Bytes) (w : W) → (rows : Eff W R) × ((db.rows sql w).0 ≡ ok rows))
    → let out = drain_log env cfg zstd os db engine screen c fuel r (s, w) in
      (db.strings (glob_front ++ (sql_string engine.read_glob ++ (41 ∷ []))) out.1.1.1).0
        ≡ ok (map (λ f. f.path) out.1.1.0.catalog)
      → (drain_log env cfg zstd os db engine screen c fuel r (s, w)).0.0 ≡ ok tt
      → (hi : ℕ) × (hi + 1 ≡ l.manifest.next_sequence)
        × ((one_shot env cfg zstd os db engine screen c fuel r (s, w)).0
            ≡ window (if c.incremental then 0 else c.start_seq) hi ∷ [])
unfolding one_shot
one_shot-whole env cfg zstd os db engine screen c start l ext fuel r s w m u still there h nonempty
      e plain one_dot executes answers lists good =
    let catalog = (drain_log env cfg zstd os db engine screen c fuel r (s, w)).1.1.0.catalog in
    let drained =
      drain_log-Drained env cfg zstd os start l m u still there db engine screen c fuel r s w h
        good in
    let files = subst (λ x. FilesFrom cfg x start catalog l.manifest.next_sequence) e drained.0 in
    let (hi, high, last) =
      first_file cfg ext plain one_dot l.manifest.next_sequence h.log.holds.next_fits start catalog
        files
        (FilesFrom-some cfg (46 ∷ ext) start l.manifest.next_sequence catalog nonempty files) in
    (
      hi,
      last,
      emit_after_poll-frames env cfg zstd os db engine screen c 0 _
          ∙ ap (λ f. f ∷ []) (emit-window db engine screen c _ hi high executes answers 0 _ lists),
    )
