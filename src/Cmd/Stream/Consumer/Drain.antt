-- ===== src/Cmd/Stream/Consumer/Drain.antt =====
-- The consumer of the demo without `Follow` drains the log into files.
use objwal.Prelude.{
  ℕ, zero, suc, ◌^◌, ◌≤◌, ◌<◌, ◌≡◌, refl, sym, ap, subst, ◌∙◌, true, inl, inr, [], ◌==◌, Bool-cases,
  if◌then◌else◌, arith,
}
use objwal.Error.{ok, err}
use objwal.ObjectStore.{ObjectStore}
use objwal.Wal.Segment.{Zstd}
use objwal.Wal.Store.{Loaded, load}
use objwal.Wal.Replica.{Replica, poll}
use objwal.Wal.Replica.Tailing.{AnyRecord}
use objwal.Wal.Replica.Follow.{Log, later-Log, poll-nothing}
use objwal.Querystream.Sink
use objwal.Querystream.Sink.{
  FileInfo, Sink, SinkEnv, sink_replica, Polled, sink_poll, replica_config, finish_poll, after_poll,
}
use objwal.Querystream.Sink.Buffer.{FilesFrom, Tiled}
use objwal.Querystream.Sink.Ingest.{At, sink_poll-Ingested, sink_poll-next, sink_poll-whole}
use objwal.Querystream.Duckdbq
use objwal.Querystream.Duckdbq.{
  Query, Database, highest_file, glob_front, sql_string, after_list, visible_high_of, after_query,
  after_view, after_high, run_query,
}
use objwal.Cmd.Stream.Config.{StreamConfig}
use objwal.Cmd.Stream.Consumer.{Screen, after_drain_poll, drain_log}

module _ {W T : Type 0} (env : SinkEnv W T) (cfg : Sink.Config) (zstd : Zstd) (os : ObjectStore W)
    (start : ℕ) (l : Loaded) where
  -- The sink stands at a position of the log.
  pub record Within (r : Replica) (s : Sink T) : Type 0 where
    pub tiled : Tiled cfg env.ext start s r.next
    pub log : Log (sink_replica env cfg zstd os) AnyRecord (At env cfg start) l.manifest r.next
    pub below : r.next ≤ l.manifest.next_sequence

module _ {W T : Type 0} (env : SinkEnv W T) (cfg : Sink.Config) (zstd : Zstd) (os : ObjectStore W)
    (start : ℕ) (l : Loaded) (rows_capped : 0 < cfg.max_rows)
    (unbounded : cfg.max_records_per_poll ≡ 0)
    (still : (s : Sink T) (w : W)
      → (load (sink_replica env cfg zstd os).os cfg.manifest_path (s, w)).0 ≡ ok l)
    (there : l.exists ≡ true) {R : Type 0} (db : Database W R) (engine : Duckdbq.Config)
    (screen : Screen W R) (c : StreamConfig) where
  -- The files hold the sequences from `start` to the end of the log, and no row is buffered.
  abbrev pub Drained : Polled env cfg → Type 0
  Drained out =
      FilesFrom cfg env.ext start out.1.1.0.catalog l.manifest.next_sequence × (out.1.1.0.buf ≡ [])

  sink_poll-Drained :
      (r : Replica) (s : Sink T) (w : W)
      → Within env cfg zstd os start l r s
      → (sink_poll env cfg zstd os r (s, w)).0.0 ≡ ok tt
      → Drained (sink_poll env cfg zstd os r (s, w))
  sink_poll-Drained r s w h good =
      sink_poll-whole env cfg start zstd os r s w l rows_capped unbounded (still s w) there h.log
        h.below h.tiled good

  sink_poll-Within :
      (r : Replica) (s : Sink T) (w : W)
      → Within env cfg zstd os start l r s
      → (sink_poll env cfg zstd os r (s, w)).0.0 ≡ ok tt
      → Within env cfg zstd os start l
          (sink_poll env cfg zstd os r (s, w)).1.0
          (sink_poll env cfg zstd os r (s, w)).1.1.0
  sink_poll-Within r s w h good =
      let to =
        sink_poll-next env cfg start zstd os r s w l unbounded (still s w) there h.log h.below
          good in
      let inside : r.next < 2 ^ 64 = omega (arith, h.below, h.log.holds.next_fits) in
      let polled =
        sink_poll-Ingested env cfg start zstd os r s w rows_capped inside
          (λ l' e _.
            let same : ok l ≡ ok l' = sym (still s w) ∙ e in
            let e' : l ≡ l' = cc same in
            subst
              (λ x.
                Log (sink_replica env cfg zstd os) AnyRecord (At env cfg start) x.manifest r.next)
              e' h.log)
          h.tiled in
      let (stands, _) = polled.good good in
      record {
        tiled = subst (Tiled cfg env.ext start _) stands polled.tiled;
        log = later-Log _ _ _ _ r.next _ (omega (arith, to, h.below)) h.log;
        below = omega (arith, to);
      }

  after_drain_poll-Drained :
      (more : Replica → Sink T × W → Polled env cfg) (d : Polled env cfg)
      → (d.0.0 ≡ ok tt → Drained d)
      → (d.0.0 ≡ ok tt → (more d.1.0 d.1.1).0.0 ≡ ok tt → Drained (more d.1.0 d.1.1))
      → (after_drain_poll env cfg zstd os db engine screen c more d).0.0 ≡ ok tt
      → Drained (after_drain_poll env cfg zstd os db engine screen c more d)
  unfolding after_drain_poll
  after_drain_poll-Drained more ((err e, n), (r, s)) now later good = absurd (cc good)
  after_drain_poll-Drained more ((ok u, n), (r, s)) now later good = elim (Bool-cases (n == 0)) [
    | inl nothing ↦ rw nothing (now refl)
    | inr some_left ↦ rw some_left (later refl (rw some_left at good))
  ]

  pub drain_log-Drained :
      (fuel : ℕ) (r : Replica) (s : Sink T) (w : W)
      → Within env cfg zstd os start l r s
      → (drain_log env cfg zstd os db engine screen c fuel r (s, w)).0.0 ≡ ok tt
      → Drained (drain_log env cfg zstd os db engine screen c fuel r (s, w))
  unfolding drain_log
  drain_log-Drained zero r s w h good = absurd (cc good)
  drain_log-Drained (suc fuel) r s w h good =
      after_drain_poll-Drained (drain_log env cfg zstd os db engine screen c fuel) _
        (λ k. sink_poll-Drained r s w h k)
        (λ k drained. drain_log-Drained fuel _ _ _ (sink_poll-Within r s w h k) drained) good

  after_poll-count : (out : Polled env cfg) → (after_poll env cfg out).0.1 ≡ out.0.1
  unfolding after_poll finish_poll
  after_poll-count ((err e, n), (r, (s, w))) = refl
  after_poll-count ((ok u, n), (r, (s, w))) = refl

  sink_poll-nothing :
      (r : Replica) (s : Sink T) (w : W)
      → Within env cfg zstd os start l r s
      → r.next ≡ l.manifest.next_sequence
      → (sink_poll env cfg zstd os r (s, w)).0.1 ≡ 0
  unfolding sink_poll
  sink_poll-nothing r s w h at_end =
      after_poll-count (poll (sink_replica env cfg zstd os) (replica_config env cfg) r (s, w))
      ∙ poll-nothing (sink_replica env cfg zstd os) (replica_config env cfg) r (s, w) l
          (unfold sink_replica in refl) (still s w) there h.log (omega (arith, at_end))

  after_drain_poll-same :
      (more other : Replica → Sink T × W → Polled env cfg) (d : Polled env cfg)
      → (d.0.0 ≡ ok tt → more d.1.0 d.1.1 ≡ other d.1.0 d.1.1)
      → after_drain_poll env cfg zstd os db engine screen c more d
        ≡ after_drain_poll env cfg zstd os db engine screen c other d
  unfolding after_drain_poll
  after_drain_poll-same more other ((err e, n), (r, s)) h = refl
  after_drain_poll-same more other ((ok u, n), (r, s)) h =
      ap (λ x. if n == 0 then ((ok u, n), (r, s)) else x) (h refl)

  after_drain_poll-stops :
      (more other : Replica → Sink T × W → Polled env cfg) (d : Polled env cfg)
      → d.0.1 ≡ 0
      → after_drain_poll env cfg zstd os db engine screen c more d
        ≡ after_drain_poll env cfg zstd os db engine screen c other d
  unfolding after_drain_poll
  after_drain_poll-stops more other ((err e, n), (r, s)) h = refl
  after_drain_poll-stops more other ((ok u, n), (r, s)) h = rw h refl

  -- Without a budget of records and with a cap on rows above 0, for a log in the store that does not
  -- change and a sink that stands in it, the loop of the drain returns within two polls: with more
  -- fuel it returns the same.
  pub drain_log-ends :
      (fuel : ℕ) (r : Replica) (s : Sink T) (w : W)
      → Within env cfg zstd os start l r s
      → drain_log env cfg zstd os db engine screen c (suc (suc fuel)) r (s, w)
        ≡ drain_log env cfg zstd os db engine screen c 2 r (s, w)
  unfolding drain_log
  drain_log-ends fuel r s w h =
      after_drain_poll-same _ _ (sink_poll env cfg zstd os r (s, w)) (λ good.
        after_drain_poll-stops _ _ _ (
          sink_poll-nothing _ _ _ (sink_poll-Within r s w h good) (
            sink_poll-next env cfg start zstd os r s w l unbounded (still s w) there h.log h.below
              good)))
