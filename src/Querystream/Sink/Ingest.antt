-- ===== src/Querystream/Sink/Ingest.antt =====
-- One poll of the sink: what its files hold when it returns.
use objwal.Prelude.{
  ℕ, suc, ◌+◌, ◌^◌, ◌≤◌, ◌<◌, ◌≡◌, refl, sym, ap, subst, ◌∙◌, Bool, true, false, [], length, arith,
}
use objwal.Error.{ok, err, Error}
use objwal.ObjectStore.{ObjectStore}
use objwal.Wal.Segment.{Zstd}
use objwal.Wal.Store.{Loaded, load}
use objwal.Wal.Replica.{Replica, save_cursor, poll}
use objwal.Wal.Replica.Tailing.{Ends, Keeps, AnyRecord}
use objwal.Wal.Replica.Follow.{Log, poll-PollEnds, poll-whole}
use objwal.Querystream.Sink.{
  Config, Sink, SinkEnv, sizes, SinkAnswer, flush_buf, flush_one, after_full, drain, sink_replica,
  replica_config, Polled, finish_poll, after_poll, sink_poll,
}
use objwal.Querystream.Sink.Buffer.{FilesFrom, RowsFrom, Tiled}
use objwal.Querystream.Sink.Tiling.{Flushed, flush_one-Flushed, Recorded, on_record-Recorded}

ok_inj : {l l' : Loaded} → ok l ≡ ok l' → l ≡ l'
ok_inj h = cc h

module _ {W T : Type 0} (env : SinkEnv W T) (cfg : Config) (start : ℕ) where
  -- The sink and the world at a position.
  abbrev pub At : ℕ → Sink T × W → Type 0
  At pos (s, w) = Tiled cfg env.ext start s pos × (pos < 2 ^ 64)

  Recorded-Ends :
      (pos : ℕ) (d : SinkAnswer W T (Unit {0}))
      → pos + 1 < 2 ^ 64
      → Recorded env cfg start pos d
      → Ends At (pos + 1) d.0 d.1
  Recorded-Ends pos (x, (s, w)) f h = record {
    at = h.at;
    held = (h.tiled, omega (arith, h.to));
    good = λ k. (h.good k).0;
  }

  sink_replica-Keeps :
      (zstd : Zstd) (os : ObjectStore W)
      → 0 < cfg.max_rows
      → Keeps (sink_replica env cfg zstd os) AnyRecord At
  unfolding sink_replica save_cursor
  sink_replica-Keeps zstd os m = record {
    get_keeps = λ n path (s, w) h. h;
    save_keeps = λ n next w h. h;
    apply_moves = λ n rec (s, w) e f g h.
        Recorded-Ends n _ f (on_record-Recorded env cfg start n rec s w m f e h.0);
  }

  flush_one-empty : (s : Sink T) (w : W) → s.buf ≡ [] → flush_one env cfg s w ≡ (ok false, (s, w))
  unfolding flush_one flush_buf
  flush_one-empty s w h = ap (λ l. flush_buf env cfg l s w) h

  drain-false : (fuel : ℕ) (s : Sink T × W) → drain env cfg fuel (ok false, s) ≡ (ok tt, s)
  unfolding drain
  drain-false fuel s = refl

  -- The loop of flushes writes one file.
  pub drain-after_full :
      (fuel pos : ℕ) (r : SinkAnswer W T Bool)
      → Flushed env cfg start pos r
      → drain env cfg (suc fuel) r ≡ after_full env cfg r
  unfolding drain after_full
  drain-after_full fuel pos (err e, s) h = refl
  drain-after_full fuel pos (ok false, s) h = refl
  drain-after_full fuel pos (ok true, (s, w)) h =
      ap (drain env cfg fuel) (flush_one-empty s w (h.emptied true refl)) ∙ drain-false fuel (s, w)

  -- The files and the rows still tile; without an error there are no rows, and the files end where
  -- the replica stands.
  pub record Ingested (out : Polled env cfg) : Type 0 where
    pub at : ℕ
    pub tiled : Tiled cfg env.ext start out.1.1.0 at
    pub good : out.0.0 ≡ ok tt → (at ≡ out.1.0.next) × (out.1.1.0.buf ≡ [])

  finish_poll-Ingested :
      (n : ℕ) (r : Replica) (d : SinkAnswer W T Bool)
      → Flushed env cfg start r.next d
      → Ingested (finish_poll env cfg n r (after_full env cfg d))
  unfolding finish_poll after_full
  finish_poll-Ingested n r (err e, (s, w)) h = record {
    at = r.next;
    tiled = h.tiled;
    good = λ k. absurd (cc k);
  }
  finish_poll-Ingested n r (ok b, (s, w)) h = record {
    at = r.next;
    tiled = h.tiled;
    good = λ k. (refl, h.emptied b refl);
  }

  after_poll-Ingested :
      (out : Polled env cfg)
      → Ends At out.1.0.next out.0.0 out.1.1
      → Ingested (after_poll env cfg out)
  unfolding after_poll sizes
  after_poll-Ingested ((err e, n), (r, (s, w))) h = record {
    at = s.next_cursor;
    tiled = record {
      files = h.held.0.files;
      rows = refl;
      one_bucket = tt;
      counted = refl;
      high = h.held.0.high;
    };
    good = λ k. absurd (cc k);
  }
  after_poll-Ingested ((ok u, n), (r, (s, w))) h =
      let (t, f) = subst (λ p. At p (s, w)) (h.good refl) h.held in
      let flushed = flush_one-Flushed env cfg start r.next s w f t in
      rw (drain-after_full (length s.buf) r.next (flush_one env cfg s w) flushed)
        (finish_poll-Ingested n r (flush_one env cfg s w) flushed)

  pub sink_poll-Ingested :
      (zstd : Zstd) (os : ObjectStore W) (r : Replica) (s : Sink T) (w : W)
      → 0 < cfg.max_rows
      → r.next < 2 ^ 64
      → ((l : Loaded)
          → (load (sink_replica env cfg zstd os).os cfg.manifest_path (s, w)).0 ≡ ok l
          → l.exists ≡ true
          → Log (sink_replica env cfg zstd os) AnyRecord At l.manifest r.next)
      → Tiled cfg env.ext start s r.next
      → Ingested (sink_poll env cfg zstd os r (s, w))
  unfolding sink_poll
  sink_poll-Ingested zstd os r s w m f source t = after_poll-Ingested _ (
      poll-PollEnds (sink_replica env cfg zstd os) (replica_config env cfg) AnyRecord At
        (sink_replica-Keeps zstd os m) r (s, w) (unfold sink_replica in refl) source (t, f))

  finish_poll-replica :
      (n : ℕ) (r : Replica) (d : SinkAnswer W T (Unit {0})) → (finish_poll env cfg n r d).1.0 ≡ r
  unfolding finish_poll
  finish_poll-replica n r (x, s) = refl

  after_poll-good :
      (out : Polled env cfg)
      → (after_poll env cfg out).0.0 ≡ ok tt
      → (out.0.0 ≡ ok tt) × ((after_poll env cfg out).1.0 ≡ out.1.0)
  unfolding after_poll
  after_poll-good ((err e, n), (r, (s, w))) h = absurd (cc h)
  after_poll-good ((ok u, n), (r, (s, w))) h = (refl, finish_poll-replica n r _)

  Ingested-files :
      (out : Polled env cfg) (b : ℕ)
      → Ingested out
      → out.0.0 ≡ ok tt
      → out.1.0.next ≡ b
      → FilesFrom cfg env.ext start out.1.1.0.catalog b × (out.1.1.0.buf ≡ [])
  Ingested-files out b h good e =
      let (stands, empty) = h.good good in
      let s = out.1.1.0 in
      let cursor : s.next_cursor ≡ h.at =
        subst (λ l. RowsFrom s.next_cursor l h.at) empty h.tiled.rows in
      (subst (FilesFrom cfg env.ext start s.catalog) (cursor ∙ stands ∙ e) h.tiled.files, empty)

  -- A poll without a budget of records that returns no error leaves the replica at the manifest's next sequence.
  pub sink_poll-next :
      (zstd : Zstd) (os : ObjectStore W) (r : Replica) (s : Sink T) (w : W) (l : Loaded)
      → cfg.max_records_per_poll ≡ 0
      → (load (sink_replica env cfg zstd os).os cfg.manifest_path (s, w)).0 ≡ ok l
      → l.exists ≡ true
      → Log (sink_replica env cfg zstd os) AnyRecord At l.manifest r.next
      → r.next ≤ l.manifest.next_sequence
      → (sink_poll env cfg zstd os r (s, w)).0.0 ≡ ok tt
      → (sink_poll env cfg zstd os r (s, w)).1.0.next ≡ l.manifest.next_sequence
  unfolding sink_poll
  sink_poll-next zstd os r s w l unbounded loaded there log le good =
      let rep = sink_replica env cfg zstd os in
      let (polled, same) = after_poll-good (poll rep (replica_config env cfg) r (s, w)) good in
      ap (λ x. x.next) same
      ∙ poll-whole rep (replica_config env cfg) r (s, w) l (unfold sink_replica in refl) loaded
          there log le unbounded polled

  -- Without a budget of records and with a cap on rows above 0, a poll that returns no error has
  -- all of the log in files: for a sink whose files and rows hold the sequences from `start` to the
  -- replica's position, and a manifest in the store that holds a log around that position, in
  -- segments of the right sizes, the files then hold the sequences from `start` to the manifest's
  -- next sequence, one file's range behind another, and no row is buffered.
  pub sink_poll-whole :
      (zstd : Zstd) (os : ObjectStore W) (r : Replica) (s : Sink T) (w : W) (l : Loaded)
      → 0 < cfg.max_rows
      → cfg.max_records_per_poll ≡ 0
      → (load (sink_replica env cfg zstd os).os cfg.manifest_path (s, w)).0 ≡ ok l
      → l.exists ≡ true
      → Log (sink_replica env cfg zstd os) AnyRecord At l.manifest r.next
      → r.next ≤ l.manifest.next_sequence
      → Tiled cfg env.ext start s r.next
      → (sink_poll env cfg zstd os r (s, w)).0.0 ≡ ok tt
      → FilesFrom cfg env.ext start
          (sink_poll env cfg zstd os r (s, w)).1.1.0.catalog
          l.manifest.next_sequence
        × ((sink_poll env cfg zstd os r (s, w)).1.1.0.buf ≡ [])
  sink_poll-whole zstd os r s w l m unbounded loaded there log le t good =
      let rep = sink_replica env cfg zstd os in
      let below : r.next < 2 ^ 64 = omega (arith, le, log.holds.next_fits) in
      Ingested-files (sink_poll env cfg zstd os r (s, w)) l.manifest.next_sequence
        (sink_poll-Ingested zstd os r s w m below
          (λ l' e _.
            subst (λ x. Log rep AnyRecord At x.manifest r.next) (ok_inj (sym loaded ∙ e)) log)
          t)
        good (sink_poll-next zstd os r s w l unbounded loaded there log le good)
