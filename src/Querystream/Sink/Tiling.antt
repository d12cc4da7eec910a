-- ===== src/Querystream/Sink/Tiling.antt =====
-- The sink's operations keep its files and its buffer a tiling of the sequences they have seen.
use objwal.Prelude.{
  ℕ, ◌+◌, ◌/◌, ◌^◌, ◌≤◌, ◌<◌, ◌≡◌, refl, subst, Bool, false, ◌&&◌, ◌||◌, Bool-cases, inl, inr, List,
  [], ◌∷◌, ◌++◌, Option, none, some, length, All-append, ltb, leb, arith,
}
use objwal.Error.{Result, ok, err}
use objwal.Wal.Replica.{Record, CursorStore}
use objwal.Querystream.Sink.{
  Config, RowItem, Sink, SinkEnv, sizes, SinkAnswer, bucket_of, finalized, saved_cursor, save_to,
  after_finalize, after_file, flush_run, flush_buf, flush_one, after_full, buffer_row, crosses,
  on_decoded, on_record,
}
use objwal.Querystream.Sink.Buffer.{
  OneBucket, Tiled, RowsFrom-append, sizes-append, run_of-all, whole_file, finalized-Tiled,
}

module _ {W T : Type 0} (env : SinkEnv W T) (cfg : Config) (start : ℕ) where
  -- The files still tile, and a flush that went well has emptied the buffer.
  pub record Flushed (pos : ℕ) (r : SinkAnswer W T Bool) : Type 0 where
    pub tiled : Tiled cfg env.ext start r.1.0 pos
    pub emptied : (b : Bool) → r.0 ≡ ok b → r.1.0.buf ≡ []

  saved_cursor-Flushed :
      (pos : ℕ) (s : Sink T) (r : Result (Unit {0}) × W)
      → s.buf ≡ []
      → Tiled cfg env.ext start s pos
      → Flushed pos (saved_cursor env cfg s r)
  unfolding saved_cursor
  saved_cursor-Flushed pos s (err e, w) h t = record { tiled = t; emptied = λ b k. h }
  saved_cursor-Flushed pos s (ok u, w) h t = record { tiled = t; emptied = λ b k. h }

  save_to-Flushed :
      (pos : ℕ) (c : Option (CursorStore W)) (s : Sink T) (w : W)
      → s.buf ≡ []
      → Tiled cfg env.ext start s pos
      → Flushed pos (save_to env cfg c s w)
  unfolding save_to
  save_to-Flushed pos none s w h t = record { tiled = t; emptied = λ b k. h }
  save_to-Flushed pos (some c) s w h t = saved_cursor-Flushed pos s (c.save s.next_cursor w) h t

  after_file-Flushed :
      (pos : ℕ) (it : RowItem T) (its : List (RowItem T)) (s : Sink T) (r : Result (Unit {0}) × W)
      → s.buf ≡ it ∷ its
      → pos < 2 ^ 64
      → Tiled cfg env.ext start s pos
      → Flushed pos (after_file env cfg (whole_file cfg env.ext it its) [] s r)
  unfolding after_file finalized after_finalize
  after_file-Flushed pos it its s (err e, w) h f t = record {
    tiled = t;
    emptied = λ b k. absurd (cc k);
  }
  after_file-Flushed pos it its s (ok u, w) h f t =
      save_to-Flushed pos env.cursor _ w refl (finalized-Tiled cfg env.ext start s pos it its h f t)

  flush_buf-Flushed :
      (pos : ℕ) (its : List (RowItem T)) (s : Sink T) (w : W)
      → s.buf ≡ its
      → pos < 2 ^ 64
      → Tiled cfg env.ext start s pos
      → Flushed pos (flush_buf env cfg its s w)
  unfolding flush_buf flush_run whole_file bucket_of
  flush_buf-Flushed pos [] s w h f t = record { tiled = t; emptied = λ b k. h }
  flush_buf-Flushed pos (it ∷ its) s w h f t =
      rw
        (run_of-all cfg (it.seq / cfg.bucket_size) its
          (subst (OneBucket cfg.bucket_size) h t.one_bucket))
        (after_file-Flushed pos it its s _ h f t)

  pub flush_one-Flushed :
      (pos : ℕ) (s : Sink T) (w : W)
      → pos < 2 ^ 64
      → Tiled cfg env.ext start s pos
      → Flushed pos (flush_one env cfg s w)
  unfolding flush_one
  flush_one-Flushed pos s w f t = flush_buf-Flushed pos s.buf s w refl f t

  -- A record's sequence has been taken into the tiling, at least if there is no error.
  pub record Recorded (pos : ℕ) (r : SinkAnswer W T (Unit {0})) : Type 0 where
    pub at : ℕ
    pub tiled : Tiled cfg env.ext start r.1.0 at
    pub from : pos ≤ at
    pub to : at ≤ pos + 1
    pub good : r.0 ≡ ok tt → (at ≡ pos + 1) × (length r.1.0.buf < cfg.max_rows)

  after_full-Recorded :
      (pos : ℕ) (r : SinkAnswer W T Bool)
      → 0 < cfg.max_rows
      → Flushed (pos + 1) r
      → Recorded pos (after_full env cfg r)
  unfolding after_full
  after_full-Recorded pos (err e, (s, w)) m h = record {
    at = pos + 1;
    tiled = h.tiled;
    from = omega arith;
    to = omega arith;
    good = λ k. absurd (cc k);
  }
  after_full-Recorded pos (ok b, (s, w)) m h = record {
    at = pos + 1;
    tiled = h.tiled;
    from = omega arith;
    to = omega arith;
    good = λ k. (refl, rw (h.emptied b refl) m);
  }

  OneBucket-append :
      (it : RowItem T) (its : List (RowItem T))
      → crosses cfg it.seq its ≡ false
      → OneBucket cfg.bucket_size its
      → OneBucket cfg.bucket_size (its ++ it ∷ [])
  unfolding crosses bucket_of
  OneBucket-append it [] c h = tt
  OneBucket-append it (x ∷ its) c h =
      All-append (λ y. y.seq / cfg.bucket_size ≡ x.seq / cfg.bucket_size) its (it ∷ []) h
        (ground (arith, c), tt)

  joined-Tiled :
      (pos : ℕ) (it : RowItem T) (s : Sink T)
      → it.seq ≡ pos
      → crosses cfg it.seq s.buf ≡ false
      → Tiled cfg env.ext start s pos
      → Tiled cfg env.ext start
          (record s { buf = s.buf ++ (it ∷ []); approx_bytes = s.approx_bytes + it.sz })
          (pos + 1)
  unfolding sizes
  joined-Tiled pos it s e c t = record {
    files = t.files;
    rows = RowsFrom-append s.next_cursor pos s.buf it t.rows e;
    one_bucket = OneBucket-append it s.buf c t.one_bucket;
    counted = omega (arith, t.counted, sizes-append s.buf (it ∷ []));
    high = t.high;
  }

  buffer_row-Recorded :
      (pos : ℕ) (it : RowItem T) (r : SinkAnswer W T (Unit {0}))
      → 0 < cfg.max_rows
      → pos + 1 < 2 ^ 64
      → it.seq ≡ pos
      → (r.0 ≡ ok tt → crosses cfg it.seq r.1.0.buf ≡ false)
      → Tiled cfg env.ext start r.1.0 pos
      → Recorded pos (buffer_row env cfg it r)
  unfolding buffer_row
  buffer_row-Recorded pos it (err e, (s, w)) m f e' c t = record {
    at = pos;
    tiled = t;
    from = omega arith;
    to = omega arith;
    good = λ k. absurd (cc k);
  }
  buffer_row-Recorded pos it (ok u, (s, w)) m f e c t =
      let j = joined-Tiled pos it s e (c refl) t in
      elim (Bool-cases (
        leb cfg.max_rows (length (s.buf ++ it ∷ []))
        || (ltb 0 cfg.max_bytes && leb cfg.max_bytes (s.approx_bytes + it.sz)))) [
          | inl full ↦
              rw (full, buffer_row)
                (after_full-Recorded pos _ m (flush_one-Flushed (pos + 1) _ w f j))
          | inr room ↦
              rw (room, buffer_row)
                (record {
                  at = pos + 1;
                  tiled = j;
                  from = omega arith;
                  to = omega arith;
                  good = λ k. (refl, ground (arith, room));
                })
        ]

  after_flush-Recorded :
      (pos : ℕ) (it : RowItem T) (r : SinkAnswer W T Bool)
      → 0 < cfg.max_rows
      → pos + 1 < 2 ^ 64
      → it.seq ≡ pos
      → Flushed pos r
      → Recorded pos (buffer_row env cfg it (after_full env cfg r))
  unfolding after_full crosses
  after_flush-Recorded pos it (err e, (s, w)) m f e' h =
      buffer_row-Recorded pos it _ m f e' (λ k. absurd (cc k)) h.tiled
  after_flush-Recorded pos it (ok b, (s, w)) m f e h =
      buffer_row-Recorded pos it _ m f e (λ k. rw (h.emptied b refl) refl) h.tiled

  on_decoded-Recorded :
      (pos : ℕ) (rec : Record) (d : Result T) (s : Sink T) (w : W)
      → 0 < cfg.max_rows
      → pos + 1 < 2 ^ 64
      → rec.sequence ≡ pos
      → Tiled cfg env.ext start s pos
      → Recorded pos (on_decoded env cfg rec d s w)
  unfolding on_decoded
  on_decoded-Recorded pos rec (err e) s w m f e' t = record {
    at = pos;
    tiled = t;
    from = omega arith;
    to = omega arith;
    good = λ k. absurd (cc k);
  }
  on_decoded-Recorded pos rec (ok row) s w m f e t =
      elim (Bool-cases (crosses cfg rec.sequence s.buf)) [
        | inl over ↦
            rw over (after_flush-Recorded pos _ _ m f e (flush_one-Flushed pos s w (omega arith) t))
        | inr same ↦ rw same (buffer_row-Recorded pos _ _ m f e (λ _. same) t)
      ]

  -- While the sink has files of the sequences from `start` to its cursor and rows of one bucket
  -- from there to `pos`, for a cap on rows above 0 and `pos + 1` below 2 ^ 64, the record `pos`,
  -- whatever the decoder, the encoder, the file system and the cursor store answer, leaves such a
  -- tiling, which ends at `pos` or behind the record; without an error it ends behind the record,
  -- and the buffer is below the cap on its rows.
  pub on_record-Recorded :
      (pos : ℕ) (rec : Record) (s : Sink T) (w : W)
      → 0 < cfg.max_rows
      → pos + 1 < 2 ^ 64
      → rec.sequence ≡ pos
      → Tiled cfg env.ext start s pos
      → Recorded pos (on_record env cfg rec (s, w))
  unfolding on_record
  on_record-Recorded pos rec s w m f e t = on_decoded-Recorded pos rec (env.decode rec) s w m f e t
