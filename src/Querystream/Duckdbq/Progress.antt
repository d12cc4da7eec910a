-- ===== src/Querystream/Duckdbq/Progress.antt =====
-- What a trigger of an incremental stream delivers, and where it leaves the watermark.
use objwal.Prelude.{ℕ, ◌+◌, ◌%◌, ◌≤◌, ◌≡◌, Bool, List, [], ◌∷◌, ◌++◌}
use objwal.Error.{Result, ok, err, Error}
use objwal.Std.LittleEndian.{Bytes}
use objwal.ObjectStore.{Eff}
use objwal.Wal.Entry.{u64_mod}
use objwal.Querystream.Duckdbq.{incremental, Config, Query, bounds_from, build_view_sql, Database}
use objwal.Querystream.Duckdbq.Watermark.{WatermarkStore}
use objwal.Querystream.Duckdbq.Stream.{Emitted}

module _ {W R : Type 0} (db : Database W R) (store : WatermarkStore W)
    (emit : Emitted R → Eff W (Unit {0})) where
  -- The watermark that is stored, the results that have been delivered, and the view. A statement
  -- that fails may have changed the view; reading does not. A failed compare-and-swap, a failed
  -- delivery and a read leave the watermark and the results.
  pub record Kept : Type 0 where
    pub mark : W → ℕ
    pub sent : W → List (Emitted R)
    pub view : W → Bytes
    pub contents : Bytes → R

  abbrev pub Same : Kept → W → W → Type 0
  Same k w v = (k.mark v ≡ k.mark w) × (k.sent v ≡ k.sent w)

  pub record Laws (k : Kept) : Type 0 where
    pub strings_same : (sql : Bytes) (w : W) → Same k w (db.strings sql w).1
    pub exec_same : (sql : Bytes) (w : W) → Same k w (db.exec sql w).1
    pub exec_view :
        (sql : Bytes) (w : W) → (db.exec sql w).0 ≡ ok tt → k.view (db.exec sql w).1 ≡ sql
    pub rows_same : (sql : Bytes) (w : W) → Same k w (db.rows sql w).1
    pub rows_view : (sql : Bytes) (w : W) → k.view (db.rows sql w).1 ≡ k.view w
    pub scan_same :
        (sql : Bytes) (w v : W) (scan : Eff W R) → (db.rows sql w).0 ≡ ok scan → Same k v (scan v).1
    pub scan_rows :
        (sql : Bytes) (w v : W) (scan : Eff W R) (rows : R)
        → (db.rows sql w).0 ≡ ok scan
        → (scan v).0 ≡ ok rows
        → rows ≡ k.contents (k.view v)
    pub load_same : (w : W) → Same k w (store.load w).1
    pub load_mark : (w : W) (at : ℕ × Bool) → (store.load w).0 ≡ ok at → at.0 ≡ k.mark w
    pub cas_failed :
        (prev next : ℕ) (w : W) (e : Error)
        → (store.save_cas prev next w).0 ≡ err e
        → Same k w (store.save_cas prev next w).1
    pub cas_done :
        (prev next : ℕ) (w : W)
        → (store.save_cas prev next w).0 ≡ ok tt
        → (prev ≡ k.mark w)
          × (k.mark (store.save_cas prev next w).1 ≡ next)
          × (k.sent (store.save_cas prev next w).1 ≡ k.sent w)
    pub emit_failed :
        (out : Emitted R) (w : W) (e : Error) → (emit out w).0 ≡ err e → Same k w (emit out w).1
    pub emit_done :
        (out : Emitted R) (w : W)
        → (emit out w).0 ≡ ok tt
        → (k.mark (emit out w).1 ≡ k.mark w) × (k.sent (emit out w).1 ≡ k.sent w ++ out ∷ [])

  module _ (cfg : Config) (q : Query) (k : Kept) (laws : Laws k)
      (incremental_mode : q.mode ≡ incremental) (start : W) where
    -- The result of the window that begins at the watermark.
    abbrev pub next_result : ℕ → Emitted R
    next_result hi = record {
      high = hi;
      rows = k.contents (build_view_sql cfg (bounds_from (k.mark start) cfg.bucket_size) hi);
    }

    -- Nothing has changed; or the watermark has moved behind `hi`, and the result of the window
    -- from the old watermark to `hi` has been delivered, or its delivery has failed.
    pub data Progress : Result (Unit {0}) × W → Type 0 where
      unchanged : {r : Result (Unit {0}) × W} → Same k start r.1 → Progress r
      lost :
          {r : Result (Unit {0}) × W} (hi : ℕ) (e : Error)
          → r.0 ≡ err e
          → k.mark start ≤ hi
          → k.mark r.1 ≡ (hi + 1) % u64_mod
          → k.sent r.1 ≡ k.sent start
          → Progress r
      delivered :
          {r : Result (Unit {0}) × W} (hi : ℕ)
          → r.0 ≡ ok tt
          → k.mark start ≤ hi
          → k.mark r.1 ≡ (hi + 1) % u64_mod
          → k.sent r.1 ≡ k.sent start ++ next_result hi ∷ []
          → Progress r

    abbrev window_sql : ℕ → Bytes
    window_sql hi = build_view_sql cfg (bounds_from (k.mark start) cfg.bucket_size) hi
