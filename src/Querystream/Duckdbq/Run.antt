-- ===== src/Querystream/Duckdbq/Run.antt =====
-- The goroutine of `Stream`, of querystream/duckdbq/stream.go: what it delivers in the long run.
use objwal.Prelude.{ℕ, ◌+◌, ◌%◌, ◌≤◌, ◌≡◌, ◌⊎◌, List, [], ◌∷◌, ◌++◌}
use objwal.Error.{Error}
use objwal.ObjectStore.{Eff}
use objwal.Wal.Entry.{u64_mod}
use objwal.Querystream.Duckdbq.{Config, Query, bounds_from, build_view_sql, Database}
use objwal.Querystream.Duckdbq.Watermark.{WatermarkStore}
use objwal.Querystream.Duckdbq.Stream.{Emitted, Streaming, running}
use objwal.Querystream.Duckdbq.Progress.{Kept, Progress}

module _ {W R : Type 0} (db : Database W R) (store : WatermarkStore W)
    (emit : Emitted R → Eff W (Unit {0})) (cfg : Config) (q : Query) (k : Kept db store emit) where
  -- The result of the window from a watermark to `hi`.
  abbrev pub window_result : ℕ → ℕ → Emitted R
  window_result from hi = record {
    high = hi;
    rows = k.contents (build_view_sql cfg (bounds_from from cfg.bucket_size) hi);
  }

  -- Results of windows each of which begins behind the end of the one before, and where the next
  -- would begin.
  pub data Windows : ℕ → List (Emitted R) → ℕ → Type 0 where
    no_window : {from : ℕ} → Windows from [] from
    window :
        {from hi to : ℕ} {rest : List (Emitted R)}
        → from ≤ hi
        → Windows ((hi + 1) % u64_mod) rest to
        → Windows from (window_result from hi ∷ rest) to

  -- What has been delivered are windows in a row, from the watermark on. The watermark is behind the
  -- last of them; or, if the stream has ended, it is behind one more window, that was not delivered.
  pub record Chained (start : W) (out : Streaming × W) : Type 0 where
    pub results : List (Emitted R)
    pub next_from : ℕ
    pub all_sent : k.sent out.1 ≡ k.sent start ++ results
    pub in_a_row : Windows (k.mark start) results next_from
    pub marked :
        (k.mark out.1 ≡ next_from)
        ⊎ ((hi : ℕ) × (next_from ≤ hi) × (k.mark out.1 ≡ (hi + 1) % u64_mod) × ¬ (out.0 ≡ running))
