-- ===== src/Wal/Producer/Commit/Cas.antt =====
-- A commit succeeds only by a conditional put that succeeds, or by one before it that had landed.
use objwal.Prelude.{ℕ, ◌≡◌, ◌⊎◌, List, some}
use objwal.Error.{ok, Error}
use objwal.Std.LittleEndian.{Bytes}
use objwal.Wal.Manifest.{Manifest}
use objwal.Wal.Store.{Loaded, load, commit}
use objwal.Wal.Producer.Types.{Config, SegPlan}
use objwal.Wal.Producer.Backoff.{Env}
use objwal.Wal.Producer.Commit.{harvest_committed, append_plans}

module _ {W : Type 0} (env : Env W) (path : Bytes) (epoch : ℕ) (plans : List SegPlan) where
  -- The plans were appended to the manifest seen, and the put of the result succeeded.
  pub record Appended (seen : Loaded) (between : W) (seqs : List ℕ) (w' : W) : Type 0 where
    pub written : Manifest
    pub appended_plans : append_plans seen.manifest plans ≡ ok (seqs, written)
    pub put_back : commit env.os path written seen.version between ≡ (ok tt, w')

  -- A manifest of the producer's epoch was loaded, and either all plans were found in it or they
  -- were appended to it.
  pub record Landed (seqs : List ℕ) (w' : W) : Type 0 where
    pub before : W
    pub between : W
    pub seen : Loaded
    pub loaded_seen : load env.os path before ≡ (ok seen, between)
    pub own_epoch : seen.manifest.epoch ≡ epoch
    pub how :
        (harvest_committed seen.manifest plans ≡ ok (some seqs)) ⊎ Appended seen between seqs w'

module _ {W : Type 0} (env : Env W) (cfg : Config) (epoch : ℕ) (plans : List SegPlan)
    (seqs : List ℕ) (w' : W) where
  abbrev Success : Type 0
  Success = Landed env cfg.manifest_path epoch plans seqs w'
