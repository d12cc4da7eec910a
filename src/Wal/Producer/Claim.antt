-- ===== src/Wal/Producer/Claim.antt =====
-- `claim` of wal/producer.go: the epoch is bumped under a conditional put.
pub mod Cas
use objwal.Prelude.{
  ℕ, zero, suc, ◌+◌, ◌%◌, ◌≡◌, refl, Bool, true, false, ◌||◌, Option, if◌then◌else◌,
}
use objwal.Error.{
  Result, ok, err, Error, invalid, no_attempt, wrap, claim_load, claim_commit, claim_exceeded,
  is_precondition_failed, is_already_exists,
}
use objwal.Std.LittleEndian.{Bytes}
use objwal.ObjectStore.{Eff}
use objwal.Wal.Entry.{u64_mod}
use objwal.Wal.Manifest.{Manifest, set_epoch}
use objwal.Wal.Store.{Loaded, load, create, commit}
use objwal.Wal.Producer.Types.{Config}
use objwal.Wal.Producer.Backoff.{Env, new_backoff, pause}

-- A lost race is planned again at once; anything else backs off.
unfoldable pub lost_race : Error → Bool
lost_race e = is_precondition_failed e || is_already_exists e

unfoldable pub next_epoch : Loaded → ℕ
next_epoch l = (l.manifest.epoch + 1) % u64_mod

module _ {W : Type 0} (env : Env W) (path : Bytes) where
  -- The loaded manifest goes back with the next epoch.
  unfoldable pub bump : Loaded → Eff W (Unit {0})
  unfolding next_epoch
  bump l =
      let m = set_epoch l.manifest (next_epoch l) in
      if l.exists then commit env.os path m l.version else create env.os path m

  -- Behind the conditional put; `retry` is the rest of the loop.
  unfoldable pub after_put : (ℕ → Error → Eff W ℕ) → ℕ → ℕ → Result (Unit {0}) × W → Result ℕ × W
  after_put retry bo epoch (ok _, w) = (ok epoch, w)
  after_put retry bo epoch (err e, w) = elim (lost_race e) [
    | true ↦ retry bo (wrap claim_commit e) w
    | false ↦ pause env bo (λ bo'. retry bo' (wrap claim_commit e)) w
  ]

  unfoldable pub after_load : (ℕ → Error → Eff W ℕ) → ℕ → Result Loaded × W → Result ℕ × W
  unfolding after_put
  after_load retry bo (err e, w) = pause env bo (λ bo'. retry bo' (wrap claim_load e)) w
  after_load retry bo (ok l, w) = after_put retry bo (next_epoch l) (bump l w)

  -- `for attempt < MaxClaimAttempts`; `last` is the error of the last attempt.
  unfoldable pub claim_loop : ℕ → ℕ → Error → Eff W ℕ
  unfolding after_load
  claim_loop zero bo last w = (err (wrap claim_exceeded last), w)
  claim_loop (suc attempts) bo last w = after_load (claim_loop attempts) bo (load env.os path w)

module _ {W : Type 0} (env : Env W) (cfg : Config) where
  -- The epoch that `NewProducer` claims.
  unfoldable pub claim : Eff W ℕ
  claim =
      claim_loop env cfg.manifest_path cfg.max_claim_attempts
        (new_backoff cfg.manifest_initial_backoff) (invalid no_attempt)
