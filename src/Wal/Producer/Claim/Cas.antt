-- ===== src/Wal/Producer/Claim/Cas.antt =====
-- A claim succeeds only by a conditional put that succeeds.
use objwal.Prelude.{ℕ, ◌≡◌}
use objwal.Error.{ok, Error}
use objwal.Std.LittleEndian.{Bytes}
use objwal.Wal.Store.{Loaded, load}
use objwal.Wal.Producer.Backoff.{Env}
use objwal.Wal.Producer.Claim.{bump, next_epoch}

module _ {W : Type 0} (env : Env W) (path : Bytes) where
  -- A manifest was loaded, and it went back with the epoch after its own in the claim's last step.
  pub record Claimed (epoch : ℕ) (w' : W) : Type 0 where
    pub before : W
    pub between : W
    pub seen : Loaded
    pub loaded_seen : load env.os path before ≡ (ok seen, between)
    pub put_back : bump env path seen between ≡ (ok tt, w')
    pub epoch_next : epoch ≡ next_epoch seen
