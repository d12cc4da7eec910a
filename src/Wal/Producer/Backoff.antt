-- ===== src/Wal/Producer/Backoff.antt =====
-- wal/producer.go, lines 819 to 870: exponential backoff and bounded retries.
use objwal.Prelude.{ℕ, zero, suc, ◌*◌, ◌-◌, ltb, ◌==◌, ◌≡◌, if◌then◌else◌}
use objwal.Error.{Result, ok, err}
use objwal.ObjectStore.{ObjectStore, Eff}
use objwal.Wal.Producer.Types.{millisecond, second}

-- The world of a producer: the store, and `sleep d`, which waits at most `d` (the jitter is the
-- world's) and fails if the context is done first.
pub record Env (W : Type 0) : Type 0 where
  pub os : ObjectStore W
  pub sleep : ℕ → Eff W (Unit {0})

abbrev max_backoff : ℕ
max_backoff = 5 * second

unfoldable pub new_backoff : ℕ → ℕ
new_backoff base = if base == 0 then 100 * millisecond else base

-- The next duration, after a sleep.
unfoldable pub grow : ℕ → ℕ
grow next =
    if ltb next max_backoff
    then (if ltb max_backoff (next * 2) then max_backoff else next * 2)
    else next

module _ {W : Type 0} (env : Env W) where
  -- `for i < attempts`, with `left` rounds after this one.
  unfoldable pub retry_loop : ℕ → ℕ → Eff W (Unit {0}) → Eff W (Unit {0})
  unfolding grow
  retry_loop zero next fn w = fn w
  retry_loop (suc left) next fn w =
      let (r, w₁) = fn w in
      elim r [
        | ok _ ↦ (ok tt, w₁)
        | err _ ↦
            let (s, w₂) = env.sleep next w₁ in
            elim s [ err x ↦ (err x, w₂) | ok _ ↦ retry_loop left (grow next) fn w₂ ]
      ]

  -- `attempts` below one count as one.
  unfoldable pub retry_with_backoff : ℕ → ℕ → Eff W (Unit {0}) → Eff W (Unit {0})
  unfolding retry_loop new_backoff
  retry_with_backoff attempts base fn = retry_loop (attempts - 1) (new_backoff base) fn

-- `if serr := bo.sleep(ctx); serr != nil { return serr }`, and on with the longer backoff.
module _ {W A : Type 0} (env : Env W) where
  unfoldable pub paused : ℕ → (ℕ → Eff W A) → Result (Unit {0}) × W → Result A × W
  unfolding grow
  paused bo next (err x, w) = (err x, w)
  paused bo next (ok _, w) = next (grow bo) w

  unfoldable pub pause : ℕ → (ℕ → Eff W A) → Eff W A
  pause bo next w = paused bo next (env.sleep bo w)

  paused-ok :
      (bo : ℕ) (next : ℕ → Eff W A) (p : Result (Unit {0}) × W) (w' : W) (a : A)
      → paused bo next p ≡ (ok a, w')
      → (v : W) × (next (grow bo) v ≡ (ok a, w'))
  unfolding paused
  paused-ok bo next (err x, v) w' a h = absurd (cc h)
  paused-ok bo next (ok u, v) w' a h = (v, h)

  -- A pause that ends well has gone on.
  pub pause-ok :
      (bo : ℕ) (next : ℕ → Eff W A) (w w' : W) (a : A)
      → pause bo next w ≡ (ok a, w')
      → (v : W) × (next (grow bo) v ≡ (ok a, w'))
  unfolding pause
  pause-ok bo next w w' a h = paused-ok bo next (env.sleep bo w) w' a h
