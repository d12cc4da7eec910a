-- ===== src/ObjectStore/Sim.antt =====
-- objectstore/sim.go: a store that injects faults into another. The generator is the code's; a
-- probability is a number of 2 ^ -53, as the code compares 53 bits of the generator with it. The
-- waits, which fail if the context is done first, are the world's.
pub mod Outcomes
mod Tests
use Prim.Native.Nat.{bit_xor}
use objwal.Prelude.{
  ℕ, ◌+◌, ◌-◌, ◌*◌, ◌/◌, ◌%◌, ◌^◌, Bool, true, false, ◌&&◌, ◌||◌, not, List, [], ◌∷◌, ◌++◌, length,
  ltb, leb, ◌==◌, if◌then◌else◌,
}
use objwal.Prelude.Slices.{take, drop}
use objwal.Error.{Result, ok, err, Error, injected, is_precondition_failed, is_already_exists}
use objwal.Std.LittleEndian.{Bytes}
use objwal.ObjectStore.{ObjectMeta, GetResult, PutOptions, Eff, ObjectStore}
use objwal.ObjectStore.Memory.{has_prefix}
use objwal.Wal.Entry.{u64_mod}

-- `Rng.Next`: the number, and the generator's new state.
unfoldable pub rng_next : ℕ → ℕ × ℕ
rng_next s =
    let s' = (s + 0x9e3779b97f4a7c15) % u64_mod in
    let z₁ = (bit_xor s' (s' / 2 ^ 30) * 0xbf58476d1ce4e5b9) % u64_mod in
    let z₂ = (bit_xor z₁ (z₁ / 2 ^ 27) * 0x94d049bb133111eb) % u64_mod in
    (bit_xor z₂ (z₂ / 2 ^ 31), s')

-- `Rng.Chance`: no number is drawn for the probability 0.
unfoldable pub chance : ℕ → ℕ → Bool × ℕ
chance p s = if p == 0 then (false, s) else (let (z, s') = rng_next s in (ltb (z / 2 ^ 11) p, s'))

pub record Faults : Type 0 where
  pub fail_clean : ℕ
  pub fail_ambiguous : ℕ
  pub slow_ambiguous : ℕ
  pub slow_delay : ℕ
  pub corrupt_reads : ℕ
  pub latency : ℕ
  pub latency_jitter : ℕ
  pub key_substring : Bytes

pub record SimStats : Type 0 where
  pub gets : ℕ
  pub puts : ℕ
  pub cas_failures : ℕ
  pub deletes : ℕ
  pub clean_faults : ℕ
  pub ambiguous_faults : ℕ
  pub slow_faults : ℕ
  pub corrupted : ℕ

-- What changes in a `SimStore`, with the world of the store inside.
pub record Sim (W : Type 0) : Type 0 where
  pub inner : W
  pub rng : ℕ
  pub stats : SimStats

-- What `roll` decides.
pub data Fate : Type 0 where
  plain clean ambiguous slow corrupted_read : Fate

-- `strings.Contains`
unfoldable pub has_substring : Bytes → Bytes → Bool
has_substring [] sub = has_prefix [] sub
has_substring (b ∷ path) sub = has_prefix (b ∷ path) sub || has_substring path sub

abbrev default_slow_delay : ℕ
default_slow_delay = 50_000_000

-- `flipByte`, at the index that was drawn.
unfoldable pub flip_at : ℕ → Bytes → Bytes
flip_at i contents = elim (drop i contents) [
  | [] ↦ contents
  | ◌∷◌ b rest ↦ take i contents ++ (bit_xor b 0xff ∷ rest)
]

module _ {W : Type 0} where
  -- An operation of the store inside, or of the world.
  unfoldable pub within : {A : Type 0} → (W → Result A × W) → Sim W → Result A × Sim W
  within op s = let (r, w) = op s.inner in (r, record s { inner = w })

  unfoldable pub count_stats : (SimStats → SimStats) → Sim W → Sim W
  count_stats bump s = record s { stats = bump s.stats }

module _ {W : Type 0} (os : ObjectStore W) (sleep : ℕ → Eff W (Unit {0})) (f : Faults) where
  unfoldable pub roll_slow : Sim W → Fate × Sim W
  roll_slow s =
      let (hit, r) = chance f.slow_ambiguous s.rng in
      if hit
      then (
        slow,
        record s { rng = r; stats = record (s.stats) { slow_faults = s.stats.slow_faults + 1 } },
      )
      else (plain, record s { rng = r })

  unfoldable pub roll_mutation : Sim W → Fate × Sim W
  roll_mutation s =
      let (hit, r) = chance f.fail_ambiguous s.rng in
      if hit
      then (
        ambiguous,
        record s {
          rng = r;
          stats = record (s.stats) { ambiguous_faults = s.stats.ambiguous_faults + 1 };
        },
      )
      else roll_slow (record s { rng = r })

  unfoldable pub roll_read : Sim W → Fate × Sim W
  roll_read s =
      let (hit, r) = chance f.corrupt_reads s.rng in
      if hit
      then (
        corrupted_read,
        record s { rng = r; stats = record (s.stats) { corrupted = s.stats.corrupted + 1 } },
      )
      else (plain, record s { rng = r })

  unfoldable pub roll : Bytes → Bool → Sim W → Fate × Sim W
  roll path mutation s =
      if ltb 0 (length f.key_substring) && not (has_substring path f.key_substring)
      then (plain, s)
      else (let (hit, r) = chance f.fail_clean s.rng in
          if hit
          then (
            clean,
            record s {
              rng = r;
              stats = record (s.stats) { clean_faults = s.stats.clean_faults + 1 };
            },
          )
          else if mutation
          then roll_mutation (record s { rng = r })
          else roll_read (record s { rng = r }))

  -- `jitteredLatency`; a negative delay is 0.
  unfoldable pub jittered_latency : Sim W → ℕ × Sim W
  jittered_latency s =
      if f.latency == 0
      then (0, s)
      else if f.latency_jitter == 0
      then (f.latency, s)
      else (let (z, r) = rng_next s.rng in
          (f.latency + z % (2 * f.latency_jitter + 1) - f.latency_jitter, record s { rng = r }))

  unfoldable pub slow_delay_of : ℕ
  slow_delay_of = if ltb 0 f.slow_delay then f.slow_delay else default_slow_delay

  unfoldable pub sleep_for : ℕ → Eff (Sim W) (Unit {0})
  sleep_for d s = if d == 0 then (ok tt, s) else within (sleep d) s

  unfoldable pub wait : Sim W → Result (Unit {0}) × Sim W
  wait s = let (d, s') = jittered_latency s in sleep_for d s'

  unfoldable pub after_slow : Result (Unit {0}) × Sim W → Result (Unit {0}) × Sim W
  after_slow (err e, s) = (err e, s)
  after_slow (ok _, s) = (err injected, s)

  -- The write landed, and its answer is lost.
  unfoldable pub lost_answer : Fate → Sim W → Result (Unit {0}) × Sim W
  lost_answer slow s = after_slow (sleep_for slow_delay_of s)
  lost_answer _ s = (err injected, s)

  unfoldable pub answered : Fate → Result (Unit {0}) × Sim W → Result (Unit {0}) × Sim W
  answered fate (err e, s) = (err e, s)
  answered plain (ok _, s) = (ok tt, s)
  answered corrupted_read (ok _, s) = (ok tt, s)
  answered clean (ok _, s) = (ok tt, s)
  answered ambiguous (ok _, s) = lost_answer ambiguous s
  answered slow (ok _, s) = lost_answer slow s

  -- `PutOpts` counts the refusals.
  unfoldable pub count_refusal : Result (Unit {0}) × Sim W → Result (Unit {0}) × Sim W
  count_refusal (ok _, s) = (ok tt, s)
  count_refusal (err e, s) =
      if is_precondition_failed e || is_already_exists e
      then (err e, count_stats (λ st. record st { cas_failures = st.cas_failures + 1 }) s)
      else (err e, s)

  unfoldable pub fated :
      (Result (Unit {0}) × Sim W → Result (Unit {0}) × Sim W)
      → Eff W (Unit {0})
      → Fate × Sim W
      → Result (Unit {0}) × Sim W
  fated counted op (clean, s) = (err injected, s)
  fated counted op (plain, s) = answered plain (counted (within op s))
  fated counted op (ambiguous, s) = answered ambiguous (counted (within op s))
  fated counted op (slow, s) = answered slow (counted (within op s))
  fated counted op (corrupted_read, s) = answered corrupted_read (counted (within op s))

  unfoldable pub after_wait :
      {A : Type 0} → (Sim W → Result A × Sim W) → Result (Unit {0}) × Sim W → Result A × Sim W
  after_wait more (err e, s) = (err e, s)
  after_wait more (ok _, s) = more s

  unfoldable pub sim_put : Bytes → Bytes → Eff (Sim W) (Unit {0})
  sim_put path bytes s =
      after_wait
        (λ v.
          fated (λ p. p) (os.put path bytes)
            (roll path true (count_stats (λ st. record st { puts = st.puts + 1 }) v)))
        (wait s)

  unfoldable pub sim_put_opts : Bytes → Bytes → PutOptions → Eff (Sim W) (Unit {0})
  sim_put_opts path bytes opts s =
      after_wait
        (λ v.
          fated count_refusal (os.put_opts path bytes opts)
            (roll path true (count_stats (λ st. record st { puts = st.puts + 1 }) v)))
        (wait s)

  unfoldable pub sim_delete : Bytes → Eff (Sim W) (Unit {0})
  sim_delete path s =
      after_wait
        (λ v.
          fated (λ p. p) (os.delete path)
            (roll path true (count_stats (λ st. record st { deletes = st.deletes + 1 }) v)))
        (wait s)

  -- `flipByte` on what was read.
  unfoldable pub flipped : Result GetResult × Sim W → Result GetResult × Sim W
  flipped (err e, s) = (err e, s)
  flipped (ok res, s) =
      if length res.contents == 0
      then (ok res, s)
      else (let (z, r) = rng_next s.rng in
          (
            ok (record res { contents = flip_at (z % length res.contents) res.contents }),
            record s { rng = r },
          ))

  unfoldable pub fated_get : Bytes → Fate × Sim W → Result GetResult × Sim W
  fated_get path (clean, s) = (err injected, s)
  fated_get path (corrupted_read, s) = flipped (within (os.get path) s)
  fated_get path (plain, s) = within (os.get path) s
  fated_get path (ambiguous, s) = within (os.get path) s
  fated_get path (slow, s) = within (os.get path) s

  unfoldable pub sim_get : Bytes → Eff (Sim W) GetResult
  sim_get path s =
      after_wait
        (λ v.
          fated_get path (roll path false (count_stats (λ st. record st { gets = st.gets + 1 }) v)))
        (wait s)

  unfoldable pub fated_list : Bytes → Fate × Sim W → Result (List ObjectMeta) × Sim W
  fated_list prefix (clean, s) = (err injected, s)
  fated_list prefix (plain, s) = within (os.list prefix) s
  fated_list prefix (corrupted_read, s) = within (os.list prefix) s
  fated_list prefix (ambiguous, s) = within (os.list prefix) s
  fated_list prefix (slow, s) = within (os.list prefix) s

  unfoldable pub sim_list : Bytes → Eff (Sim W) (List ObjectMeta)
  sim_list prefix s = after_wait (λ v. fated_list prefix (roll prefix false v)) (wait s)

  abbrev pub sim_store : ObjectStore (Sim W)
  sim_store = record {
    get = sim_get;
    put = sim_put;
    put_opts = sim_put_opts;
    list = sim_list;
    delete = sim_delete;
  }
