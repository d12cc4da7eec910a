-- ===== src/ObjectStore/Sim/Outcomes.antt =====
-- What a mutation through the fault-injecting store can have done.
use objwal.Prelude.{
  ℕ, ◌≡◌, refl, sym, ap, ◌∙◌, ◌⊎◌, inl, inr, Bool, true, ◌||◌, ◌==◌, Bool-cases, arith,
}
use objwal.Error.{Result, ok, err, Error, injected, is_precondition_failed, is_already_exists}
use objwal.Std.LittleEndian.{Bytes}
use objwal.ObjectStore.{ObjectStore, Eff, PutOptions}
use objwal.ObjectStore.Sim.{
  Sim, Faults, Fate, plain, clean, ambiguous, slow, corrupted_read, within, count_stats, roll,
  roll_mutation, roll_read, roll_slow, jittered_latency, count_refusal, answered, lost_answer,
  after_slow, slow_delay_of, fated, after_wait, wait, sleep_for, sim_put_opts,
}

module _ {W : Type 0} where
  -- The operation was not tried, and the answer is an error.
  abbrev pub Untried : W → Result (Unit {0}) × Sim W → Type 0
  Untried w p = ((e : Error) × (p.0 ≡ err e)) × (p.1.inner ≡ w)

  -- The operation was executed once. The answer is its own, or an error in place of a success.
  abbrev pub Executed : Eff W (Unit {0}) → W → Result (Unit {0}) × Sim W → Type 0
  Executed op w p =
      (p.1.inner ≡ (op w).1)
      × ((p.0 ≡ (op w).0) ⊎ (((op w).0 ≡ ok tt) × ((e : Error) × (p.0 ≡ err e))))

module _ {W : Type 0} (os : ObjectStore W) (sleep : ℕ → Eff W (Unit {0})) (f : Faults)
    (quiet : (d : ℕ) (w : W) → (sleep d w).1 ≡ w) where
  sleep_for-inner : (d : ℕ) (s : Sim W) → (sleep_for os sleep f d s).1.inner ≡ s.inner
  unfolding sleep_for within
  sleep_for-inner d s = elim (Bool-cases (d == 0)) [
    | inl e ↦ rw (e, sleep_for) refl
    | inr e ↦ rw (e, sleep_for) (quiet d s.inner)
  ]

  wait-inner : (s : Sim W) → (wait os sleep f s).1.inner ≡ s.inner
  unfolding wait jittered_latency
  wait-inner s = sleep_for-inner _ (jittered_latency os sleep f s).1 ∙ ground arith

  after_slow-inner : (p : Result (Unit {0}) × Sim W) → (after_slow os sleep f p).1.inner ≡ p.1.inner
  unfolding after_slow
  after_slow-inner (err e, s) = refl
  after_slow-inner (ok u, s) = refl

  after_slow-fails :
      (p : Result (Unit {0}) × Sim W) → (e : Error) × ((after_slow os sleep f p).0 ≡ err e)
  unfolding after_slow
  after_slow-fails (err e, s) = (e, refl)
  after_slow-fails (ok u, s) = (injected, refl)

  roll-inner :
      (path : Bytes) (mutation : Bool) (s : Sim W)
      → (roll os sleep f path mutation s).1.inner ≡ s.inner
  unfolding roll roll_mutation roll_read roll_slow
  roll-inner path mutation s = ground arith

  count_refusal-same :
      (p : Result (Unit {0}) × Sim W)
      → ((count_refusal os sleep f p).0 ≡ p.0) × ((count_refusal os sleep f p).1.inner ≡ p.1.inner)
  unfolding count_refusal count_stats
  count_refusal-same (ok u, s) = (refl, refl)
  count_refusal-same (err e, s) =
      elim (Bool-cases (is_precondition_failed e || is_already_exists e)) [
        | inl h ↦ rw (h, count_refusal) (refl, refl)
        | inr h ↦ rw (h, count_refusal) (refl, refl)
      ]

  module _ (op : Eff W (Unit {0})) (w : W) where
    answered-Executed :
        (fate : Fate) (p : Result (Unit {0}) × Sim W)
        → p.0 ≡ (op w).0
        → p.1.inner ≡ (op w).1
        → Executed op w (answered os sleep f fate p)
    unfolding answered lost_answer
    answered-Executed plain (ok u, s) a b = (b, inl a)
    answered-Executed corrupted_read (ok u, s) a b = (b, inl a)
    answered-Executed clean (ok u, s) a b = (b, inl a)
    answered-Executed ambiguous (ok u, s) a b = (b, inr (sym a, (injected, refl)))
    answered-Executed slow (ok u, s) a b =
        let slept = sleep_for os sleep f (slow_delay_of os sleep f) s in
        (
          after_slow-inner slept ∙ (sleep_for-inner (slow_delay_of os sleep f) s ∙ b),
          inr (sym a, after_slow-fails slept),
        )
    answered-Executed fate (err e, s) a b = (b, inl a)

    module _ (counted : Result (Unit {0}) × Sim W → Result (Unit {0}) × Sim W)
        (keeps : (p : Result (Unit {0}) × Sim W)
          → ((counted p).0 ≡ p.0) × ((counted p).1.inner ≡ p.1.inner)) where
      executed :
          (fate : Fate) (s : Sim W)
          → s.inner ≡ w
          → Executed op w (answered os sleep f fate (counted (within op s)))
      unfolding within
      executed fate s h =
          let (same_answer, same_world) = keeps (within op s) in
          answered-Executed fate _ (same_answer ∙ ap (λ v. (op v).0) h)
            (same_world ∙ ap (λ v. (op v).1) h)

      fated_lem :
          (p : Fate × Sim W)
          → p.1.inner ≡ w
          → Untried w (fated os sleep f counted op p)
            ⊎ Executed op w (fated os sleep f counted op p)
      unfolding fated
      fated_lem (clean, s) h = inl ((injected, refl), h)
      fated_lem (plain, s) h = inr (executed plain s h)
      fated_lem (ambiguous, s) h = inr (executed ambiguous s h)
      fated_lem (slow, s) h = inr (executed slow s h)
      fated_lem (corrupted_read, s) h = inr (executed corrupted_read s h)

      after_wait_lem :
          (path : Bytes) (bump : Sim W → Sim W) (p : Result (Unit {0}) × Sim W)
          → ((s : Sim W) → (bump s).inner ≡ s.inner)
          → p.1.inner ≡ w
          → let q =
              after_wait os sleep f
                (λ v. fated os sleep f counted op (roll os sleep f path true (bump v)))
                p in
            Untried w q ⊎ Executed op w q
      unfolding after_wait
      after_wait_lem path bump (err e, s) same h = inl ((e, refl), h)
      after_wait_lem path bump (ok u, s) same h =
          fated_lem (roll os sleep f path true (bump s))
            (roll-inner path true (bump s) ∙ (same s ∙ h))

  -- Whatever faults are injected, if a wait leaves the store alone: a conditional put through the
  -- fault-injecting store answers with an error and does not touch the store, or is executed by the
  -- store once; then its answer is the store's, or an error although the store has succeeded.
  pub sim_put_opts-Executed :
      (path bytes : Bytes) (opts : PutOptions) (s : Sim W)
      → let q = sim_put_opts os sleep f path bytes opts s in
        Untried s.inner q ⊎ Executed (os.put_opts path bytes opts) s.inner q
  unfolding sim_put_opts count_stats
  sim_put_opts-Executed path bytes opts s =
      after_wait_lem (os.put_opts path bytes opts) s.inner (count_refusal os sleep f)
        count_refusal-same path _ (wait os sleep f s) (λ v. refl) (wait-inner s)
