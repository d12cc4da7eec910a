-- ===== src/Wal/Producer/Commit/Ends.antt =====
-- The commit loop ends within the rounds that its two budgets leave.
use objwal.Prelude.{
  ℕ, zero, suc, ◌+◌, ◌-◌, ◌≤◌, ◌≢◌, inl, inr, Bool, List, none, leb, Bool-cases, arith,
}
use objwal.Error.{Result, ok, err, Error}
use objwal.Wal.Producer.Types.{Config, SegPlan}
use objwal.Wal.Producer.Backoff.{Env}
use objwal.Wal.Producer.Commit.{
  Outcome, landed, stopped, load_failed, lost, busy, unknown, Tries, Ending, resumed,
  transient_failure, lost_conflict, after_attempt, commit_loop, first_tries, rounds,
}

module _ {W : Type 0} (env : Env W) (cfg : Config) (epoch : ℕ) (plans : List SegPlan) where
  -- Rounds that are left to the budgets.
  abbrev budget : Tries → ℕ
  budget t = (cfg.manifest_max_attempts - t.transient) + (cfg.max_commit_conflicts - t.conflicts)

  resumed-ends :
      (next : W → Ending W) (p : Result (Unit {0}) × W)
      → ((w : W) → next w ≢ none)
      → resumed env cfg epoch plans next p ≢ none
  unfolding resumed
  resumed-ends next (err x, w) h e = absurd (cc e)
  resumed-ends next (ok u, w) h e = h w e

  module _ (fuel : ℕ)
      (later : (t : Tries) (w : W)
        → suc (budget t) ≤ fuel
        → commit_loop env cfg epoch plans fuel t w ≢ none) where
    transient_failure-ends :
        (t : Tries) (unsure : Bool) (e : Error) (w : W)
        → budget t ≤ fuel
        → transient_failure env cfg epoch plans (commit_loop env cfg epoch plans fuel) t unsure e w
          ≢ none
    unfolding transient_failure
    transient_failure-ends t unsure e w h k =
        elim (Bool-cases (leb cfg.manifest_max_attempts (t.transient + 1))) [
          | inl over ↦ absurd (cc (rw (over, transient_failure) at k))
          | inr under ↦
              resumed-ends _ (env.sleep t.bo w) (λ v. later _ v (ground arith))
                (rw (under, transient_failure) at k)
        ]

    lost_conflict-ends :
        (t : Tries) (w : W)
        → budget t ≤ fuel
        → lost_conflict env cfg epoch plans (commit_loop env cfg epoch plans fuel) t w ≢ none
    unfolding lost_conflict
    lost_conflict-ends t w h k =
        elim (Bool-cases (leb cfg.max_commit_conflicts (t.conflicts + 1))) [
          | inl over ↦ absurd (cc (rw (over, lost_conflict) at k))
          | inr under ↦
              resumed-ends _ (env.sleep t.cbo w) (λ v. later _ v (ground arith))
                (rw (under, lost_conflict) at k)
        ]

    after_attempt-ends :
        (t : Tries) (p : Outcome × W)
        → budget t ≤ fuel
        → after_attempt env cfg epoch plans (commit_loop env cfg epoch plans fuel) t p ≢ none
    unfolding after_attempt
    after_attempt-ends t (landed seqs, w) h k = absurd (cc k)
    after_attempt-ends t (stopped e, w) h k = absurd (cc k)
    after_attempt-ends t (load_failed e, w) h k = transient_failure-ends t _ _ w h k
    after_attempt-ends t (lost e, w) h k = lost_conflict-ends t w h k
    after_attempt-ends t (busy e, w) h k = transient_failure-ends t _ _ w h k
    after_attempt-ends t (unknown e, w) h k = transient_failure-ends t _ _ w h k

  commit_loop-ends :
      (fuel : ℕ) (t : Tries) (w : W)
      → suc (budget t) ≤ fuel
      → commit_loop env cfg epoch plans fuel t w ≢ none
  unfolding commit_loop
  commit_loop-ends zero t w h k = absurd (omega arith)
  commit_loop-ends (suc fuel) t w h k =
      after_attempt-ends fuel (commit_loop-ends fuel) t _ (omega arith) k

-- The rounds given to the loop of `commitEntries` are enough, whatever the object store answers:
-- each round that does not end it uses up one of its two budgets.
pub commit_loop-ne-none :
    {W : Type 0} (env : Env W) (cfg : Config) (epoch : ℕ) (plans : List SegPlan) (w : W)
    → commit_loop env cfg epoch plans
        (rounds env cfg epoch plans)
        (first_tries env cfg epoch plans)
        w
      ≢ none
commit_loop-ne-none env cfg epoch plans w =
    commit_loop-ends env cfg epoch plans (rounds env cfg epoch plans) _ w (omega arith)
