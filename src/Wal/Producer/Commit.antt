-- ===== src/Wal/Producer/Commit.antt =====
-- `commitEntries` and `harvestCommitted` of wal/producer.go. One round of the loop is `attempt`;
-- `commit_loop` counts the rounds and backs off.
pub mod Ends
pub mod Cas
pub mod Batch
use objwal.Prelude.{
  ℕ, zero, suc, ◌+◌, ◌*◌, Bool, true, false, List, [], ◌∷◌, length, Option, none, some, leb, ◌==◌,
  if◌then◌else◌,
}
use objwal.Error.{
  Result, ok, err, Error, invalid, ◌>>=◌, out_of_fuel, fenced, epoch_violated, partial_group,
  contended, wrap, commit_load, commit_conflict, commit_unknown, is_precondition_failed,
  is_conflict,
}
use objwal.Std.LittleEndian.{Bytes}
use objwal.ObjectStore.{Eff}
use objwal.Wal.Manifest.{Manifest, LocationMap, append, tail_locations, lookup_location}
use objwal.Wal.Store.{Loaded, load, commit}
use objwal.Wal.Producer.Types.{Config, SegPlan}
use objwal.Wal.Producer.Backoff.{Env, new_backoff, grow}

-- The sequences of the plans' entries, 0 for one that is absent, and how many are present.
unfoldable pub harvest_loop : LocationMap → List SegPlan → List ℕ × ℕ
harvest_loop tail [] = ([], 0)
harvest_loop tail (pl ∷ pls) =
    let (seqs, found) = harvest_loop tail pls in
    elim (lookup_location pl.location tail) [
      | none ↦ (0 ∷ seqs, found)
      | some e ↦ (e.sequence ∷ seqs, found + 1)
    ]

unfoldable pub harvest_committed : Manifest → List SegPlan → Result (Option (List ℕ))
harvest_committed m plans = do
  tail ← tail_locations m (length plans * 4)
  let (seqs, found) = harvest_loop tail plans
  if found == 0
      then ok none
      else if found == length plans
      then ok (some seqs)
      else err (invalid partial_group)

-- One entry for each plan, in order.
unfoldable pub append_plans : Manifest → List SegPlan → Result (List ℕ × Manifest)
append_plans m [] = ok ([], m)
append_plans m (pl ∷ pls) = do
  (seq, m') ← append m pl.location pl.metas (length pl.records)
  (seqs, m'') ← append_plans m' pls
  ok (seq ∷ seqs, m'')

-- How a round ends.
pub data Outcome : Type 0 where
  landed : List ℕ → Outcome
  stopped : Error → Outcome
  load_failed lost busy unknown : Error → Outcome

-- What the answer to the conditional put means.
unfoldable pub put_outcome : List ℕ → Result (Unit {0}) → Outcome
put_outcome seqs (ok _) = landed seqs
put_outcome seqs (err e) =
    if is_precondition_failed e then lost e else if is_conflict e then busy e else unknown e

-- What an earlier round of unknown outcome has left: `none` to go on.
unfoldable pub harvest_outcome : Bool → Manifest → List SegPlan → Option Outcome
harvest_outcome false m plans = none
harvest_outcome true m plans = elim (harvest_committed m plans) [
  | err e ↦ some (stopped e)
  | ok none ↦ none
  | ok (some seqs) ↦ some (landed seqs)
]

module _ {W : Type 0} (env : Env W) (path : Bytes) (epoch : ℕ) (plans : List SegPlan) where
  unfoldable pub put_planned : List ℕ × Manifest → Loaded → W → Outcome × W
  put_planned (seqs, m) l w = elim (m.epoch == epoch) [
    | false ↦ (stopped (invalid epoch_violated), w)
    | true ↦ let (r, w') = commit env.os path m l.version w in (put_outcome seqs r, w')
  ]

  -- Append the plans' entries and put the manifest back.
  unfoldable pub plan_and_put : Result (List ℕ × Manifest) → Loaded → W → Outcome × W
  plan_and_put (err e) l w = (stopped e, w)
  plan_and_put (ok p) l w = put_planned p l w

  unfoldable pub after_harvest : Option Outcome → Loaded → W → Outcome × W
  after_harvest (some o) l w = (o, w)
  after_harvest none l w = plan_and_put (append_plans l.manifest plans) l w

  unfoldable pub attempt_loaded : Bool → Result Loaded × W → Outcome × W
  attempt_loaded unsure (err e, w) = (load_failed e, w)
  attempt_loaded unsure (ok l, w) = elim (l.manifest.epoch == epoch) [
    | false ↦ (stopped fenced, w)
    | true ↦ after_harvest (harvest_outcome unsure l.manifest plans) l w
  ]

  unfoldable pub attempt : Bool → W → Outcome × W
  attempt unsure w = attempt_loaded unsure (load env.os path w)

-- The loop's variables; `unsure` is `unknown`.
pub record Tries : Type 0 where
  pub transient : ℕ
  pub conflicts : ℕ
  pub unsure : Bool
  pub bo : ℕ
  pub cbo : ℕ

abbrev pub Ending : Type 0 → Type 0
Ending W = Option (Result (List ℕ) × W)

module _ {W : Type 0} (env : Env W) (cfg : Config) (epoch : ℕ) (plans : List SegPlan) where
  -- After the sleep, go round again; `none` if the model's fuel is used up.
  unfoldable pub resumed : (W → Ending W) → Result (Unit {0}) × W → Ending W
  resumed next (err x, w) = some (err x, w)
  resumed next (ok _, w) = next w

  -- One more failure against `ManifestMaxAttempts`.
  unfoldable pub transient_failure : (Tries → W → Ending W) → Tries → Bool → Error → W → Ending W
  transient_failure next t unsure e w = elim (leb cfg.manifest_max_attempts (t.transient + 1)) [
    | true ↦ some (err e, w)
    | false ↦
        resumed (next (record t { transient = t.transient + 1; unsure = unsure; bo = grow t.bo }))
          (env.sleep t.bo w)
  ]

  -- One more lost race against `MaxCommitConflicts`.
  unfoldable pub lost_conflict : (Tries → W → Ending W) → Tries → W → Ending W
  lost_conflict next t w = elim (leb cfg.max_commit_conflicts (t.conflicts + 1)) [
    | true ↦ some (err (invalid contended), w)
    | false ↦
        resumed (next (record t { conflicts = t.conflicts + 1; cbo = grow t.cbo }))
          (env.sleep t.cbo w)
  ]

  unfoldable pub after_attempt : (Tries → W → Ending W) → Tries → Outcome × W → Ending W
  after_attempt next t (landed seqs, w) = some (ok seqs, w)
  after_attempt next t (stopped e, w) = some (err e, w)
  after_attempt next t (load_failed e, w) = transient_failure next t t.unsure (wrap commit_load e) w
  after_attempt next t (lost e, w) = lost_conflict next t w
  after_attempt next t (busy e, w) = transient_failure next t t.unsure (wrap commit_conflict e) w
  after_attempt next t (unknown e, w) = transient_failure next t true (wrap commit_unknown e) w

  unfoldable pub commit_loop : ℕ → Tries → W → Ending W
  commit_loop zero t w = none
  commit_loop (suc fuel) t w =
      after_attempt (commit_loop fuel) t (attempt env cfg.manifest_path epoch plans t.unsure w)

  abbrev pub first_tries : Tries
  first_tries = record {
    transient = 0;
    conflicts = 0;
    unsure = false;
    bo = new_backoff cfg.manifest_initial_backoff;
    cbo = new_backoff cfg.manifest_initial_backoff;
  }

  -- Every further round counts against one of the two budgets.
  abbrev pub rounds : ℕ
  rounds = suc (cfg.manifest_max_attempts + cfg.max_commit_conflicts)

  unfoldable pub commit_entries : Eff W (List ℕ)
  unfolding commit_loop
  commit_entries w = elim (commit_loop rounds first_tries w) [
    | none ↦ (err out_of_fuel, w)
    | some r ↦ r
  ]
