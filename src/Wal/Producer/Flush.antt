-- ===== src/Wal/Producer/Flush.antt =====
-- `flush` and `commitInOrder` of wal/producer.go, with nothing else running between the sections
-- under the lock. The uploads write disjoint objects; they are run in the order of the plans, and
-- what the world answers stands for their interleaving.
pub mod Steps
mod Items
mod Commits
pub mod Settles
mod Tests
use objwal.Prelude.{
  ℕ, zero, suc, ◌+◌, ◌-◌, ◌%◌, Bool, true, false, ◌&&◌, List, [], ◌∷◌, ◌++◌, Option, none, some,
  length, ltb, ◌==◌, if◌then◌else◌,
}
use objwal.Prelude.Slices.{take, drop}
use objwal.Error.{Result, ok, err, Error, wrap, upload_failed, out_of_fuel}
use objwal.Std.LittleEndian.{Bytes}
use objwal.Wal.Entry.{u64_mod}
use objwal.Wal.Segment.{Zstd, encode_segment}
use objwal.Wal.Producer.Types.{Config, PendingItem, SegPlan}
use objwal.Wal.Producer.Backoff.{Env, retry_with_backoff}
use objwal.Wal.Producer.Plan.{plan_segments, name_plans}
use objwal.Wal.Producer.Commit.{commit_entries}
use objwal.Wal.Producer.State.{State, resolve_plan, fail_items, take_pending, halt}

-- The index of the first failed upload, the number of uploads if there is none.
unfoldable pub first_fail : List (Result (Unit {0})) → ℕ
first_fail [] = 0
first_fail (ok _ ∷ rs) = suc (first_fail rs)
first_fail (err e ∷ rs) = 0

-- `results[firstFail]`
unfoldable pub first_error : List (Result (Unit {0})) → Option Error
first_error [] = none
first_error (ok _ ∷ rs) = first_error rs
first_error (err e ∷ rs) = some e

-- A producer's constants, its world and its codec.
pub record Setup (W : Type 0) : Type 0 where
  pub env : Env W
  pub cfg : Config
  pub zstd : Zstd
  pub epoch : ℕ
  pub run_id : Bytes

module _ {W : Type 0} (p : Setup W) where
  -- What goes on after the segment is encoded.
  unfoldable pub upload_encoded : Bytes → Result Bytes → W → Result (Unit {0}) × W
  upload_encoded location (err e) w = (err e, w)
  upload_encoded location (ok seg) w =
      retry_with_backoff p.env p.cfg.upload_max_attempts p.cfg.upload_initial_backoff
        (p.env.os.put location seg) w

  unfoldable pub upload : SegPlan → W → Result (Unit {0}) × W
  upload pl =
      upload_encoded pl.location
        (encode_segment p.zstd pl.records p.cfg.compression p.cfg.legacy_segment_format)

  unfoldable pub upload_all : List SegPlan → W → List (Result (Unit {0})) × W
  upload_all [] w = ([], w)
  upload_all (pl ∷ pls) w =
      let (r, w₁) = upload pl w in let (rs, w₂) = upload_all pls w₁ in (r ∷ rs, w₂)

  -- The loop over a group that is committed, with the sequences of its entries.
  unfoldable pub resolve_plans : List SegPlan → List ℕ → State → State
  resolve_plans [] seqs s = s
  resolve_plans (pl ∷ pls) [] s = resolve_plans pls [] (resolve_plan p.cfg pl 0 s)
  resolve_plans (pl ∷ pls) (seq ∷ seqs) s = resolve_plans pls seqs (resolve_plan p.cfg pl seq s)

  unfoldable pub fail_plans : List SegPlan → Error → State → State
  fail_plans [] e s = s
  fail_plans (pl ∷ pls) e s = fail_plans pls e (fail_items p.cfg pl.items e s)

  -- How many plans the next commit takes.
  unfoldable pub group_size : List SegPlan → ℕ
  group_size pls =
      if ltb 0 p.cfg.manifest_append_batch_size && ltb p.cfg.manifest_append_batch_size (length pls)
      then p.cfg.manifest_append_batch_size
      else length pls

  -- The number of plans committed, the error that stopped it, and what is left.
  abbrev pub Committed : Type 0
  Committed = (ℕ × Result (Unit {0})) × (State × W)

  -- Behind the commit of a group; `rest` is the rest of the loop.
  unfoldable pub after_group :
      (State → W → Committed) → ℕ → List SegPlan → State → Result (List ℕ) × W → Committed
  after_group rest done group s (err e, w) = ((done, err e), (s, w))
  after_group rest done group s (ok seqs, w) = rest (resolve_plans group seqs s) w

  -- `for i < len(plans)`, where `done` is `i` and `plans` what is left from there on.
  unfoldable pub commit_in_order : ℕ → ℕ → List SegPlan → State → W → Committed
  commit_in_order fuel done [] s w = ((done, ok tt), (s, w))
  commit_in_order zero done (pl ∷ pls) s w = ((done, err out_of_fuel), (s, w))
  commit_in_order (suc fuel) done (pl ∷ pls) s w =
      let n = group_size (pl ∷ pls) in
      after_group (commit_in_order fuel (done + n) (drop n (pl ∷ pls))) done (take n (pl ∷ pls)) s
        (commit_entries p.env p.cfg p.epoch (take n (pl ∷ pls)) w)

  abbrev pub Flushed : Type 0
  Flushed = Result (Unit {0}) × (State × W)

  -- Halt, and fail the items of the plans.
  unfoldable pub give_up : List SegPlan → Error → State → W → Flushed
  give_up pls e s w = (err e, (fail_plans pls e (halt e s), w))

  -- Behind the commits of the plans before the first failed upload.
  unfoldable pub after_commits : List SegPlan → ℕ → Option Error → Committed → Flushed
  after_commits plans k failure ((n, err e), (s, w)) = give_up (drop n plans) e s w
  after_commits plans k none ((n, ok _), (s, w)) = (ok tt, (s, w))
  after_commits plans k (some e) ((n, ok _), (s, w)) =
      give_up (drop k plans) (wrap upload_failed e) s w

  unfoldable pub after_uploads : List SegPlan → State → List (Result (Unit {0})) × W → Flushed
  after_uploads plans s (results, w) =
      let k = first_fail results in
      after_commits plans k (first_error results)
        (commit_in_order (length (take k plans)) 0 (take k plans) s w)

  -- Behind the first lock.
  unfoldable pub flush_batch : ℕ → List PendingItem → State → W → Flushed
  flush_batch now_ms batch s w =
      let plans =
        name_plans p.cfg.segment_prefix p.run_id s.ordinal
          (plan_segments now_ms p.cfg.segment_max_bytes batch) in
      after_uploads plans (record s { ordinal = (s.ordinal + length plans) % u64_mod })
        (upload_all plans w)

  unfoldable pub flush_live : ℕ → State → W → Flushed
  flush_live now_ms s w =
      if length s.pending == 0
      then (ok tt, (s, w))
      else (let (batch, s₁) = take_pending s in flush_batch now_ms batch s₁ w)

  -- `now_ms` is `p.now()` in milliseconds.
  unfoldable pub flush : ℕ → State → W → Flushed
  flush now_ms s w = elim s.halted_by [
    | some e ↦ let (batch, s₁) = take_pending s in (err e, (fail_items p.cfg batch e s₁, w))
    | none ↦ flush_live now_ms s w
  ]
