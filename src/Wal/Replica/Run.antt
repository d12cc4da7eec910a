-- ===== src/Wal/Replica/Run.antt =====
-- `Run` of wal/replica.go, over what its select receives: a tick, or the end of the context.
use objwal.Prelude.{ℕ, ◌≡◌, refl, subst, true, List, [], ◌∷◌, Option, none, some}
use objwal.Error.{Result, ok, err, Error}
use objwal.Wal.Store.{Loaded, load}
use objwal.Wal.Replica.{Record, ReplicaEnv, ReplicaConfig, Replica, poll}
use objwal.Wal.Replica.Tailing.{Keeps}
use objwal.Wal.Replica.Follow.{Log, PollEnds, poll-PollEnds}

pub data Wake : Type 0 where
  ticked cancelled : Wake

-- What the loop has returned, if it has.
abbrev pub Ran : Type 0 → Type 0
Ran A = Option Error × A

-- The error of the context, if it has ended, goes before a poll's own.
unfoldable pub stopped_by : Option Error → Error → Error
stopped_by none e = e
stopped_by (some ctx_err) e = ctx_err

module _ {W : Type 0} (env : ReplicaEnv W) (cfg : ReplicaConfig) (ctx_err : W → Option Error)
    (canceled : Error) where
  unfoldable pub after_run_poll :
      (Replica → W → Ran (Replica × W))
      → (Result (Unit {0}) × ℕ) × (Replica × W)
      → Ran (Replica × W)
  after_run_poll more ((err e, n), (r, w)) = (some (stopped_by (ctx_err w) e), (r, w))
  after_run_poll more ((ok _, n), (r, w)) = more r w

  -- `canceled` is the context's error once it has ended.
  unfoldable pub run_replica : List Wake → Replica → W → Ran (Replica × W)
  run_replica [] r w = (none, (r, w))
  run_replica (cancelled ∷ wakes) r w = (some canceled, (r, w))
  run_replica (ticked ∷ wakes) r w = after_run_poll (run_replica wakes) (poll env cfg r w)

  module _ (G : Record → Type 0) (P : ℕ → W → Type 0) (keeps : Keeps env G P)
      (no_cursor : env.cursor ≡ none)
      (source : (r : Replica) (w : W) (l : Loaded)
        → P r.next w
        → (load env.os cfg.manifest_path w).0 ≡ ok l
        → l.exists ≡ true
        → Log env G P l.manifest r.next) where
    -- The world stands where the replica does, while the loop runs; when it has stopped, at some
    -- position.
    pub record RunEnds (out : Ran (Replica × W)) : Type 0 where
      pub at : ℕ
      pub held : P at out.1.1
      pub running : out.0 ≡ none → at ≡ out.1.0.next

    after_run_poll-RunEnds :
        (more : Replica → W → Ran (Replica × W)) (d : (Result (Unit {0}) × ℕ) × (Replica × W))
        → ((r : Replica) (w : W) → P r.next w → RunEnds (more r w))
        → PollEnds env cfg G P keeps d
        → RunEnds (after_run_poll more d)
    unfolding after_run_poll
    after_run_poll-RunEnds more ((err e, n), (r, w)) go h = record {
      at = h.at;
      held = h.held;
      running = λ k. absurd (cc k);
    }
    after_run_poll-RunEnds more ((ok u, n), (r, w)) go h =
        go r w (subst (λ p. P p w) (h.good refl) h.held)

    -- However often the loop polls, the world that the applier moves along the log stands where the
    -- replica does.
    pub run_replica-RunEnds :
        (wakes : List Wake) (r : Replica) (w : W) → P r.next w → RunEnds (run_replica wakes r w)
    unfolding run_replica
    run_replica-RunEnds [] r w h = record { at = r.next; held = h; running = λ _. refl }
    run_replica-RunEnds (cancelled ∷ wakes) r w h = record {
      at = r.next;
      held = h;
      running = λ k. absurd (cc k);
    }
    run_replica-RunEnds (ticked ∷ wakes) r w h =
        after_run_poll-RunEnds (run_replica wakes) (poll env cfg r w) (run_replica-RunEnds wakes)
          (poll-PollEnds env cfg G P keeps r w no_cursor (λ l. source r w l h) h)
