-- ===== src/Wal/Replica/Exact.antt =====
-- What the applier has seen: for an applier that keeps what it is given, behind any run of `Run` of
-- wal/replica.go.
use objwal.Prelude.{
  ℕ, ◌+◌, ◌≤◌, ◌≡◌, refl, sym, ap, subst, ◌∙◌, true, List, [], ◌∷◌, ◌++◌, Option, none, length,
  length-append, ◌⊎◌, inl, inr, suc, zero, arith,
}
use objwal.Error.{ok, Error}
use objwal.Std.LittleEndian.{Bytes}
use objwal.Wal.Store.{Loaded, load}
use objwal.Wal.Replica.{Record, ReplicaEnv, ReplicaConfig, Replica, save_cursor, poll}
use objwal.Wal.Replica.Tailing.{Ends, Keeps}
use objwal.Wal.Replica.Follow.{Log, poll-PollEnds, poll-whole}
use objwal.Wal.Replica.Run.{Wake, Ran, run_replica, RunEnds, run_replica-RunEnds}

-- The records of the sequences from `start` on, of a log that has `at n` at the sequence `n`.
unfoldable pub records_at : (ℕ → Record) → ℕ → ℕ → List Record
records_at at start zero = []
records_at at start (suc n) = at start ∷ records_at at (start + 1) n

records_at-behind :
    (at : ℕ → Record) (start n : ℕ)
    → records_at at start (n + 1) ≡ records_at at start n ++ at (start + n) ∷ []
unfolding records_at
records_at-behind at start zero = ap (λ n. at n ∷ []) (omega arith)
records_at-behind at start (suc n) =
    let one_more : suc n + 1 ≡ suc (n + 1) = omega arith in
    ap (records_at at start) one_more
    ∙ ap (λ l. at start ∷ l)
        (records_at-behind at (start + 1) n
          ∙ ap (λ k. records_at at (start + 1) n ++ at k ∷ []) (omega arith))

loaded_inj : {l l' : Loaded} → ok l ≡ ok l' → l ≡ l'
loaded_inj h = cc h

-- An applier that keeps what it is given in a log, in worlds of a kind that the store's answers and
-- the applier leave in that kind. An applier that fails may have kept the record or not.
pub record Logging {W : Type 0} (env : ReplicaEnv W) (Inv : W → Type 0) (log : W → List Record)
    : Type 0 where
  pub no_cursor : env.cursor ≡ none
  pub get_keeps :
      (path : Bytes) (w : W)
      → Inv w
      → Inv (env.os.get path w).1 × (log (env.os.get path w).1 ≡ log w)
  pub apply_logs :
      (rec : Record) (w : W)
      → Inv w
      → Inv (env.apply rec w).1
        × ((log (env.apply rec w).1 ≡ log w ++ rec ∷ [])
            ⊎ ((log (env.apply rec w).1 ≡ log w) × ¬ ((env.apply rec w).0 ≡ ok tt)))

module _ {W : Type 0} (Inv : W → Type 0) (log : W → List Record) (at : ℕ → Record) (start : ℕ) where
  -- The log is that of the sequences from `start` to the position `n`.
  abbrev pub Seen : ℕ → W → Type 0
  Seen n w = Inv w × (n ≡ start + length (log w)) × (log w ≡ records_at at start (length (log w)))

  -- The record is that of the log of its sequence.
  abbrev pub Of : Record → Type 0
  Of rec = rec ≡ at rec.sequence

  -- What the applier has seen is the log from `start` on, up to where the replica stands while it
  -- runs.
  abbrev pub ExactRun : Ran (Replica × W) → Type 0
  ExactRun out =
      (log out.1.1 ≡ records_at at start (length (log out.1.1)))
      × (out.0 ≡ none → out.1.0.next ≡ start + length (log out.1.1))

  Seen-same : (n : ℕ) (w v : W) → Inv v → log v ≡ log w → Seen n w → Seen n v
  Seen-same n w v i e (_, to, is) = (i, rw e to, rw e is)

  Seen-taken :
      (n : ℕ) (rec : Record) (w v : W)
      → rec.sequence ≡ n
      → Of rec
      → Inv v
      → log v ≡ log w ++ rec ∷ []
      → Seen n w
      → Seen (n + 1) v
  Seen-taken n rec w v seq g i e (_, to, is) =
      let here : at rec.sequence ≡ at (start + length (log w)) = ap at (seq ∙ to) in
      let longer : length (log v) ≡ length (log w) + 1 =
        ap length e ∙ length-append (log w) (rec ∷ []) in
      (
        i,
        omega (arith, to, longer),
        e
            ∙ ap (λ l. l ++ rec ∷ []) is
            ∙ ap (λ x. records_at at start (length (log w)) ++ x ∷ []) (g ∙ here)
            ∙ sym (records_at-behind at start (length (log w)))
            ∙ ap (records_at at start) (sym longer),
      )

  module _ (env : ReplicaEnv W) (logging : Logging env Inv log) where
    applied-Ends :
        (n : ℕ) (rec : Record) (w : W)
        → rec.sequence ≡ n
        → Of rec
        → Seen n w
        → Ends Seen (n + 1) (env.apply rec w).0 (env.apply rec w).1
    applied-Ends n rec w seq g h =
        let (i, kept) = logging.apply_logs rec w h.0 in
        elim kept [
          | inl taken ↦ record {
            at = n + 1;
            held = Seen-taken n rec w _ seq g i taken h;
            good = λ _. refl;
          }
          | inr refused ↦ record {
            at = n;
            held = Seen-same n w _ i refused.0 h;
            good = λ k. absurd (refused.1 k);
          }
        ]

    pub logging-Keeps : Keeps env Of Seen
    unfolding save_cursor
    logging-Keeps = record {
      get_keeps = λ n path w h. let (i, e) = logging.get_keeps path w h.0 in Seen-same n w _ i e h;
      save_keeps = λ n next w h. rw logging.no_cursor h;
      apply_moves = λ n rec w seq f g h. applied-Ends n rec w seq g h;
    }

    -- For an applier that keeps what it is given in a log, where that log is the records of one
    -- unbounded sequence of records from `start` on up to the replica's position, and a store whose
    -- manifest is around that position and whose segments hold that sequence's records: a poll
    -- without a budget, by a replica without a cursor store, that returns no error leaves in the log
    -- that sequence's records from `start` on up to the manifest's next sequence.
    pub poll-exact :
        (cfg : ReplicaConfig) (r : Replica) (w : W) (l : Loaded)
        → (load env.os cfg.manifest_path w).0 ≡ ok l
        → l.exists ≡ true
        → Log env Of Seen l.manifest r.next
        → r.next ≤ l.manifest.next_sequence
        → cfg.max_records_per_poll ≡ 0
        → Seen r.next w
        → (poll env cfg r w).0.0 ≡ ok tt
        → Seen l.manifest.next_sequence (poll env cfg r w).1.1
    poll-exact cfg r w l loaded there holds below unbounded h good =
        let ends =
          poll-PollEnds env cfg Of Seen logging-Keeps r w logging.no_cursor
            (λ l' e _.
              subst (λ x. Log env Of Seen x.manifest r.next) (loaded_inj (sym loaded ∙ e)) holds)
            h in
        let whole =
          poll-whole env cfg r w l logging.no_cursor loaded there holds below unbounded good in
        subst (λ n. Seen n (poll env cfg r w).1.1) (ends.good good ∙ whole) ends.held

    module _ (cfg : ReplicaConfig) (ctx_err : W → Option Error) (canceled : Error)
        (source : (r : Replica) (w : W) (l : Loaded)
          → Seen r.next w
          → (load env.os cfg.manifest_path w).0 ≡ ok l
          → l.exists ≡ true
          → Log env Of Seen l.manifest r.next) where
      RunEnds-Exact :
          (out : Ran (Replica × W))
          → RunEnds env cfg ctx_err canceled Of Seen logging-Keeps logging.no_cursor source out
          → ExactRun out
      RunEnds-Exact out h =
          let (_, to, is) = h.held in (is, λ running. sym (h.running running) ∙ to)

      -- For an applier that keeps what it is given, even if it fails at it, in a log that is empty at
      -- first, over a store that always answers with logs around the replica's position whose
      -- segments hold the records of one unbounded sequence of records: however often a replica
      -- without a cursor store polls, and whichever errors occur, the applier's log is the records
      -- of that sequence from the replica's first position on, each once and in order, and while the
      -- loop runs it ends where the replica stands.
      pub run_replica-ExactRun :
          (wakes : List Wake) (r : Replica) (w : W)
          → Inv w
          → log w ≡ []
          → r.next ≡ start
          → ExactRun (run_replica env cfg ctx_err canceled wakes r w)
      unfolding records_at
      run_replica-ExactRun wakes r w i empty stands = RunEnds-Exact _ (
          run_replica-RunEnds env cfg ctx_err canceled Of Seen logging-Keeps logging.no_cursor
            source wakes r w (i, rw empty (omega (arith, stands)), rw empty refl))
