-- ===== src/Wal/Producer/Flush/Settles.antt =====
-- A flush answers every group that waited when it began.
use objwal.Prelude.{
  ℕ, suc, ◌+◌, ◌%◌, ◌^◌, ◌≤◌, ◌≡◌, refl, sym, ap, subst, ◌∙◌, inl, inr, true, List, [], ◌∷◌, ◌++◌,
  append-nil, Option, none, some, length, ◌==◌, Bool-cases, Option-cases, arith,
}
use objwal.Prelude.Slices.{take, drop, take-append-drop, drop_end, drop-append_left}
use objwal.Error.{Result, ok, err, Error, wrap, upload_failed}
use objwal.Wal.Producer.Types.{PendingItem, SegPlan}
use objwal.Wal.Producer.Plan.{plan_segments, name_plans}
use objwal.Wal.Producer.Plan.Groups.{all_bytes}
use objwal.Wal.Producer.State.{State, fail_items, take_pending, halt}
use objwal.Wal.Producer.State.Accounting.{waiters, Accounted, upto, told}
use objwal.Wal.Producer.Flush.{
  Setup, first_fail, first_error, upload, upload_all, Committed, Flushed, give_up, after_commits,
  after_uploads, flush_batch, flush_live, flush,
}
use objwal.Wal.Producer.Flush.Items.{
  plan_items, plan_items-append, plan_items-name_plans, plan_items-plan_segments,
}
use objwal.Wal.Producer.Flush.Steps.{Closed, Reach, Reach-Closed, Reach-Accounted}
use objwal.Wal.Producer.Flush.Commits.{
  Keeps, fail_items-Keeps, Keeps-trans, halt-Keeps, fail_plans-Settles, Progress,
  commit_in_order-Progress,
}

module _ {W : Type 0} (p : Setup W) (P : List PendingItem → State → Type 0)
    (closed : Closed p.cfg P) where
  nothing_left :
      (plans : List SegPlan) (k size : ℕ)
      → length plans ≤ k
      → size ≡ length (take k plans)
      → plan_items (drop size (take k plans)) ++ plan_items (drop k plans) ≡ []
  unfolding plan_items
  nothing_left plans k size past all =
      rw (drop_end size (take k plans) (omega (arith, all)), drop_end k plans past) refl

  first_fail-none :
      (results : List (Result (Unit {0})))
      → first_error results ≡ none
      → length results ≤ first_fail results
  unfolding first_fail first_error
  first_fail-none [] h = omega arith
  first_fail-none (ok u ∷ rs) h = omega (arith, first_fail-none rs h)
  first_fail-none (err e ∷ rs) h = absurd (cc h)

  -- Nothing is left to settle, and what waits is not touched.
  record Settled (s : State) (f : Flushed p) : Type 0 where
    accounted : P [] f.1.0
    keeps : Keeps s f.1.0

  give_up-Settled :
      (pls : List SegPlan) (e : Error) (s : State) (w : W)
      → P (plan_items pls) s
      → Settled s (give_up p pls e s w)
  unfolding give_up
  give_up-Settled pls e s w a =
      let (settled, kept) =
        fail_plans-Settles p P closed pls e [] (halt e s)
          (closed.on_halt e (plan_items pls ++ []) s (rw (append-nil (plan_items pls)) a)) in
      record { accounted = settled; keeps = Keeps-trans (halt-Keeps p P closed e s) kept }

  after_commits-Settled :
      (plans : List SegPlan) (k : ℕ) (failure : Option Error) (s : State) (c : Committed p)
      → Progress p P closed 0 (take k plans) (plan_items (drop k plans)) s c
      → (failure ≡ none → length plans ≤ k)
      → Settled s (after_commits p plans k failure c)
  unfolding after_commits plan_items
  after_commits-Settled plans k failure s ((n, err e), (t, w)) g whole =
      let n_eq : n ≡ g.size = omega (arith, g.counted) in
      let left : plan_items (drop g.size (take k plans)) ++ plan_items (drop k plans)
          ≡ plan_items (drop n plans) =
        sym (plan_items-append (drop g.size (take k plans)) (drop k plans))
        ∙ ap plan_items (
            sym (drop-append_left g.size (take k plans) (drop k plans) g.within)
            ∙ (ap (drop g.size) (take-append-drop k plans) ∙ ap (λ m. drop m plans) (sym n_eq))) in
      let given = give_up-Settled (drop n plans) e t w (subst (λ l. P l t) left g.accounted) in
      record { accounted = given.accounted; keeps = Keeps-trans g.keeps given.keeps }
  after_commits-Settled plans k none s ((n, ok u), (t, w)) g whole = record {
    accounted =
        subst (λ l. P l t) (nothing_left plans k g.size (whole refl) (g.complete refl)) g.accounted;
    keeps = g.keeps;
  }
  after_commits-Settled plans k (some e) s ((n, ok u), (t, w)) g whole =
      let given = give_up-Settled (drop k plans) (wrap upload_failed e) t w (
        subst (λ l. P (plan_items l ++ plan_items (drop k plans)) t)
          (drop_end g.size (take k plans) (omega (arith, g.complete refl))) g.accounted) in
      record { accounted = given.accounted; keeps = Keeps-trans g.keeps given.keeps }

  length-upload_all : (pls : List SegPlan) (w : W) → length (upload_all p pls w).0 ≡ length pls
  unfolding upload_all
  length-upload_all [] w = refl
  length-upload_all (pl ∷ pls) w = ap suc (length-upload_all pls (upload p pl w).1)

  after_uploads-Settled :
      (plans : List SegPlan) (s : State) (u : List (Result (Unit {0})) × W)
      → length u.0 ≡ length plans
      → P (plan_items plans) s
      → Settled s (after_uploads p plans s u)
  unfolding after_uploads
  after_uploads-Settled plans s (results, w) same a =
      let k = first_fail results in
      after_commits-Settled plans k (first_error results) s _
        (commit_in_order-Progress p P closed (length (take k plans)) 0 (take k plans)
          (plan_items (drop k plans)) s w (omega arith)
          (subst (λ l. P l s)
            (ap plan_items (sym (take-append-drop k plans))
              ∙ plan_items-append (take k plans) (drop k plans))
            a))
        (λ n. omega (arith, first_fail-none results n, same))

  flush_batch-Settled :
      (now_ms : ℕ) (batch : List PendingItem) (s : State) (w : W)
      → P batch s
      → Settled s (flush_batch p now_ms batch s w)
  unfolding flush_batch
  flush_batch-Settled now_ms batch s w a =
      let limit = p.cfg.segment_max_bytes in
      let plans =
        name_plans p.cfg.segment_prefix p.run_id s.ordinal (plan_segments now_ms limit batch) in
      let numbered : State = record s { ordinal = (s.ordinal + length plans) % 2 ^ 64 } in
      let items : batch ≡ plan_items plans =
        sym (plan_items-plan_segments now_ms limit batch)
        ∙ sym (
            plan_items-name_plans p.cfg.segment_prefix p.run_id s.ordinal
              (plan_segments now_ms limit batch)) in
      let given =
        after_uploads-Settled plans numbered (upload_all p plans w) (length-upload_all plans w)
          (closed.on_reserve _ _ s (subst (λ l. P l s) items a)) in
      record {
        accounted = given.accounted;
        keeps = Keeps-trans (record { pending_kept = refl; next_kept = refl }) given.keeps;
      }

  failing :
      (e : Error) (items : List PendingItem) (s : State)
      → P items s
      → P [] (fail_items p.cfg items e s) × Keeps s (fail_items p.cfg items e s)
  failing e items s a =
      (closed.on_fail items [] e s (rw (append-nil items) a), fail_items-Keeps p P closed items e s)

  pub record Emptied (next : ℕ) (f : Flushed p) : Type 0 where
    pub settled : P [] f.1.0
    pub emptied : f.1.0.pending ≡ []
    pub same_waiters : f.1.0.next_waiter ≡ next

  length-nil : (l : List PendingItem) → (length l == 0) ≡ true → l ≡ []
  length-nil [] h = refl
  length-nil (it ∷ l) h = absurd (ground arith)

  flush_live-Emptied :
      (now_ms : ℕ) (s : State) (w : W) → P [] s → Emptied s.next_waiter (flush_live p now_ms s w)
  unfolding flush_live take_pending
  flush_live-Emptied now_ms s w a = elim (Bool-cases (length s.pending == 0)) [
    | inl none_left ↦
        rw (none_left, flush_live)
          (record { settled = a; emptied = length-nil s.pending none_left; same_waiters = refl })
    | inr some_left ↦
        let f = flush_batch-Settled now_ms s.pending (take_pending s).1 w (closed.on_take s a) in
        rw (some_left, flush_live)
          (record {
            settled = f.accounted;
            emptied = f.keeps.pending_kept;
            same_waiters = f.keeps.next_kept;
          })
  ]

  pub flush-Emptied :
      (now_ms : ℕ) (s : State) (w : W) → P [] s → Emptied s.next_waiter (flush p now_ms s w)
  unfolding flush take_pending
  flush-Emptied now_ms s w a = elim (Option-cases s.halted_by) [
    | inl live ↦ rw (live, flush) (flush_live-Emptied now_ms s w a)
    | inr (e, over) ↦
        let t = (take_pending s).1 in
        let (settled, kept) = failing e s.pending t (closed.on_take s a) in
        rw (over, flush)
          (record { settled = settled; emptied = kept.pending_kept; same_waiters = kept.next_kept })
  ]

all_answered :
    (s : State) (n : ℕ)
    → Accounted [] s
    → s.pending ≡ []
    → s.next_waiter ≡ n
    → told s.resolved ≡ upto n
all_answered s n a e k =
    sym (append-nil (told s.resolved))
    ∙ (ap (λ l. told s.resolved ++ waiters l) (sym e) ∙ (a.in_order ∙ ap upto k))

no_budget : (s : State) → Accounted [] s → s.pending ≡ [] → s.in_flight_bytes ≡ 0
unfolding all_bytes
no_budget s a e = omega (arith, a.bytes_in_flight, ap all_bytes e)

no_count : (s : State) → Accounted [] s → s.pending ≡ [] → s.in_flight_count ≡ 0
no_count s a e = omega (arith, a.count_in_flight, ap length e)

-- A flush with nothing else running is a sequence of the producer's steps: from a state that is
-- reached with nothing worked on it comes to one, in which no group waits. Then every Append that was
-- admitted before the flush has its answer, in the order of admission and one each, and no budget is
-- in use; whether the flush has succeeded or failed.
pub flush-Reach :
    {W : Type 0} (p : Setup W) (now_ms : ℕ) (s : State) (w : W)
    → Reach p.cfg [] s
    → let (_, (s', _)) = flush p now_ms s w in
      Reach p.cfg [] s'
      × (s'.pending ≡ [])
      × (told s'.resolved ≡ upto s.next_waiter)
      × (s'.in_flight_bytes ≡ 0)
      × (s'.in_flight_count ≡ 0)
flush-Reach p now_ms s w r =
    let s' = (flush p now_ms s w).1.0 in
    let f = flush-Emptied p (Reach p.cfg) (Reach-Closed p.cfg) now_ms s w r in
    let a = Reach-Accounted p.cfg f.settled in
    (
      f.settled,
      f.emptied,
      all_answered s' s.next_waiter a f.emptied f.same_waiters,
      no_budget s' a f.emptied,
      no_count s' a f.emptied,
    )
