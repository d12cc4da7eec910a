-- ===== src/Wal/Producer/Flush/Commits.antt =====
-- The commits of a flush settle the groups of the plans from the front, in the terms of a
-- property `P` of the groups worked on and the state that every step keeps.
use objwal.Prelude.{
  ℕ, zero, suc, ◌+◌, ◌≤◌, ◌≡◌, refl, sym, ap, subst, ◌∙◌, inl, inr, List, [], ◌∷◌, ◌++◌,
  append_assoc, length, Option-cases, arith,
}
use objwal.Prelude.Slices.{take, drop, take-append-drop, length-drop, drop-drop}
use objwal.Error.{Result, ok, err, Error}
use objwal.Wal.Producer.Types.{PendingItem, SegPlan}
use objwal.Wal.Producer.Commit.{commit_entries}
use objwal.Wal.Producer.State.{State, resolve_plan, fail_items, halt, release}
use objwal.Wal.Producer.Flush.{
  Setup, resolve_plans, fail_plans, group_size, Committed, after_group, commit_in_order,
}
use objwal.Wal.Producer.Flush.Items.{plan_items, plan_items-append}
use objwal.Wal.Producer.Flush.Steps.{Closed}

-- What waits is not touched.
pub record Keeps (s s' : State) : Type 0 where
  pub pending_kept : s'.pending ≡ s.pending
  pub next_kept : s'.next_waiter ≡ s.next_waiter

Keeps-refl : (s : State) → Keeps s s
Keeps-refl s = record { pending_kept = refl; next_kept = refl }

pub Keeps-trans : {s t u : State} → Keeps s t → Keeps t u → Keeps s u
Keeps-trans h k = record {
  pending_kept = k.pending_kept ∙ h.pending_kept;
  next_kept = k.next_kept ∙ h.next_kept;
}

module _ {W : Type 0} (p : Setup W) (P : List PendingItem → State → Type 0)
    (closed : Closed p.cfg P) where
  resolve_plan-Keeps :
      (pl : SegPlan) (base : ℕ) (s : State) → Keeps s (resolve_plan p.cfg pl base s)
  unfolding resolve_plan release
  resolve_plan-Keeps pl base s = record { pending_kept = refl; next_kept = refl }

  pub fail_items-Keeps :
      (items : List PendingItem) (e : Error) (s : State) → Keeps s (fail_items p.cfg items e s)
  unfolding fail_items release
  fail_items-Keeps items e s = record { pending_kept = refl; next_kept = refl }

  pub halt-Keeps : (e : Error) (s : State) → Keeps s (halt e s)
  unfolding halt
  halt-Keeps e s = elim (Option-cases s.halted_by) [
    | inl n ↦ rw (n, halt) (record { pending_kept = refl; next_kept = refl })
    | inr (x, n) ↦ rw (n, halt) (record { pending_kept = refl; next_kept = refl })
  ]

  resolve_plans-Settles :
      (pls : List SegPlan) (seqs : List ℕ) (rest : List PendingItem) (s : State)
      → P (plan_items pls ++ rest) s
      → P rest (resolve_plans p pls seqs s) × Keeps s (resolve_plans p pls seqs s)
  unfolding resolve_plans plan_items
  resolve_plans-Settles [] seqs rest s h = (h, Keeps-refl s)
  resolve_plans-Settles (pl ∷ pls) [] rest s h =
      let (a, k) = resolve_plans-Settles pls [] rest (resolve_plan p.cfg pl 0 s) (
        closed.on_resolve pl 0 (plan_items pls ++ rest) s
          (rw (append_assoc pl.items (plan_items pls) rest) at h)) in
      (a, Keeps-trans (resolve_plan-Keeps pl 0 s) k)
  resolve_plans-Settles (pl ∷ pls) (seq ∷ seqs) rest s h =
      let (a, k) = resolve_plans-Settles pls seqs rest (resolve_plan p.cfg pl seq s) (
        closed.on_resolve pl seq (plan_items pls ++ rest) s
          (rw (append_assoc pl.items (plan_items pls) rest) at h)) in
      (a, Keeps-trans (resolve_plan-Keeps pl seq s) k)

  pub fail_plans-Settles :
      (pls : List SegPlan) (e : Error) (rest : List PendingItem) (s : State)
      → P (plan_items pls ++ rest) s
      → P rest (fail_plans p pls e s) × Keeps s (fail_plans p pls e s)
  unfolding fail_plans plan_items
  fail_plans-Settles [] e rest s h = (h, Keeps-refl s)
  fail_plans-Settles (pl ∷ pls) e rest s h =
      let (a, k) = fail_plans-Settles pls e rest (fail_items p.cfg pl.items e s) (
        closed.on_fail pl.items (plan_items pls ++ rest) e s
          (rw (append_assoc pl.items (plan_items pls) rest) at h)) in
      (a, Keeps-trans (fail_items-Keeps pl.items e s) k)

  -- A front of the plans is committed and settled; all of them, if there is no error.
  pub record Progress (done : ℕ) (pls : List SegPlan) (rest : List PendingItem) (s : State)
      (c : Committed p) : Type 0 where
    pub size : ℕ
    pub counted : c.0.0 ≡ done + size
    pub within : size ≤ length pls
    pub accounted : P (plan_items (drop size pls) ++ rest) c.1.0
    pub keeps : Keeps s c.1.0
    pub complete : c.0.1 ≡ ok tt → size ≡ length pls

  group_size-bounds :
      (pl : SegPlan) (pls : List SegPlan)
      → (1 ≤ group_size p (pl ∷ pls)) × (group_size p (pl ∷ pls) ≤ length (pl ∷ pls))
  unfolding group_size
  group_size-bounds pl pls = ground arith

  plan_items-split :
      (n : ℕ) (pls : List SegPlan) (rest : List PendingItem)
      → plan_items pls ++ rest ≡ plan_items (take n pls) ++ (plan_items (drop n pls) ++ rest)
  plan_items-split n pls rest =
      ap (λ l. plan_items l ++ rest) (sym (take-append-drop n pls))
      ∙ (ap (λ l. l ++ rest) (plan_items-append (take n pls) (drop n pls))
          ∙ append_assoc (plan_items (take n pls)) (plan_items (drop n pls)) rest)

  after_group-Progress :
      (rest_loop : State → W → Committed p) (done n : ℕ) (pls : List SegPlan)
      (rest : List PendingItem) (s : State) (r : Result (List ℕ) × W)
      → 1 ≤ length pls
      → n ≤ length pls
      → P (plan_items pls ++ rest) s
      → ((t : State) (w : W)
          → P (plan_items (drop n pls) ++ rest) t
          → Progress (done + n) (drop n pls) rest t (rest_loop t w))
      → Progress done pls rest s (after_group p rest_loop done (take n pls) s r)
  unfolding after_group drop
  after_group-Progress rest_loop done n pls rest s (err e, w) one h a later = record {
    size = 0;
    counted = omega arith;
    within = omega arith;
    accounted = a;
    keeps = Keeps-refl s;
    complete = λ g. absurd (cc g);
  }
  after_group-Progress rest_loop done n pls rest s (ok seqs, w) one h a later =
      let (settled, kept) =
        resolve_plans-Settles (take n pls) seqs (plan_items (drop n pls) ++ rest) s
          (subst (λ l. P l s) (plan_items-split n pls rest) a) in
      let g = later (resolve_plans p (take n pls) seqs s) w settled in
      record {
        size = n + g.size;
        counted = omega (arith, g.counted);
        within = omega (arith, g.within, length-drop n pls);
        accounted =
            subst
              (λ l.
                P (plan_items l ++ rest) (rest_loop (resolve_plans p (take n pls) seqs s) w).1.0)
              (drop-drop n g.size pls) g.accounted;
        keeps = Keeps-trans kept g.keeps;
        complete = λ good. omega (arith, g.complete good, length-drop n pls);
      }

  pub commit_in_order-Progress :
      (fuel done : ℕ) (pls : List SegPlan) (rest : List PendingItem) (s : State) (w : W)
      → length pls ≤ fuel
      → P (plan_items pls ++ rest) s
      → Progress done pls rest s (commit_in_order p fuel done pls s w)
  unfolding commit_in_order drop
  commit_in_order-Progress fuel done [] rest s w f a = record {
    size = 0;
    counted = omega arith;
    within = omega arith;
    accounted = a;
    keeps = Keeps-refl s;
    complete = λ _. refl;
  }
  commit_in_order-Progress zero done (pl ∷ pls) rest s w f a = absurd (omega arith)
  commit_in_order-Progress (suc fuel) done (pl ∷ pls) rest s w f a =
      let (lo, hi) = group_size-bounds pl pls in
      let n = group_size p (pl ∷ pls) in
      after_group-Progress _ done n (pl ∷ pls) rest s
        (commit_entries p.env p.cfg p.epoch (take n (pl ∷ pls)) w) (omega arith) hi a
        (λ t v b.
          commit_in_order-Progress fuel (done + n) (drop n (pl ∷ pls)) rest t v
            (omega (arith, length-drop n (pl ∷ pls), lo, f)) b)
