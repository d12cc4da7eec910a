-- ===== src/Wal/Producer/Flush/Items.antt =====
-- The groups that the plans of a flush carry.
use objwal.Prelude.{ℕ, ◌+◌, ◌≡◌, refl, sym, ap, List, [], ◌∷◌, ◌++◌, append_assoc, map}
use objwal.Std.LittleEndian.{Bytes}
use objwal.Wal.Producer.Types.{PendingItem, SegPlan}
use objwal.Wal.Producer.Plan.{plan_segments, name_plans}
use objwal.Wal.Producer.Plan.Groups.{plan_of, flatten, plan_segments_lem}

-- The groups of the plans, in order.
unfoldable pub plan_items : List SegPlan → List PendingItem
plan_items [] = []
plan_items (pl ∷ pls) = pl.items ++ plan_items pls

pub plan_items-append :
    (xs ys : List SegPlan) → plan_items (xs ++ ys) ≡ plan_items xs ++ plan_items ys
unfolding plan_items
plan_items-append [] ys = refl
plan_items-append (x ∷ xs) ys =
    rw (plan_items-append xs ys) (sym (append_assoc x.items (plan_items xs) (plan_items ys)))

plan_items-plan_of :
    (now_ms : ℕ) (gs : List (List PendingItem)) → plan_items (map (plan_of now_ms) gs) ≡ flatten gs
unfolding plan_items flatten
plan_items-plan_of now_ms [] = refl
plan_items-plan_of now_ms (g ∷ gs) = ap (λ l. g ++ l) (plan_items-plan_of now_ms gs)

pub plan_items-name_plans :
    (prefix run_id : Bytes) (base : ℕ) (pls : List SegPlan)
    → plan_items (name_plans prefix run_id base pls) ≡ plan_items pls
unfolding plan_items name_plans
plan_items-name_plans prefix run_id base [] = refl
plan_items-name_plans prefix run_id base (pl ∷ pls) =
    ap (λ l. pl.items ++ l) (plan_items-name_plans prefix run_id (base + 1) pls)

pub plan_items-plan_segments :
    (now_ms limit : ℕ) (batch : List PendingItem)
    → plan_items (plan_segments now_ms limit batch) ≡ batch
plan_items-plan_segments now_ms limit batch =
    let (gs, planned, whole, _) = plan_segments_lem now_ms limit batch in
    rw (planned, plan_items-plan_of now_ms gs) whole
