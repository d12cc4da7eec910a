-- ===== src/Wal/Replica/Position.antt =====
-- Where a pass leaves the cursor.
use objwal.Prelude.{
  ℕ, ◌+◌, ◌≡◌, refl, sym, ap, ◌∙◌, inl, inr, List, [], ◌∷◌, ◌++◌, ltb, leb, ◌&&◌, Bool-cases, arith,
}
use objwal.Error.{Result, ok, err}
use objwal.Std.LittleEndian.{Bytes}
use objwal.ObjectStore.{GetResult}
use objwal.Wal.Entry.{Entry, end}
use objwal.Wal.Replica.{
  ReplicaEnv, ReplicaConfig, Pass, saved, save_cursor, after_save, finish, paced, after_delivery,
  after_decode, after_get, poll_loop,
}

-- The position behind the entries `es`, from `next` on.
unfoldable pub behind : ℕ → List Entry → ℕ
behind next [] = next
behind next (e ∷ es) = behind (end e) es

-- The cursor stands behind a front of the entries; if the pass has gone well and has no budget, it
-- stands behind all.
pub record Advanced (budget from : ℕ) (es : List Entry) (r : Result (Unit {0}) × Pass)
    : Type 0 where
  pub through : List Entry
  pub left : List Entry
  pub split : es ≡ through ++ left
  pub position : r.1.next ≡ behind from through
  pub complete : r.0 ≡ ok tt → budget ≡ 0 → left ≡ []

module _ {W : Type 0} (env : ReplicaEnv W) where
  pub saved-next : (p : Pass) → (saved env p).next ≡ p.next
  unfolding saved
  saved-next p = ground arith

  after_save-next :
      (p : Pass) (r : Result (Unit {0}) × W)
      → (after_save env (λ q v. ((ok tt, q), v)) p r).0.1.next ≡ p.next
  unfolding after_save
  after_save-next p (err x, w) = refl
  after_save-next p (ok u, w) = saved-next p

  finish-next : (p : Pass) (w : W) → (finish env p w).0.1.next ≡ p.next
  unfolding finish
  finish-next p w = elim (Bool-cases (ltb 0 p.since_save)) [
    | inl some_left ↦ rw (some_left, finish) (after_save-next p (save_cursor env p.next w))
    | inr clean ↦ rw (clean, finish) refl
  ]

  module _ (cfg : ReplicaConfig) (resume_at : ℕ) (e : Entry) (es : List Entry)
      (later : (p : Pass) (w : W)
        → Advanced cfg.max_records_per_poll p.next es (poll_loop env cfg resume_at es p w).0) where
    abbrev budget : ℕ
    budget = cfg.max_records_per_poll

    -- The entry `e` is through.
    Through : ℕ → Result (Unit {0}) × Pass → Type 0
    Through from r = (from ≡ end e) × Advanced budget from es r

    stopped_here :
        (r : Result (Unit {0}) × Pass)
        → (r.0 ≡ ok tt → budget ≡ 0 → es ≡ [])
        → r.1.next ≡ end e
        → Advanced budget (end e) es r
    unfolding behind
    stopped_here r c n = record {
      through = [];
      left = es;
      split = refl;
      position = n;
      complete = c;
    }

    paced-Advanced :
        (p : Pass) (w : W)
        → p.next ≡ end e
        → Advanced budget
            (end e)
            es
            (paced env cfg resume_at (poll_loop env cfg resume_at es) p w).0
    unfolding paced
    paced-Advanced p w n = elim (Bool-cases (ltb 0 budget && leb budget p.applied)) [
      | inl spent ↦
          rw (spent, paced)
            (stopped_here (finish env p w).0 (λ good none_set. absurd (ground arith))
              (finish-next p w ∙ n))
      | inr open_ ↦ rw (open_, paced, sym n) (later p w)
    ]

    after_save-Advanced :
        (p : Pass) (r : Result (Unit {0}) × W)
        → p.next ≡ end e
        → Advanced budget
            (end e)
            es
            (after_save env (paced env cfg resume_at (poll_loop env cfg resume_at es)) p r).0
    unfolding after_save
    after_save-Advanced p (err x, w) n = stopped_here _ (λ good none_set. absurd (cc good)) n
    after_save-Advanced p (ok u, w) n = paced-Advanced (saved env p) w (saved-next p ∙ n)

    through_one :
        (from : ℕ) (r : Result (Unit {0}) × Pass)
        → Advanced budget (end e) es r
        → Advanced budget from (e ∷ es) r
    unfolding behind
    through_one from r a = record {
      through = e ∷ a.through;
      left = a.left;
      split = ap (λ xs. e ∷ xs) a.split;
      position = a.position;
      complete = a.complete;
    }

    not_through :
        (p q : Pass) (r : Result (Unit {0}))
        → (r ≡ ok tt → [] ≡ e ∷ es)
        → q.next ≡ p.next
        → Advanced budget p.next (e ∷ es) (r, q)
    unfolding behind
    not_through p q r bad n = record {
      through = [];
      left = e ∷ es;
      split = refl;
      position = n;
      complete = λ good _. sym (bad good);
    }

    after_delivery-Advanced :
        (p : Pass) (d : (Result (Unit {0}) × ℕ) × W)
        → Advanced budget p.next
            (e ∷ es)
            (after_delivery env cfg resume_at e (poll_loop env cfg resume_at es) p d).0
    unfolding after_delivery
    after_delivery-Advanced p ((err x, n), w) =
        not_through p _ (err x) (λ good. absurd (cc good)) refl
    after_delivery-Advanced p ((ok u, n), w) =
        elim (Bool-cases (leb cfg.cursor_save_interval (p.since_save + 1))) [
          | inl due ↦ rw (due, after_delivery) (through_one p.next _ (after_save-Advanced _ _ refl))
          | inr not_due ↦
              rw (not_due, after_delivery) (through_one p.next _ (paced-Advanced _ w refl))
        ]

    after_decode-Advanced :
        (p : Pass) (d : Result (List Bytes)) (w : W)
        → Advanced budget p.next
            (e ∷ es)
            (after_decode env cfg resume_at e (poll_loop env cfg resume_at es) p d w).0
    unfolding after_decode
    after_decode-Advanced p (err x) w = not_through p p _ (λ good. absurd (cc good)) refl
    after_decode-Advanced p (ok records) w = after_delivery-Advanced p _

    after_get-Advanced :
        (p : Pass) (r : Result GetResult × W)
        → Advanced budget p.next
            (e ∷ es)
            (after_get env cfg resume_at e (poll_loop env cfg resume_at es) p r).0
    unfolding after_get
    after_get-Advanced p (err x, w) = not_through p p _ (λ good. absurd (cc good)) refl
    after_get-Advanced p (ok res, w) = after_decode-Advanced p _ w

-- Whatever the world answers, the loop of a pass leaves the cursor behind a front of the manifest's
-- entries, where it was if the front is empty, and a pass without error and without a budget of
-- records leaves it behind all of them.
pub poll_loop-Advanced :
    {W : Type 0} (env : ReplicaEnv W) (cfg : ReplicaConfig) (resume_at : ℕ) (es : List Entry)
    (p : Pass) (w : W)
    → Advanced cfg.max_records_per_poll p.next es (poll_loop env cfg resume_at es p w).0
unfolding poll_loop behind
poll_loop-Advanced env cfg resume_at [] p w = record {
  through = [];
  left = [];
  split = refl;
  position = finish-next env p w;
  complete = λ _ _. refl;
}
poll_loop-Advanced env cfg resume_at (e ∷ es) p w =
    after_get-Advanced env cfg resume_at e es (poll_loop-Advanced env cfg resume_at es) p
      (env.os.get e.location w)
