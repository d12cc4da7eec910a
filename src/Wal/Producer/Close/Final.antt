-- ===== src/Wal/Producer/Close/Final.antt =====
-- A producer that is closed or halted takes no more records.
use objwal.Prelude.{
  ℕ, ◌≡◌, refl, ap, ◌∙◌, ◌⊎◌, inl, inr, true, List, [], none, some, length, ◌==◌, Bool-cases,
  Option-cases, arith,
}
use objwal.Error.{Result, err, Error, halted, no_records}
use objwal.Std.LittleEndian.{Bytes}
use objwal.Wal.Producer.Types.{Config, PendingItem}
use objwal.Wal.Producer.State.{
  State, try_append, release, resolve_plan, fail_items, take_pending, halt,
}
use objwal.Wal.Producer.State.Accounting.{upto, told}
use objwal.Wal.Producer.Flush.{Setup, Flushed, flush}
use objwal.Wal.Producer.Flush.Steps.{
  Step, appends, takes, reserves, resolves, fails, halts, closes, stops, wakes, Reach, steps,
}
use objwal.Wal.Producer.Flush.Settles.{flush-Reach}
use objwal.Wal.Producer.Close.{Once, close, after_drain}

-- Close has begun, or the producer has halted.
abbrev Shut : State → Type 0
Shut s = (s.closing ≡ true) ⊎ ((e : Error) × (s.halted_by ≡ some e))

-- The states after `s`.
pub data Later (cfg : Config) (working : List PendingItem) (s : State)
    : List PendingItem → State → Type 0 where
  now : Later cfg working s working s
  then_step :
      {working' working'' : List PendingItem} {s' s'' : State}
      → Later cfg working s working' s'
      → Step cfg working' s' working'' s''
      → Later cfg working s working'' s''

-- It stays shut and admits nobody.
record StaysShut (s s' : State) : Type 0 where
  shut : Shut s'
  nobody : s'.next_waiter ≡ s.next_waiter

module _ (cfg : Config) where
  try_append-Shut :
      (records : List Bytes) (meta : Bytes) (s : State)
      → Shut s
      → ((e : Error) × ((try_append cfg records meta s).0 ≡ some (err e)))
        × ((try_append cfg records meta s).1 ≡ s)
  unfolding try_append
  try_append-Shut records meta s h = elim (Bool-cases (length records == 0)) [
    | inl z ↦ rw (z, try_append) ((no_records, refl), refl)
    | inr nz ↦ elim (Option-cases s.halted_by) [
      | inl live ↦ elim h [
        | inl c ↦ simp (nz, live, c, try_append) ((halted, refl), refl)
        | inr (e, k) ↦ absurd (cc (live, k))
      ]
      | inr (e, k) ↦ simp (nz, k, try_append) ((e, refl), refl)
    ]
  ]

  halt-Shut : (e : Error) (s : State) → Shut s → Shut (halt e s)
  unfolding halt
  halt-Shut e s h = ground arith

  halt-next : (e : Error) (s : State) → (halt e s).next_waiter ≡ s.next_waiter
  unfolding halt
  halt-next e s = ground arith

  Step-StaysShut :
      {working working' : List PendingItem} {s s' : State}
      → Step cfg working s working' s'
      → Shut s
      → StaysShut s s'
  unfolding take_pending resolve_plan fail_items release
  Step-StaysShut (appends records meta working s) h =
      let (_, same) = try_append-Shut records meta s h in
      rw same (record { shut = h; nobody = refl })
  Step-StaysShut (takes s) h = record { shut = h; nobody = refl }
  Step-StaysShut (reserves ordinal working s) h = record { shut = h; nobody = refl }
  Step-StaysShut (resolves pl base rest s) h = record { shut = h; nobody = refl }
  Step-StaysShut (fails items rest e s) h = record { shut = h; nobody = refl }
  Step-StaysShut (halts e working s) h = record { shut = halt-Shut e s h; nobody = halt-next e s }
  Step-StaysShut (closes working s) h = record { shut = inl refl; nobody = refl }
  Step-StaysShut (stops working s) h = record { shut = h; nobody = refl }
  Step-StaysShut (wakes working s) h = record { shut = h; nobody = refl }

  Later-StaysShut :
      {working : List PendingItem} {s : State} {working' : List PendingItem} {s' : State}
      → Later cfg working s working' s'
      → Shut s
      → StaysShut s s'
  Later-StaysShut now h = record { shut = h; nobody = refl }
  Later-StaysShut (then_step l st) h =
      let a = Later-StaysShut l h in
      let b = Step-StaysShut st a.shut in record { shut = b.shut; nobody = b.nobody ∙ a.nobody }

  -- From a state on in which Close has begun or the producer has halted, whatever steps its goroutines
  -- take, every Append is refused with an error and changes nothing, and no waiter is admitted.
  pub Later-try_append :
      {working working' : List PendingItem} {s s' : State} (records : List Bytes) (meta : Bytes)
      → Later cfg working s working' s'
      → Shut s
      → (s'.next_waiter ≡ s.next_waiter)
        × ((e : Error) × ((try_append cfg records meta s').0 ≡ some (err e)))
        × ((try_append cfg records meta s').1 ≡ s')
  Later-try_append {working} {working'} {s} {s'} records meta l h =
      let a = Later-StaysShut l h in
      let (refused, same) = try_append-Shut records meta s' a.shut in (a.nobody, refused, same)

halt-Shut_always : (e : Error) (s : State) → (x : Error) × ((halt e s).halted_by ≡ some x)
unfolding halt
halt-Shut_always e s = elim (Option-cases s.halted_by) [
  | inl n ↦ rw (n, halt) (e, refl)
  | inr (x, n) ↦ rw (n, halt) (x, n)
]

halt-pending : (e : Error) (s : State) → (halt e s).pending ≡ s.pending
unfolding halt
halt-pending e s = ground arith

halt-resolved : (e : Error) (s : State) → (halt e s).resolved ≡ s.resolved
unfolding halt
halt-resolved e s = ground arith

module _ {W : Type 0} (p : Setup W) where
  -- What the first Close leaves.
  pub record Drained (next : ℕ) (c : Result (Unit {0}) × ((Once × State) × W)) : Type 0 where
    pub reached : Reach p.cfg [] c.1.0.1
    pub nobody_waits : c.1.0.1.pending ≡ []
    pub all_told : told c.1.0.1.resolved ≡ upto next
    pub is_halted : (e : Error) × (c.1.0.1.halted_by ≡ some e)
    pub result_kept : c.1.0.0 ≡ some c.0

  after_drain-Drained :
      (next : ℕ) (f : Flushed p)
      → Reach p.cfg [] f.1.0
      → f.1.0.pending ≡ []
      → told f.1.0.resolved ≡ upto next
      → Drained next (after_drain p f)
  unfolding after_drain
  after_drain-Drained next (r, (s, w)) reach e heard = record {
    reached = steps reach (halts halted [] s);
    nobody_waits = halt-pending halted s ∙ e;
    all_told = ap (λ l. told l) (halt-resolved halted s) ∙ heard;
    is_halted = halt-Shut_always halted s;
    result_kept = refl;
  }

-- The first Close of a producer whose run loop has ended answers every Append that was admitted, in
-- order and once each, whatever the object store does, and halts the producer. Every later Close
-- returns the first one's result and changes nothing.
pub close-Drained :
    {W : Type 0} (p : Setup W) (now_ms later_ms : ℕ) (s : State) (w later_w : W)
    → Reach p.cfg [] s
    → let (r, ((once, s'), w')) = close p now_ms (none, s) w in
      Drained p s.next_waiter (r, ((once, s'), w'))
      × (close p later_ms (once, s') later_w ≡ (r, ((once, s'), later_w)))
unfolding close after_drain
close-Drained p now_ms later_ms s w later_w r =
    let s₁ : State = record s { closing = true; stopped = true } in
    let closing = steps (steps r (closes [] s)) (stops [] (record s { closing = true })) in
    let (reach, e, heard, _, _) = flush-Reach p now_ms s₁ w closing in
    (after_drain-Drained p s.next_waiter (flush p now_ms s₁ w) reach e heard, refl)
