-- ===== src/Wal/Producer/Flush/Steps.antt =====
-- The steps that the producer's goroutines take in any order: callers of `Append` and of `Close`
-- and the one flush at a time of the run loop. `working` are the groups that the flush has taken
-- and not settled.
use objwal.Prelude.{ℕ, ◌≤◌, ◌≡◌, refl, ◌⊎◌, inl, inr, true, false, List, [], ◌++◌, arith}
use objwal.Error.{Error}
use objwal.Std.LittleEndian.{Bytes}
use objwal.Wal.Producer.Types.{Config, PendingItem, SegPlan}
use objwal.Wal.Producer.State.{
  State, new_state, fits, admit, try_append, release, resolve_plan, fail_items, take_pending, halt,
}
use objwal.Wal.Producer.State.Accounting.{
  Accounted, new_state-Accounted, take_pending-Accounted, resolve_plan-Accounted,
  fail_items-Accounted, halt-Accounted, try_append-Accounted,
}

module _ (cfg : Config) where
  pub data Step : List PendingItem → State → List PendingItem → State → Type 0 where
    appends :
        (records : List Bytes) (meta : Bytes) (working : List PendingItem) (s : State)
        → Step working s working (try_append cfg records meta s).1
    takes : (s : State) → Step [] s s.pending (take_pending s).1
    reserves :
        (ordinal : ℕ) (working : List PendingItem) (s : State)
        → Step working s working (record s { ordinal = ordinal })
    resolves :
        (pl : SegPlan) (base : ℕ) (rest : List PendingItem) (s : State)
        → Step (pl.items ++ rest) s rest (resolve_plan cfg pl base s)
    fails :
        (items rest : List PendingItem) (e : Error) (s : State)
        → Step (items ++ rest) s rest (fail_items cfg items e s)
    halts : (e : Error) (working : List PendingItem) (s : State) → Step working s working (halt e s)
    closes :
        (working : List PendingItem) (s : State)
        → Step working s working (record s { closing = true })
    stops :
        (working : List PendingItem) (s : State)
        → Step working s working (record s { stopped = true })
    wakes :
        (working : List PendingItem) (s : State)
        → Step working s working (record s { released = false; flush_now = false })

  -- What a producer comes to after `NewProducer`.
  pub data Reach : List PendingItem → State → Type 0 where
    starts : Reach [] new_state
    steps :
        {working working' : List PendingItem} {s s' : State}
        → Reach working s
        → Step working s working' s'
        → Reach working' s'

  -- A property that the steps of a flush keep.
  pub record Closed (P : List PendingItem → State → Type 0) : Type 0 where
    pub on_take : (s : State) → P [] s → P s.pending (take_pending s).1
    pub on_reserve :
        (ordinal : ℕ) (working : List PendingItem) (s : State)
        → P working s
        → P working (record s { ordinal = ordinal })
    pub on_resolve :
        (pl : SegPlan) (base : ℕ) (rest : List PendingItem) (s : State)
        → P (pl.items ++ rest) s
        → P rest (resolve_plan cfg pl base s)
    pub on_fail :
        (items rest : List PendingItem) (e : Error) (s : State)
        → P (items ++ rest) s
        → P rest (fail_items cfg items e s)
    pub on_halt :
        (e : Error) (working : List PendingItem) (s : State) → P working s → P working (halt e s)

  pub Reach-Closed : Closed Reach
  Reach-Closed = record {
    on_take = λ s r. steps r (takes s);
    on_reserve = λ ordinal working s r. steps r (reserves ordinal working s);
    on_resolve = λ pl base rest s r. steps r (resolves pl base rest s);
    on_fail = λ items rest e s r. steps r (fails items rest e s);
    on_halt = λ e working s r. steps r (halts e working s);
  }

  -- A step that moves none of the fields that are accounted for.
  moved-Accounted :
      {working : List PendingItem} (s s' : State)
      → s'.pending ≡ s.pending
      → s'.pend_byte ≡ s.pend_byte
      → s'.in_flight_bytes ≡ s.in_flight_bytes
      → s'.in_flight_count ≡ s.in_flight_count
      → s'.resolved ≡ s.resolved
      → s'.next_waiter ≡ s.next_waiter
      → Accounted working s
      → Accounted working s'
  moved-Accounted s s' a b c d e f h = record {
    pending_bytes = rw (a, b) h.pending_bytes;
    bytes_in_flight = rw (a, c) h.bytes_in_flight;
    count_in_flight = rw (a, d) h.count_in_flight;
    in_order = rw (a, e, f) h.in_order;
  }

  Step-Accounted :
      {working working' : List PendingItem} {s s' : State}
      → Step working s working' s'
      → Accounted working s
      → Accounted working' s'
  unfolding take_pending
  Step-Accounted (appends records meta working s) h =
      try_append-Accounted cfg records meta working s h
  Step-Accounted (takes s) h = take_pending-Accounted s h
  Step-Accounted (reserves ordinal working s) h =
      moved-Accounted s _ refl refl refl refl refl refl h
  Step-Accounted (resolves pl base rest s) h = resolve_plan-Accounted cfg pl base rest s h
  Step-Accounted (fails items rest e s) h = fail_items-Accounted cfg items rest e s h
  Step-Accounted (halts e working s) h = halt-Accounted e working s h
  Step-Accounted (closes working s) h = moved-Accounted s _ refl refl refl refl refl refl h
  Step-Accounted (stops working s) h = moved-Accounted s _ refl refl refl refl refl refl h
  Step-Accounted (wakes working s) h = moved-Accounted s _ refl refl refl refl refl refl h

  -- In every state that the producer reaches, in whatever order its goroutines take their steps, the
  -- budget in use is that of the groups that wait or are worked on, and the waiters admitted so far
  -- are, in the order of their admission and each once, those that were told, those worked on and
  -- those that wait.
  pub Reach-Accounted :
      {working : List PendingItem} {s : State} → Reach working s → Accounted working s
  Reach-Accounted starts = new_state-Accounted
  Reach-Accounted (steps r st) = Step-Accounted st (Reach-Accounted r)

-- The budgets hold, but for a single Append.
abbrev pub Bounded : Config → State → Type 0
Bounded cfg s =
    (s.in_flight_count ≤ 1)
    ⊎ ((s.in_flight_bytes ≤ cfg.max_in_flight_bytes)
        × (s.in_flight_count ≤ cfg.max_in_flight_batches))

module _ (cfg : Config) where
  try_append-Bounded :
      (records : List Bytes) (meta : Bytes) (s : State)
      → Bounded cfg s
      → Bounded cfg (try_append cfg records meta s).1
  unfolding try_append fits admit
  try_append-Bounded records meta s h = ground arith

  release-Bounded :
      (bytes count : ℕ) (s : State) → Bounded cfg s → Bounded cfg (release cfg bytes count s)
  unfolding release
  release-Bounded bytes count s (inl h) = inl (omega arith)
  release-Bounded bytes count s (inr (h, k)) = inr (omega arith, omega arith)

  halt-Bounded : (e : Error) (s : State) → Bounded cfg s → Bounded cfg (halt e s)
  unfolding halt
  halt-Bounded e s h = ground arith

  Step-Bounded :
      {working working' : List PendingItem} {s s' : State}
      → Step cfg working s working' s'
      → Bounded cfg s
      → Bounded cfg s'
  unfolding take_pending resolve_plan fail_items
  Step-Bounded (appends records meta working s) h = try_append-Bounded records meta s h
  Step-Bounded (takes s) h = h
  Step-Bounded (reserves ordinal working s) h = h
  Step-Bounded (resolves pl base rest s) h = release-Bounded _ _ _ h
  Step-Bounded (fails items rest e s) h = release-Bounded _ _ _ h
  Step-Bounded (halts e working s) h = halt-Bounded e s h
  Step-Bounded (closes working s) h = h
  Step-Bounded (stops working s) h = h
  Step-Bounded (wakes working s) h = h

  -- In every state that the producer reaches the records in flight are within both budgets, or those
  -- of at most one Append, which is admitted alone whatever its size.
  pub Reach-Bounded : {working : List PendingItem} {s : State} → Reach cfg working s → Bounded cfg s
  Reach-Bounded starts = inl (omega arith)
  Reach-Bounded (steps r st) = Step-Bounded st (Reach-Bounded r)
