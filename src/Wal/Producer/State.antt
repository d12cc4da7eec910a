-- ===== src/Wal/Producer/State.antt =====
-- wal/producer.go, lines 149 to 189 and 246 to 447: the producer's state, what its operations do
-- under the lock, and `Append`. A section of code between two locks is one step. The channels
-- `released` and `flushNow` are the tokens that they hold, and `resolved` has what the Durability
-- channels were given, in order.
pub mod Accounting
use objwal.Prelude.{
  ℕ, ◌+◌, ◌-◌, ◌%◌, Bool, true, false, ◌&&◌, ◌||◌, List, [], ◌∷◌, ◌++◌, Option, none, some, length,
  leb, ltb, ◌==◌, if◌then◌else◌,
}
use objwal.Error.{Result, ok, err, Error, halted, no_records}
use objwal.Std.LittleEndian.{Bytes}
use objwal.Wal.Entry.{RecordMeta, u64_mod}
use objwal.Wal.Producer.Types.{Config, PendingItem, SegPlan, SeqRange}
use objwal.Wal.Producer.Plan.Groups.{all_bytes}

-- The waiter's name, and what it is told.
abbrev pub Answer : Type 0
Answer = ℕ × Result ℕ

pub record State : Type 0 where
  pub pending : List PendingItem
  pub pend_byte : ℕ
  pub in_flight_bytes : ℕ
  pub in_flight_count : ℕ
  pub ordinal : ℕ
  pub halted_by : Option Error
  pub closing : Bool
  pub stopped : Bool
  pub released : Bool
  pub flush_now : Bool
  pub resolved : List Answer
  pub next_waiter : ℕ

-- What `NewProducer` starts the loop with.
abbrev pub new_state : State
new_state = record {
  pending = [];
  pend_byte = 0;
  in_flight_bytes = 0;
  in_flight_count = 0;
  ordinal = 0;
  halted_by = none;
  closing = false;
  stopped = false;
  released = false;
  flush_now = false;
  resolved = [];
  next_waiter = 0;
}

-- `WaitRange` of a Durability of `n` records, once it is resolved.
unfoldable wait_range : ℕ → Result ℕ → Result SeqRange
wait_range n (err e) = err e
wait_range n (ok seq) = ok (record { first = seq; count = n })

unfoldable pub total_length : List Bytes → ℕ
total_length [] = 0
total_length (r ∷ rs) = length r + total_length rs

module _ (cfg : Config) where
  unfoldable pub has_room : State → Bool
  has_room s =
      (s.in_flight_count == 0)
      || (ltb s.in_flight_bytes cfg.max_in_flight_bytes
          && ltb s.in_flight_count cfg.max_in_flight_batches)

  -- Whether an Append of `b` bytes is admitted.
  unfoldable pub fits : ℕ → State → Bool
  fits b s =
      (s.in_flight_count == 0)
      || (leb (s.in_flight_bytes + b) cfg.max_in_flight_bytes
          && leb (s.in_flight_count + 1) cfg.max_in_flight_batches)

  -- The body of the `if fits`.
  unfoldable pub admit : List Bytes → Bytes → State → State
  admit records meta s =
      let b = total_length records in
      let s₁ : State = record s {
        pending =
            s.pending
            ++ (record { records = records; meta = meta; bytes = b; waiter = s.next_waiter } ∷ []);
        pend_byte = s.pend_byte + b;
        in_flight_bytes = s.in_flight_bytes + b;
        in_flight_count = s.in_flight_count + 1;
        next_waiter = s.next_waiter + 1;
      } in
      record s₁ {
        flush_now = s.flush_now || (ltb 0 cfg.flush_bytes && leb cfg.flush_bytes s₁.pend_byte);
        released = s.released || has_room s₁;
      }

  -- One round of the loop of `Append`: the name of the new waiter, an error, or `none` to wait for
  -- budget, for the end of the loop, or for the context.
  unfoldable pub try_append : List Bytes → Bytes → State → Option (Result ℕ) × State
  try_append records meta s =
      if length records == 0 then (some (err no_records), s) else elim s.halted_by [
        | some e ↦ (some (err e), s)
        | none ↦
            if s.closing
            then (some (err halted), s)
            else if fits (total_length records) s
            then (some (ok s.next_waiter), admit records meta s)
            else (none, s)
      ]

  -- `none` if it has to wait on.
  unfoldable pub woken_stopped : State → Option Error
  woken_stopped s = if s.stopped then some halted else none

  unfoldable pub release : ℕ → ℕ → State → State
  release bytes count s =
      let s₁ : State = record s {
        in_flight_bytes = s.in_flight_bytes - bytes;
        in_flight_count = s.in_flight_count - count;
      } in
      record s₁ { released = s.released || has_room s₁ }

  -- What the waiters of a segment's groups are told: each its own first record's sequence.
  unfoldable pub sequence_answers : ℕ → List PendingItem → List RecordMeta → List Answer
  sequence_answers base [] mds = []
  sequence_answers base (it ∷ its) [] = (it.waiter, ok base) ∷ sequence_answers base its []
  sequence_answers base (it ∷ its) (md ∷ mds) =
      (it.waiter, ok ((base + md.start_index) % u64_mod)) ∷ sequence_answers base its mds

  unfoldable pub resolve_plan : SegPlan → ℕ → State → State
  resolve_plan pl base s =
      release (all_bytes pl.items) (length pl.items)
        (record s { resolved = s.resolved ++ sequence_answers base pl.items pl.metas })

  unfoldable pub error_answers : Error → List PendingItem → List Answer
  error_answers e [] = []
  error_answers e (it ∷ its) = (it.waiter, err e) ∷ error_answers e its

  unfoldable pub fail_items : List PendingItem → Error → State → State
  fail_items items e s =
      release (all_bytes items) (length items)
        (record s { resolved = s.resolved ++ error_answers e items })

-- `takeLocked`
unfoldable pub take_pending : State → List PendingItem × State
take_pending s = (s.pending, record s { pending = []; pend_byte = 0 })

-- The first error stays.
unfoldable pub halt : Error → State → State
halt e s = elim s.halted_by [ none ↦ record s { halted_by = some e } | some _ ↦ s ]
