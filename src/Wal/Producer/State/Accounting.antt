-- ===== src/Wal/Producer/State/Accounting.antt =====
-- The budget and the order of the waiters. A flush holds the groups that it took and has not
-- settled; they are `working`.
use objwal.Prelude.{
  ℕ, zero, suc, ◌+◌, ◌≡◌, refl, sym, ap, inl, inr, List, [], ◌∷◌, ◌++◌, append-nil, append_assoc,
  map, length, length-append, Option-cases, arith,
}
use objwal.Error.{Error}
use objwal.Std.LittleEndian.{Bytes}
use objwal.Wal.Entry.{RecordMeta}
use objwal.Wal.Producer.Types.{Config, PendingItem, SegPlan}
use objwal.Wal.Producer.Plan.Groups.{all_bytes}
use objwal.Wal.Producer.State.{
  Answer, State, new_state, total_length, admit, try_append, release, sequence_answers,
  resolve_plan, error_answers, fail_items, take_pending, halt,
}

-- The names of the first `n` waiters, in order.
unfoldable pub upto : ℕ → List ℕ
upto zero = []
upto (suc n) = upto n ++ n ∷ []

one_more : (n : ℕ) → n + 1 ≡ suc n
one_more n = omega arith

upto_next : (n : ℕ) → upto (n + 1) ≡ upto n ++ n ∷ []
unfolding upto
upto_next n = ap upto (one_more n)

abbrev pub waiters : List PendingItem → List ℕ
waiters = map (λ it. it.waiter)

abbrev pub told : List Answer → List ℕ
told = map (λ a. a.0)

-- The budget in use is that of the groups that wait or are worked on, and every waiter that was ever
-- admitted is, in the order of admission, told, worked on or waiting.
pub record Accounted (working : List PendingItem) (s : State) : Type 0 where
  pub pending_bytes : s.pend_byte ≡ all_bytes s.pending
  pub bytes_in_flight : s.in_flight_bytes ≡ all_bytes working + all_bytes s.pending
  pub count_in_flight : s.in_flight_count ≡ length working + length s.pending
  pub in_order : told s.resolved ++ (waiters working ++ waiters s.pending) ≡ upto s.next_waiter

map-append {ℓ κ} :
    {A : Type ℓ} {B : Type κ} (f : A → B) (xs ys : List A) → map f (xs ++ ys) ≡ map f xs ++ map f ys
map-append f [] ys = refl
map-append f (x ∷ xs) ys = ap (λ l. f x ∷ l) (map-append f xs ys)

all_bytes-append : (xs ys : List PendingItem) → all_bytes (xs ++ ys) ≡ all_bytes xs + all_bytes ys
unfolding all_bytes
all_bytes-append [] ys = omega arith
all_bytes-append (x ∷ xs) ys = omega (arith, all_bytes-append xs ys)

pub new_state-Accounted : Accounted [] new_state
unfolding all_bytes upto
new_state-Accounted = record {
  pending_bytes = refl;
  bytes_in_flight = refl;
  count_in_flight = refl;
  in_order = refl;
}

pub take_pending-Accounted :
    (s : State) → Accounted [] s → let (batch, s') = take_pending s in Accounted batch s'
unfolding take_pending all_bytes
take_pending-Accounted s h = record {
  pending_bytes = refl;
  bytes_in_flight = omega (arith, h.bytes_in_flight);
  count_in_flight = omega (arith, h.count_in_flight);
  in_order = rw (append-nil (waiters s.pending)) h.in_order;
}

-- Groups are settled from the front of those worked on.
settled-Accounted :
    (cfg : Config) (items rest : List PendingItem) (answers : List Answer) (s : State)
    → told answers ≡ waiters items
    → Accounted (items ++ rest) s
    → Accounted rest (
        release cfg
          (all_bytes items)
          (length items)
          (record s { resolved = s.resolved ++ answers }))
unfolding release
settled-Accounted cfg items rest answers s a h = record {
  pending_bytes = h.pending_bytes;
  bytes_in_flight = omega (arith, h.bytes_in_flight, all_bytes-append items rest);
  count_in_flight = omega (arith, h.count_in_flight, length-append items rest);
  in_order =
      rw
        (
          map-append (λ (a : Answer). a.0) s.resolved answers,
          a,
          append_assoc (told s.resolved) (waiters items) (waiters rest ++ waiters s.pending),
          sym (append_assoc (waiters items) (waiters rest) (waiters s.pending)),
          sym (map-append (λ (it : PendingItem). it.waiter) items rest),
        )
        h.in_order;
}

told-sequence_answers :
    (cfg : Config) (base : ℕ) (items : List PendingItem) (mds : List RecordMeta)
    → told (sequence_answers cfg base items mds) ≡ waiters items
unfolding sequence_answers
told-sequence_answers cfg base [] mds = refl
told-sequence_answers cfg base (it ∷ its) [] =
    ap (λ l. it.waiter ∷ l) (told-sequence_answers cfg base its [])
told-sequence_answers cfg base (it ∷ its) (md ∷ mds) =
    ap (λ l. it.waiter ∷ l) (told-sequence_answers cfg base its mds)

told-error_answers :
    (cfg : Config) (e : Error) (items : List PendingItem)
    → told (error_answers cfg e items) ≡ waiters items
unfolding error_answers
told-error_answers cfg e [] = refl
told-error_answers cfg e (it ∷ its) = ap (λ l. it.waiter ∷ l) (told-error_answers cfg e its)

pub resolve_plan-Accounted :
    (cfg : Config) (pl : SegPlan) (base : ℕ) (rest : List PendingItem) (s : State)
    → Accounted (pl.items ++ rest) s
    → Accounted rest (resolve_plan cfg pl base s)
unfolding resolve_plan
resolve_plan-Accounted cfg pl base rest s h =
    settled-Accounted cfg pl.items rest _ s (told-sequence_answers cfg base pl.items pl.metas) h

pub fail_items-Accounted :
    (cfg : Config) (items rest : List PendingItem) (e : Error) (s : State)
    → Accounted (items ++ rest) s
    → Accounted rest (fail_items cfg items e s)
unfolding fail_items
fail_items-Accounted cfg items rest e s h =
    settled-Accounted cfg items rest _ s (told-error_answers cfg e items) h

pub halt-Accounted :
    (e : Error) (working : List PendingItem) (s : State)
    → Accounted working s
    → Accounted working (halt e s)
unfolding halt
halt-Accounted e working s h = elim (Option-cases s.halted_by) [
  | inl n ↦
      rw (n, halt)
        (record {
          pending_bytes = h.pending_bytes;
          bytes_in_flight = h.bytes_in_flight;
          count_in_flight = h.count_in_flight;
          in_order = h.in_order;
        })
  | inr (x, n) ↦ rw (n, halt) h
]

admit-Accounted :
    (cfg : Config) (records : List Bytes) (meta : Bytes) (working : List PendingItem) (s : State)
    → Accounted working s
    → Accounted working (admit cfg records meta s)
unfolding admit upto all_bytes
admit-Accounted cfg records meta working s h =
    let new : PendingItem = record {
      records = records;
      meta = meta;
      bytes = total_length records;
      waiter = s.next_waiter;
    } in
    record {
      pending_bytes = omega (arith, h.pending_bytes, all_bytes-append s.pending (new ∷ []));
      bytes_in_flight = omega (arith, h.bytes_in_flight, all_bytes-append s.pending (new ∷ []));
      count_in_flight = omega (arith, h.count_in_flight, length-append s.pending (new ∷ []));
      in_order =
          rw
            (
              map-append (λ (it : PendingItem). it.waiter) s.pending (new ∷ []),
              upto_next s.next_waiter,
              sym h.in_order,
            )
            (simp append_assoc);
    }

pub try_append-Accounted :
    (cfg : Config) (records : List Bytes) (meta : Bytes) (working : List PendingItem) (s : State)
    → Accounted working s
    → Accounted working (try_append cfg records meta s).1
unfolding try_append
try_append-Accounted cfg records meta working s h =
    ground (arith, admit-Accounted cfg records meta working s h)
