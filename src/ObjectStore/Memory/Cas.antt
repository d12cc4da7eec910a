-- ===== src/ObjectStore/Memory/Cas.antt =====
-- Conditional puts: an ETag that was read is refused from the next put of the object on.
use objwal.Prelude.{
  ℕ, suc, ◌+◌, ◌≤◌, ◌<◌, ◌^◌, ◌%◌, ◌≡◌, refl, sym, ◌∙◌, ◌⊎◌, inl, inr, List, [], ◌∷◌, none, some,
  length, bytes_eq, bytes_eq_refl, bytes_eq→eq, if◌then◌else◌, Bool-cases, Option-cases, arith,
}
use objwal.Error.{err, precondition_failed, Result-cases}
use objwal.Std.LittleEndian.{Bytes}
use objwal.Std.Decimal.{decimal-injective}
use objwal.ObjectStore.{PutOptions, put_update}
use objwal.ObjectStore.Memory.{
  new_in_memory, MemObject, Objects, InMemory, find, remove, etag_of, admitted, stored, put_opts,
  delete,
}

-- What other clients do, and the clock.
pub data Op : Type 0 where
  putting : Bytes → Bytes → PutOptions → Op
  deleting : Bytes → Op
  ticking : ℕ → Op

unfoldable pub run_op : Op → InMemory → InMemory
run_op (putting path bytes opts) s = (put_opts path bytes opts s).1
run_op (deleting path) s = (delete path s).1
run_op (ticking d) s = record s { now = s.now + d }

unfoldable pub run : List Op → InMemory → InMemory
run [] s = s
run (op ∷ ops) s = run ops (run_op op s)

-- The object at `path`, if any, has an ETag that was given out, from the number `low` on.
abbrev Dated : ℕ → Bytes → InMemory → Type 0
Dated low path s =
    (obj : MemObject)
    → find path s.objects ≡ some obj
    → (k : ℕ) × (low ≤ k) × (k ≤ s.etag_seq) × (obj.etag ≡ etag_of k)

find-remove :
    (path q : Bytes) (os : Objects)
    → find path (remove q os) ≡ (if bytes_eq q path then none else find path os)
unfolding find remove
find-remove path q [] = elim (Bool-cases (bytes_eq q path)) [
  | inl e ↦ rw e refl
  | inr e ↦ rw e refl
]
find-remove path q ((p, obj) ∷ os) = elim (Bool-cases (bytes_eq p q)) [
  | inl e ↦
      rw (e, bytes_eq→eq p q e, find-remove path q os)
        (elim (Bool-cases (bytes_eq q path)) [ inl f ↦ rw f refl | inr f ↦ rw f refl ])
  | inr e ↦
      rw (e, find-remove path q os)
        (elim (Bool-cases (bytes_eq p path)) [
          | inl f ↦ elim (Bool-cases (bytes_eq q path)) [
            | inl g ↦ absurd (cc (e, f, bytes_eq→eq q path g))
            | inr g ↦ rw (f, g) refl
          ]
          | inr f ↦ rw f refl
        ])
]

find-stored :
    (path q bytes : Bytes) (s : InMemory) (obj : MemObject)
    → find path (stored q bytes s).objects ≡ some obj
    → (obj.etag ≡ etag_of (stored q bytes s).etag_seq) ⊎ (find path s.objects ≡ some obj)
unfolding find stored
find-stored path q bytes s obj h = elim (Bool-cases (bytes_eq q path)) [
  | inl e ↦ inl (ground (arith, e, h))
  | inr e ↦ inr (ground (arith, e, h, find-remove path q s.objects))
]

stored-Dated :
    (low : ℕ) (path q bytes : Bytes) (s : InMemory)
    → s.etag_seq + 1 < 2 ^ 64
    → low ≤ s.etag_seq
    → Dated low path s
    → Dated low path (stored q bytes s)
unfolding stored
stored-Dated low path q bytes s room lo d obj h = elim (find-stored path q bytes s obj h) [
  | inl new ↦ ((s.etag_seq + 1) % 2 ^ 64, omega arith, omega arith, new)
  | inr old ↦ let (k, above, given, e) = d obj old in (k, above, omega arith, e)
]

-- An operation gives out one number at most.
record Step (low : ℕ) (path : Bytes) (s s' : InMemory) : Type 0 where
  dated : Dated low path s'
  grown : s.etag_seq ≤ s'.etag_seq
  one_more : s'.etag_seq ≤ s.etag_seq + 1

put_opts-Step :
    (low : ℕ) (path q bytes : Bytes) (opts : PutOptions) (s : InMemory)
    → s.etag_seq + 1 < 2 ^ 64
    → low ≤ s.etag_seq
    → Dated low path s
    → Step low path s (put_opts q bytes opts s).1
unfolding put_opts stored
put_opts-Step low path q bytes opts s room lo d =
    elim (Result-cases (admitted (find q s.objects) opts)) [
      | inl (u, e) ↦
          rw (e, put_opts)
            (record {
              dated = stored-Dated low path q bytes s room lo d;
              grown = omega arith;
              one_more = omega arith;
            })
      | inr (x, e) ↦
          rw (e, put_opts) (record { dated = d; grown = omega arith; one_more = omega arith })
    ]

delete-Step :
    (low : ℕ) (path q : Bytes) (s : InMemory) → Dated low path s → Step low path s (delete q s).1
unfolding delete
delete-Step low path q s d = elim (Option-cases (find q s.objects)) [
  | inl e ↦ rw (e, delete) (record { dated = d; grown = omega arith; one_more = omega arith })
  | inr (o, e) ↦
      rw (e, delete)
        (record {
          dated = λ obj h. d obj (ground (arith, find-remove path q s.objects, h));
          grown = omega arith;
          one_more = omega arith;
        })
]

run_op-Step :
    (low : ℕ) (path : Bytes) (op : Op) (s : InMemory)
    → s.etag_seq + 1 < 2 ^ 64
    → low ≤ s.etag_seq
    → Dated low path s
    → Step low path s (run_op op s)
unfolding run_op
run_op-Step low path (putting q bytes opts) s room lo d =
    put_opts-Step low path q bytes opts s room lo d
run_op-Step low path (deleting q) s room lo d = delete-Step low path q s d
run_op-Step low path (ticking t) s room lo d = record {
  dated = d;
  grown = omega arith;
  one_more = omega arith;
}

run-Dated :
    (low : ℕ) (path : Bytes) (ops : List Op) (s : InMemory)
    → s.etag_seq + length ops < 2 ^ 64
    → low ≤ s.etag_seq
    → Dated low path s
    → Dated low path (run ops s) × ((run ops s).etag_seq ≤ s.etag_seq + length ops)
unfolding run
run-Dated low path [] s room lo d = (d, omega arith)
run-Dated low path (op ∷ ops) s room lo d =
    let step = run_op-Step low path op s (omega arith) lo d in
    let (dated, few) =
      run-Dated low path ops (run_op op s) (omega (arith, step.one_more))
        (omega (arith, step.grown)) step.dated in
    (dated, omega (arith, few, step.one_more))

etag_of-injective : (m n : ℕ) → etag_of m ≡ etag_of n → m ≡ n
unfolding etag_of
etag_of-injective m n h = decimal-injective m n (cc h)

-- Behind a put the object's number is above all that were given out before.
record StoredAfter (n : ℕ) (path bytes : Bytes) (s : InMemory) : Type 0 where
  dated : Dated (suc n) path (stored path bytes s)
  next : (stored path bytes s).etag_seq ≡ s.etag_seq + 1

stored-after :
    (n : ℕ) (path bytes : Bytes) (s : InMemory)
    → s.etag_seq + 1 < 2 ^ 64
    → n ≤ s.etag_seq
    → StoredAfter n path bytes s
unfolding stored find
stored-after n path bytes s room given = record {
  dated = λ obj h.
      ((s.etag_seq + 1) % 2 ^ 64, omega arith, omega arith, ground (arith, h, bytes_eq_refl path));
  next = omega arith;
}

-- The store is where it starts or where operations have left it.
Dated-new : (path : Bytes) (now : ℕ) → Dated 0 path (new_in_memory now)
unfolding find
Dated-new path now obj h = absurd (cc h)

abbrev update_of : Bytes → PutOptions
update_of etag = record { mode = put_update; version = record { etag = etag; version = [] } }

refused :
    (path bytes etag : Bytes) (n : ℕ) (s : InMemory)
    → etag ≡ etag_of n
    → Dated (suc n) path s
    → put_opts path bytes (update_of etag) s ≡ (err precondition_failed, s)
unfolding put_opts admitted
refused path bytes etag n s given d = elim (Option-cases (find path s.objects)) [
  | inl e ↦ rw (e, put_opts, admitted) refl
  | inr (obj, e) ↦
      let (k, above, _, is_k) = d obj e in
      elim (Bool-cases (bytes_eq obj.etag etag)) [
        | inl same ↦ absurd (
            omega
              (arith, etag_of-injective k n (sym is_k ∙ bytes_eq→eq obj.etag etag same ∙ given)))
        | inr other ↦ rw (e, put_opts, admitted, other) refl
      ]
]

module _ (start : ℕ) (path : Bytes) where
  -- Once a put of an object has landed, a conditional put at the version that was current before
  -- it is refused with `ErrPreconditionFailed` and changes nothing, whatever puts, deletes and
  -- clock ticks stand before the put and behind it, for fewer than 2 ^ 64 operations in all.
  pub put_opts-stale :
      (past between : List Op) (obj : MemObject) (theirs mine : Bytes)
      → length past + 1 + length between < 2 ^ 64
      → find path (run past (new_in_memory start)).objects ≡ some obj
      → let s = run between (stored path theirs (run past (new_in_memory start))) in
        put_opts path mine (update_of obj.etag) s ≡ (err precondition_failed, s)
  put_opts-stale past between obj theirs mine room here =
      let (dated, few) =
        run-Dated 0 path past (new_in_memory start) (omega arith) (omega arith)
          (Dated-new path start) in
      let s = run past (new_in_memory start) in
      let (n, _, given, is_n) = dated obj here in
      let fresh = stored-after n path theirs s (omega (arith, few)) given in
      refused path mine obj.etag n (run between (stored path theirs s)) is_n
        (run-Dated (suc n) path between (stored path theirs s) (omega (arith, few, fresh.next))
          (omega (arith, fresh.next)) fresh.dated).0
