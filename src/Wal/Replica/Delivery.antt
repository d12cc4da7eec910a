-- ===== src/Wal/Replica/Delivery.antt =====
-- Which records of a segment reach the applier.
use objwal.Prelude.{
  ℕ, ◌+◌, ◌≡◌, ◌∙◌, ap, inl, inr, List, [], ◌∷◌, ◌++◌, append-nil, append_assoc, length, ltb,
  Bool-cases, if◌then◌else◌, arith,
}
use objwal.Error.{ok}
use objwal.Std.LittleEndian.{Bytes}
use objwal.Wal.Entry.{Entry}
use objwal.Wal.Replica.{Record, ReplicaEnv, record_sequence, record_of, deliver, after_apply}

-- The records of a segment whose sequence is `resume_at` or above, from the index `i` on.
unfoldable records_from : Entry → ℕ → ℕ → List Bytes → List Record
records_from e resume_at i [] = []
records_from e resume_at i (c ∷ cs) =
    let rest = records_from e resume_at (i + 1) cs in
    if ltb (record_sequence e i) resume_at then rest else record_of e i c ∷ rest

-- Over an applier that never fails and logs its records behind those it has, a segment's delivery
-- adds to the log the records from the position to resume at on, in order and once each, and counts
-- them.
deliver_lem :
    (env : ReplicaEnv (List Record)) (e : Entry) (resume_at i : ℕ) (records : List Bytes)
    (applied : ℕ) (log : List Record)
    → ((r : Record) (l : List Record) → env.apply r l ≡ (ok tt, l ++ r ∷ []))
    → deliver env e resume_at i records applied log ≡ (
      (ok tt, applied + length (records_from e resume_at i records)),
      log ++ records_from e resume_at i records,
    )
unfolding deliver records_from after_apply
deliver_lem env e resume_at i [] applied log h =
    rw (append-nil log) (ap (λ n. ((ok tt, n), log)) (omega arith))
deliver_lem env e resume_at i (c ∷ cs) applied log h =
    elim (Bool-cases (ltb (record_sequence e i) resume_at)) [
      | inl below ↦ rw below (deliver_lem env e resume_at (i + 1) cs applied log h)
      | inr above ↦
          rw (above, h (record_of e i c) log, after_apply)
            (deliver_lem env e resume_at (i + 1) cs (applied + 1) (log ++ record_of e i c ∷ []) h
              ∙ rw (append_assoc log (record_of e i c ∷ []) (records_from e resume_at (i + 1) cs)) (
                  ap
                    (λ n.
                      ((ok tt, n), log ++ record_of e i c ∷ records_from e resume_at (i + 1) cs))
                    (omega arith)))
    ]
