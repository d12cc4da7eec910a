-- ===== src/Cmd/S3bench/Read/Whole.antt =====
-- What the benchmark counts when it has read a log.
use objwal.Prelude.{
  ℕ, zero, suc, ◌+◌, ◌%◌, ◌^◌, ◌≤◌, ◌<◌, ◌≡◌, refl, sym, ap, subst, ◌∙◌, inl, inr, true, length,
  ◌==◌, Bool-cases, if◌then◌else◌, arith,
}
use objwal.Error.{Result, ok, err}
use objwal.Std.LittleEndian.{Bytes}
use objwal.ObjectStore.{ObjectStore}
use objwal.Wal.Segment.{Zstd}
use objwal.Wal.Entry.{u64_mod}
use objwal.Wal.Store.{Loaded, load}
use objwal.Wal.Replica.{Record, with_replica_defaults, Replica, new_replica, save_cursor, poll}
use objwal.Wal.Replica.Tailing.{Keeps}
use objwal.Wal.Replica.Follow.{Log, later-Log, poll-PollEnds, poll-whole, poll-nothing}
use objwal.Cmd.S3bench.Read.{
  Tally, tallied, nothing_read, bench_env, bench_replica, ReadSoFar, after_read_poll, read_loop,
  tally_of, run_read,
}

-- The bytes of the first `n` records of a log, behind those of `acc`.
unfoldable pub bytes_upto : (ℕ → Record) → ℕ → ℕ
bytes_upto at zero = 0
bytes_upto at (suc n) = bytes_upto at n + length (at n).contents

module _ {W : Type 0} (zstd : Zstd) (os : ObjectStore W) (manifest : Bytes) (at : ℕ → Record) where
  -- The tally is that of the records before the position.
  abbrev pub Tallied : ℕ → Tally × W → Type 0
  Tallied n (t, w) =
      (n < u64_mod) × (t.read_records ≡ n) × (t.read_bytes ≡ bytes_upto at n % u64_mod)

  abbrev pub IsAt : Record → Type 0
  IsAt rec = rec ≡ at rec.sequence

  tallied-next :
      (n : ℕ) (rec : Record) (t : Tally) (w : W)
      → rec.sequence ≡ n
      → n + 1 < 2 ^ 64
      → IsAt rec
      → Tallied n (t, w)
      → Tallied (n + 1) (tallied rec t, w)
  unfolding tallied bytes_upto
  tallied-next n rec t w seq f is (_, count, size) =
      let one_more : n + 1 ≡ suc n = omega arith in
      let longer : bytes_upto at (n + 1) ≡ bytes_upto at n + length (at n).contents =
        ap (bytes_upto at) one_more in
      let same : length rec.contents ≡ length (at n).contents =
        ap (λ r. length r.contents) (is ∙ ap at seq) in
      (f, omega (arith, count, f), omega (arith, size, longer, same))

  bench_env-Keeps : Keeps (bench_env zstd os) IsAt Tallied
  unfolding bench_env save_cursor
  bench_env-Keeps = record {
    get_keeps = λ n path (t, w) h. h;
    save_keeps = λ n next w h. h;
    apply_moves = λ n rec (t, w) seq f is h. record {
      at = n + 1;
      held = tallied-next n rec t w seq f is h;
      good = λ _. refl;
    };
  }

  module _ (l : Loaded)
      (still : (t : Tally) (w : W) → (load (bench_env zstd os).os manifest (t, w)).0 ≡ ok l)
      (there : l.exists ≡ true) where
    -- The replica is in the log, and the tally with it.
    pub record Reading (r : Replica) (t : Tally × W) : Type 0 where
      pub tally : Tallied r.next t
      pub log : Log (bench_env zstd os) IsAt Tallied l.manifest r.next
      pub below : r.next ≤ l.manifest.next_sequence

    poll-Reading :
        (r : Replica) (t : Tally) (w : W)
        → Reading r (t, w)
        → (poll (bench_env zstd os) (bench_replica manifest) r (t, w)).0.0 ≡ ok tt
        → Reading
            (poll (bench_env zstd os) (bench_replica manifest) r (t, w)).1.0
            (poll (bench_env zstd os) (bench_replica manifest) r (t, w)).1.1
          × ((poll (bench_env zstd os) (bench_replica manifest) r (t, w)).1.0.next
              ≡ l.manifest.next_sequence)
    unfolding bench_env bench_replica with_replica_defaults
    poll-Reading r t w h good =
        let to =
          poll-whole (bench_env zstd os) (bench_replica manifest) r (t, w) l refl (still t w) there
            h.log h.below refl good in
        let ends =
          poll-PollEnds (bench_env zstd os) (bench_replica manifest) IsAt Tallied bench_env-Keeps r
            (t, w) refl
            (λ l' e _.
              let same : ok l ≡ ok l' = sym (still t w) ∙ e in
              let e' : l ≡ l' = cc same in
              subst (λ x. Log (bench_env zstd os) IsAt Tallied x.manifest r.next) e' h.log)
            h.tally in
        (
          record {
            tally =
                subst
                  (λ n. Tallied n (poll (bench_env zstd os) (bench_replica manifest) r (t, w)).1.1)
                  (ends.good good) ends.held;
            log = later-Log _ _ _ _ r.next _ (omega (arith, to, h.below)) h.log;
            below = omega (arith, to);
          },
          to,
        )

    -- The tally of all of the log.
    abbrev pub WholeTally : Tally → Type 0
    WholeTally t =
        (t.read_records ≡ l.manifest.next_sequence)
        × (t.read_bytes ≡ bytes_upto at l.manifest.next_sequence % u64_mod)

    abbrev Through : ReadSoFar zstd os → Type 0
    Through out = out.0 ≡ ok tt → WholeTally out.1.1.0

    after_read_poll-Through :
        (more : Replica → Tally × W → ReadSoFar zstd os)
        (d : (Result (Unit {0}) × ℕ) × (Replica × (Tally × W)))
        → (d.0.0 ≡ ok tt → WholeTally d.1.1.0)
        → (d.0.0 ≡ ok tt → Through (more d.1.0 d.1.1))
        → Through (after_read_poll zstd os more d)
    unfolding after_read_poll
    after_read_poll-Through more ((err e, n), (r, t)) now later good = absurd (cc good)
    after_read_poll-Through more ((ok u, n), (r, t)) now later good = elim (Bool-cases (n == 0)) [
      | inl nothing ↦ rw nothing (now refl)
      | inr some_left ↦ rw some_left (later refl (rw some_left at good))
    ]

    read_loop-Through :
        (fuel : ℕ) (r : Replica) (t : Tally) (w : W)
        → Reading r (t, w)
        → Through (read_loop zstd os manifest fuel r (t, w))
    unfolding read_loop
    read_loop-Through zero r t w h good = absurd (cc good)
    read_loop-Through (suc fuel) r t w h all =
        after_read_poll-Through (read_loop zstd os manifest fuel) _
          (λ good.
            let (reading, to) = poll-Reading r t w h good in
            let (_, count, size) = reading.tally in
            (count ∙ to, size ∙ ap (λ n. bytes_upto at n % u64_mod) to))
          (λ good. read_loop-Through fuel _ _ _ (poll-Reading r t w h good).0) all

    tally_of-Whole :
        (out : ReadSoFar zstd os) (t : Tally)
        → Through out
        → (tally_of zstd os out).0 ≡ ok t
        → WholeTally t × (0 < t.read_records)
    unfolding tally_of
    tally_of-Whole (err e, (r, (t, w))) u h good = absurd (cc good)
    tally_of-Whole (ok x, (r, (t, w))) u h good = elim (Bool-cases (t.read_records == 0)) [
      | inl nothing ↦ let bad = rw nothing at good in absurd (cc bad)
      | inr some_read ↦
          let got : ok t ≡ ok u = rw some_read at good in
          let same : t ≡ u = cc got in
          subst (λ x. WholeTally x × (0 < x.read_records)) same (h refl, ground (arith, some_read))
    ]

    poll-none :
        (r : Replica) (t : Tally) (w : W)
        → Reading r (t, w)
        → r.next ≡ l.manifest.next_sequence
        → (poll (bench_env zstd os) (bench_replica manifest) r (t, w)).0.1 ≡ 0
    unfolding bench_env bench_replica with_replica_defaults
    poll-none r t w h at_end =
        poll-nothing (bench_env zstd os) (bench_replica manifest) r (t, w) l refl (still t w) there
          h.log (omega (arith, at_end))

    after_read_poll-same :
        (more other : Replica → Tally × W → ReadSoFar zstd os)
        (d : (Result (Unit {0}) × ℕ) × (Replica × (Tally × W)))
        → (d.0.0 ≡ ok tt → more d.1.0 d.1.1 ≡ other d.1.0 d.1.1)
        → after_read_poll zstd os more d ≡ after_read_poll zstd os other d
    unfolding after_read_poll
    after_read_poll-same more other ((err e, n), (r, t)) h = refl
    after_read_poll-same more other ((ok u, n), (r, t)) h =
        ap (λ x. if n == 0 then (ok u, (r, t)) else x) (h refl)

    after_read_poll-stops :
        (more other : Replica → Tally × W → ReadSoFar zstd os)
        (d : (Result (Unit {0}) × ℕ) × (Replica × (Tally × W)))
        → d.0.1 ≡ 0
        → after_read_poll zstd os more d ≡ after_read_poll zstd os other d
    unfolding after_read_poll
    after_read_poll-stops more other ((err e, n), (r, t)) h = refl
    after_read_poll-stops more other ((ok u, n), (r, t)) h = rw h refl

    read_loop-ends :
        (fuel : ℕ) (r : Replica) (t : Tally) (w : W)
        → Reading r (t, w)
        → read_loop zstd os manifest (suc (suc fuel)) r (t, w)
          ≡ read_loop zstd os manifest 2 r (t, w)
    unfolding read_loop
    read_loop-ends fuel r t w h =
        after_read_poll-same _ _ (poll (bench_env zstd os) (bench_replica manifest) r (t, w))
          (λ good.
            let (reading, to) = poll-Reading r t w h good in
            after_read_poll-stops _ _ _ (poll-none _ _ _ reading to))

    start-Reading :
        (w : W)
        → Log (bench_env zstd os) IsAt Tallied l.manifest 0
        → Reading (new_replica (bench_replica manifest)) (nothing_read, w)
    unfolding new_replica bench_replica with_replica_defaults bytes_upto
    start-Reading w log = record {
      tally = (omega arith, refl, omega arith);
      log = log;
      below = omega arith;
    }

    -- For a log in the store that does not change, from its first sequence 0 on, whose segments hold
    -- the records of one sequence of records: the read returns within two polls (with more fuel it
    -- returns the same), and what it returns without an error is the number of the log's records,
    -- not 0, and the sum of their sizes, as far as 64 bits hold it.
    pub run_read-whole :
        (fuel : ℕ) (w : W)
        → Log (bench_env zstd os) IsAt Tallied l.manifest 0
        → (run_read zstd os manifest (suc (suc fuel)) w ≡ run_read zstd os manifest 2 w)
          × ((t : Tally)
              → (run_read zstd os manifest 2 w).0 ≡ ok t
              → WholeTally t × (0 < t.read_records))
    unfolding run_read
    run_read-whole fuel w log =
        let reading = start-Reading w log in
        (
          ap (tally_of zstd os) (read_loop-ends fuel _ nothing_read w reading),
          λ t good.
              tally_of-Whole
                (read_loop zstd os manifest 2 (new_replica (bench_replica manifest))
                  (nothing_read, w))
                t (read_loop-Through 2 _ nothing_read w reading) good,
        )
