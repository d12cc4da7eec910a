-- ===== src/Wal/Replica/Follow.antt =====
-- What one poll of a replica without a cursor store does to a world that the applier moves along
-- the log.
use objwal.Prelude.{
  ℕ, ◌+◌, ◌^◌, ◌≤◌, ◌<◌, ◌≡◌, refl, sym, ap, subst, ◌∙◌, inl, inr, true, false, none, List, [], ◌∷◌,
  All, ltb, Bool-cases, filter_by, arith, append-nil,
}
use objwal.Error.{Result, ok, err}
use objwal.Wal.Entry.{Entry, end, range_size}
use objwal.Wal.Manifest.{Manifest, entries_containing}
use objwal.Wal.Manifest.Holds.{Tiles, Holds, entries-Holds}
use objwal.Wal.Manifest.Locate.{past, past_later, end-Tiles, Tiles-le}
use objwal.Wal.Store.{Loaded, load}
use objwal.Wal.Replica.{
  Record, ReplicaEnv, ReplicaConfig, Replica, Passed, restore, finish, poll_loop, after_pass,
  after_entries, after_load, poll_restored, poll,
}
use objwal.Wal.Replica.Position.{behind, Advanced, poll_loop-Advanced}
use objwal.Wal.Replica.Tailing.{past-LogFrom, Ends, Keeps, Sized}
use objwal.Wal.Replica.Tailing.Passing.{PassEnds, poll_loop-PassEnds}

-- A log that the position `from` is not before, of segments of the right sizes.
pub record Log {W : Type 0} (env : ReplicaEnv W) (G : Record → Type 0) (P : ℕ → W → Type 0)
    (m : Manifest) (from : ℕ) : Type 0 where
  pub first : ℕ
  pub log : List Entry
  pub holds : Holds m first log
  pub not_before : first ≤ from
  pub sized : All (Sized env G P) log

-- A log around a position is one around a later position.
pub later-Log :
    {W : Type 0} (env : ReplicaEnv W) (G : Record → Type 0) (P : ℕ → W → Type 0) (m : Manifest)
    (a b : ℕ)
    → a ≤ b
    → Log env G P m a
    → Log env G P m b
later-Log env G P m a b h log = record {
  first = log.first;
  log = log.log;
  holds = log.holds;
  not_before = omega (arith, h, log.not_before);
  sized = log.sized;
}

All-past : (P : Entry → Type 0) (r : ℕ) (es : List Entry) → All P es → All P (past r es)
unfolding filter_by
All-past P r [] h = tt
All-past P r (e ∷ es) (h, hs) = elim (Bool-cases (ltb r (end e))) [
  | inl here ↦ rw here (h, All-past P r es hs)
  | inr later ↦ rw later (All-past P r es hs)
]

behind-Tiles : (a b : ℕ) (es : List Entry) → Tiles a es b → b < 2 ^ 64 → behind a es ≡ b
unfolding behind
behind-Tiles a b [] t f = t
behind-Tiles a b (e ∷ es) (t, ts) f =
    rw (end-Tiles a b e es (t, ts) f) (behind-Tiles (a + range_size e) b es ts f)

behind-past :
    (a b r : ℕ) (es : List Entry)
    → Tiles a es b
    → b < 2 ^ 64
    → a ≤ r
    → r ≤ b
    → behind r (past r es) ≡ b
unfolding filter_by behind
behind-past a b r [] t f h k = omega arith
behind-past a b r (e ∷ es) (t, ts) f h k =
    let stop = end-Tiles a b e es (t, ts) f in
    elim (Bool-cases (ltb r (end e))) [
      | inl here ↦
          rw (here, past_later (a + range_size e) b r es ts f (ground (arith, stop)), stop)
            (behind-Tiles (a + range_size e) b es ts f)
      | inr later ↦ rw later (behind-past (a + range_size e) b r es ts f (ground (arith, stop)) k)
    ]

past_end : (a b r : ℕ) (es : List Entry) → Tiles a es b → b < 2 ^ 64 → b ≤ r → past r es ≡ []
unfolding filter_by
past_end a b r [] t f h = refl
past_end a b r (e ∷ es) (t, ts) f h =
    let stop = end-Tiles a b e es (t, ts) f in
    let le = Tiles-le (a + range_size e) b es ts in
    let later : ltb r (end e) ≡ false = ground (arith, stop, le) in
    rw later (past_end (a + range_size e) b r es ts f h)

pub entries_containing-Holds :
    {m : Manifest} {first : ℕ} {es : List Entry} (seq : ℕ)
    → Holds m first es
    → entries_containing m seq ≡ ok (past seq es)
unfolding entries_containing
entries_containing-Holds seq h = rw (entries-Holds h) refl

restore-none :
    {W : Type 0} (env : ReplicaEnv W) (r : Replica) (w : W)
    → env.cursor ≡ none
    → restore env r w ≡ (ok r, w)
unfolding restore
restore-none env r w h = ground arith

module _ {W : Type 0} (env : ReplicaEnv W) (cfg : ReplicaConfig) (G : Record → Type 0)
    (P : ℕ → W → Type 0) (keeps : Keeps env G P) where
  -- The world stands where the replica does, unless there was an error.
  abbrev pub PollEnds : (Result (Unit {0}) × ℕ) × (Replica × W) → Type 0
  PollEnds out = Ends P out.1.0.next out.0.0 out.1.1

  after_pass-PollEnds :
      (r : Replica) (out : Passed W)
      → PassEnds env G P keeps out
      → PollEnds (after_pass env cfg r out)
  unfolding after_pass
  after_pass-PollEnds r ((s, p), w) h = h

  after_entries-PollEnds :
      (r : Replica) (m : Manifest) (w : W)
      → Log env G P m r.next
      → P r.next w
      → PollEnds (after_entries env cfg r (entries_containing m r.next) w)
  unfolding after_entries
  after_entries-PollEnds r m w log h =
      rw (entries_containing-Holds r.next log.holds, after_entries)
        (after_pass-PollEnds r _ (
          poll_loop-PassEnds env G P keeps cfg m.next_sequence (past r.next log.log) _ w
            log.holds.next_fits
            (past-LogFrom log.first m.next_sequence r.next log.log log.holds.tiled
              log.holds.next_fits log.not_before)
            (All-past (Sized env G P) r.next log.log log.sized) h))

  after_load-PollEnds :
      (r : Replica) (d : Result Loaded × W)
      → ((l : Loaded) → d.0 ≡ ok l → l.exists ≡ true → Log env G P l.manifest r.next)
      → P r.next d.1
      → PollEnds (after_load env cfg r d)
  unfolding after_load
  after_load-PollEnds r (err x, w) source h = record { at = r.next; held = h; good = λ _. refl }
  after_load-PollEnds r (ok l, w) source h = elim (Bool-cases l.exists) [
    | inl there ↦
        rw (there, after_load) (after_entries-PollEnds r l.manifest w (source l refl there) h)
    | inr absent_ ↦ rw (absent_, after_load) (record { at = r.next; held = h; good = λ _. refl })
  ]

  -- For a replica without a cursor store, and a statement of a position and the world that reads
  -- keep and the applier, on the record of a position, takes to the next (or, with an error, to
  -- some position), over a store that answers with logs which begin at or before the replica's
  -- position, in segments of the right sizes: if the statement holds where the replica stands, a
  -- poll leaves it true where the replica then stands, or, with an error, at some position.
  pub poll-PollEnds :
      (r : Replica) (w : W)
      → env.cursor ≡ none
      → ((l : Loaded)
          → (load env.os cfg.manifest_path w).0 ≡ ok l
          → l.exists ≡ true
          → Log env G P l.manifest r.next)
      → P r.next w
      → PollEnds (poll env cfg r w)
  unfolding poll poll_restored load
  poll-PollEnds r w none_kept source h =
      rw (restore-none env r w none_kept, poll)
        (after_load-PollEnds r _ source (keeps.get_keeps r.next cfg.manifest_path w h))

module _ {W : Type 0} (env : ReplicaEnv W) (cfg : ReplicaConfig) where
  after_pass-whole :
      (r : Replica) (from b : ℕ) (es : List Entry) (out : Passed W)
      → Advanced cfg.max_records_per_poll from es out.0
      → behind from es ≡ b
      → cfg.max_records_per_poll ≡ 0
      → (after_pass env cfg r out).0.0 ≡ ok tt
      → (after_pass env cfg r out).1.0.next ≡ b
  unfolding after_pass
  after_pass-whole r from b es ((s, p), w) a stop unbounded good =
      let all : es ≡ a.through = rw (a.split, a.complete good unbounded) (append-nil a.through) in
      a.position ∙ sym (ap (behind from) all) ∙ stop

  module _ {G : Record → Type 0} {P : ℕ → W → Type 0} where
    after_load-whole :
        (r : Replica) (l : Loaded) (w : W)
        → l.exists ≡ true
        → Log env G P l.manifest r.next
        → r.next ≤ l.manifest.next_sequence
        → cfg.max_records_per_poll ≡ 0
        → (after_load env cfg r (ok l, w)).0.0 ≡ ok tt
        → (after_load env cfg r (ok l, w)).1.0.next ≡ l.manifest.next_sequence
    unfolding after_load after_entries
    after_load-whole r l w there log h unbounded =
        rw (there, entries_containing-Holds r.next log.holds, after_entries)
          (after_pass-whole r r.next l.manifest.next_sequence (past r.next log.log) _
            (poll_loop-Advanced env cfg r.next (past r.next log.log) _ w)
            (behind-past log.first l.manifest.next_sequence r.next log.log log.holds.tiled
              log.holds.next_fits log.not_before h)
            unbounded)

    -- A poll without error and without a budget of records takes the replica to the end of the log.
    pub poll-whole :
        (r : Replica) (w : W) (l : Loaded)
        → env.cursor ≡ none
        → (load env.os cfg.manifest_path w).0 ≡ ok l
        → l.exists ≡ true
        → Log env G P l.manifest r.next
        → r.next ≤ l.manifest.next_sequence
        → cfg.max_records_per_poll ≡ 0
        → (poll env cfg r w).0.0 ≡ ok tt
        → (poll env cfg r w).1.0.next ≡ l.manifest.next_sequence
    unfolding poll poll_restored load
    poll-whole r w l none_kept e there log h unbounded =
        rw (restore-none env r w none_kept, poll)
          (subst
            (λ x.
              (after_load env cfg r (x, (load env.os cfg.manifest_path w).1)).0.0 ≡ ok tt
              → (after_load env cfg r (x, (load env.os cfg.manifest_path w).1)).1.0.next
                ≡ l.manifest.next_sequence)
            (sym e) (after_load-whole r l _ there log h unbounded))

    after_load-nothing :
        (r : Replica) (l : Loaded) (w : W)
        → l.exists ≡ true
        → Log env G P l.manifest r.next
        → l.manifest.next_sequence ≤ r.next
        → (after_load env cfg r (ok l, w)).0.1 ≡ 0
    unfolding after_load after_entries poll_loop finish after_pass
    after_load-nothing r l w there log h =
        rw
          (
            there,
            entries_containing-Holds r.next log.holds,
            after_entries,
            past_end log.first l.manifest.next_sequence r.next log.log log.holds.tiled
                log.holds.next_fits h,
            poll_loop,
          )
          refl

    -- A poll at the end of the log applies no record.
    pub poll-nothing :
        (r : Replica) (w : W) (l : Loaded)
        → env.cursor ≡ none
        → (load env.os cfg.manifest_path w).0 ≡ ok l
        → l.exists ≡ true
        → Log env G P l.manifest r.next
        → l.manifest.next_sequence ≤ r.next
        → (poll env cfg r w).0.1 ≡ 0
    unfolding poll poll_restored load
    poll-nothing r w l none_kept e there log h =
        rw (restore-none env r w none_kept, poll)
          (subst (λ x. (after_load env cfg r (x, (load env.os cfg.manifest_path w).1)).0.1 ≡ 0)
            (sym e) (after_load-nothing r l _ there log h))
