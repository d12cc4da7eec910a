-- ===== src/Wal/Replica/Tailing.antt =====
-- A pass keeps what is true of the world at a position of the log, if the applier does.
pub mod Passing
use objwal.Prelude.{
  ℕ, ◌+◌, ◌^◌, ◌≤◌, ◌<◌, ◌≡◌, refl, sym, ap, subst, ◌∙◌, inl, inr, List, [], ◌∷◌, length, All, ltb,
  leb, ◌&&◌, Bool-cases, if◌then◌else◌, filter_by, arith,
}
use objwal.Error.{Result, ok, err}
use objwal.Std.LittleEndian.{Bytes}
use objwal.ObjectStore.{GetResult}
use objwal.Wal.Entry.{Entry, end, range_size}
use objwal.Wal.Segment.{decode_segment}
use objwal.Wal.Manifest.Holds.{Tiles}
use objwal.Wal.Manifest.Locate.{past, past_later, end-Tiles, Tiles-le}
use objwal.Wal.Replica.Position.{saved-next}
use objwal.Wal.Replica.{
  Record, ReplicaEnv, ReplicaConfig, Pass, record_sequence, record_of, after_apply, deliver, saved,
  save_cursor, after_save, Passed, finish, paced, after_delivery, after_decode, after_get,
  poll_loop,
}

-- Entries of a log up to `b`, the first of which holds the sequence `r`.
abbrev pub LogFrom : ℕ → List Entry → ℕ → Type 0
LogFrom r [] b = Unit
LogFrom r (e ∷ es) b =
    (e.sequence ≤ r) × (r < e.sequence + range_size e) × Tiles (e.sequence + range_size e) es b

pub past-LogFrom :
    (a b r : ℕ) (es : List Entry) → Tiles a es b → b < 2 ^ 64 → a ≤ r → LogFrom r (past r es) b
unfolding filter_by
past-LogFrom a b r [] t f h = tt
past-LogFrom a b r (e ∷ es) (t, ts) f h =
    let stop = end-Tiles a b e es (t, ts) f in
    elim (Bool-cases (ltb r (end e))) [
      | inl here ↦
          rw (here, past_later (a + range_size e) b r es ts f (ground (arith, stop)))
            (
              omega arith,
              ground (arith, stop),
              subst (λ n. Tiles (n + range_size e) es b) (sym t) ts,
            )
      | inr later ↦ rw later (past-LogFrom (a + range_size e) b r es ts f (ground (arith, stop)))
    ]

unfoldable pub highest : ℕ → ℕ → ℕ
highest r a = if ltb a r then r else a

-- What a pass that stands at `n`, and resumed at `r`, has before it.
abbrev pub Rest : ℕ → ℕ → List Entry → ℕ → Type 0
Rest r n [] b = Unit
Rest r n (e ∷ es) b =
    (highest r e.sequence ≡ n)
    × (r < e.sequence + range_size e)
    × Tiles (e.sequence + range_size e) es b

pub LogFrom-Rest : (r : ℕ) (es : List Entry) (b : ℕ) → LogFrom r es b → Rest r r es b
unfolding highest
LogFrom-Rest r [] b h = tt
LogFrom-Rest r (e ∷ es) b (u, v, t) = (ground (arith, u), v, t)

pub Tiles-Rest : (r a : ℕ) (es : List Entry) (b : ℕ) → r < a → Tiles a es b → Rest r a es b
unfolding highest
Tiles-Rest r a [] b h t = tt
Tiles-Rest r a (e ∷ es) b h (u, t) =
    (ground (arith, u, h), omega arith, subst (λ n. Tiles (n + range_size e) es b) (sym u) t)

-- A statement of each record of an entry's segment, from the index `i` on.
abbrev pub Genuine : (Record → Type 0) → Entry → ℕ → List Bytes → Type 0
Genuine G e i [] = Unit
Genuine G e i (c ∷ cs) = G (record_of e i c) × Genuine G e (i + 1) cs

abbrev pub AnyRecord : Record → Type 0
AnyRecord rec = Unit

-- The world is at a position, `n` if there was no error.
pub record Ends {W : Type 0} (P : ℕ → W → Type 0) (n : ℕ) (r : Result (Unit {0})) (w : W)
    : Type 0 where
  pub at : ℕ
  pub held : P at w
  pub good : r ≡ ok tt → at ≡ n

-- What the world keeps: reads and saved cursors leave it at its position, and the applier takes it
-- on such a record to the next.
pub record Keeps {W : Type 0} (env : ReplicaEnv W) (G : Record → Type 0) (P : ℕ → W → Type 0)
    : Type 0 where
  pub get_keeps : (n : ℕ) (path : Bytes) (w : W) → P n w → P n (env.os.get path w).1
  pub save_keeps : (n next : ℕ) (w : W) → P n w → P n (save_cursor env next w).1
  pub apply_moves :
      (n : ℕ) (rec : Record) (w : W)
      → rec.sequence ≡ n
      → n + 1 < 2 ^ 64
      → G rec
      → P n w
      → Ends P (n + 1) (env.apply rec w).0 (env.apply rec w).1

-- In a world of the statement, the segment of an entry has such a record for each sequence of its
-- range.
abbrev pub Sized :
    {W : Type 0} → ReplicaEnv W → (Record → Type 0) → (ℕ → W → Type 0) → Entry → Type 0
Sized {W} env G P e =
    (n : ℕ) (w : W) (res : GetResult) (records : List Bytes)
    → P n w
    → (env.os.get e.location w).0 ≡ ok res
    → decode_segment env.zstd res.contents ≡ ok records
    → (length records ≡ range_size e) × Genuine G e 0 records

module _ {W : Type 0} (env : ReplicaEnv W) (G : Record → Type 0) (P : ℕ → W → Type 0)
    (keeps : Keeps env G P) where
  record_sequence-in_range :
      (e : Entry) (i : ℕ)
      → i < range_size e
      → e.sequence + range_size e < 2 ^ 64
      → record_sequence e i ≡ e.sequence + i
  unfolding record_sequence range_size
  record_sequence-in_range e i h f = ground arith

  module _ (e : Entry) (r : ℕ) (fits : e.sequence + range_size e < 2 ^ 64) where
    after_apply-Ends :
        (more : ℕ → W → (Result (Unit {0}) × ℕ) × W) (applied n to : ℕ) (d : Result (Unit {0}) × W)
        → ((k : ℕ) (w : W) → P n w → Ends P to (more k w).0.0 (more k w).1)
        → Ends P n d.0 d.1
        → Ends P to (after_apply env more applied d).0.0 (after_apply env more applied d).1
    unfolding after_apply
    after_apply-Ends more applied n to (err x, w) go d = record {
      at = d.at;
      held = d.held;
      good = λ k. absurd (cc k);
    }
    after_apply-Ends more applied n to (ok u, w) go d =
        go (applied + 1) w (subst (λ m. P m w) (d.good refl) d.held)

    pub deliver-Ends :
        (i : ℕ) (records : List Bytes) (applied : ℕ) (w : W)
        → i + length records ≤ range_size e
        → Genuine G e i records
        → P (highest r (e.sequence + i)) w
        → Ends P
            (highest r (e.sequence + i + length records))
            (deliver env e r i records applied w).0.0
            (deliver env e r i records applied w).1
    unfolding deliver highest record_of
    deliver-Ends i [] applied w h g p = record {
      at = _;
      held = p;
      good = λ _. ap (highest r) (omega arith);
    }
    deliver-Ends i (c ∷ cs) applied w h (g, gs) p =
        let seq : record_sequence e i ≡ e.sequence + i =
          record_sequence-in_range e i (omega arith) fits in
        let to : highest r (e.sequence + (i + 1) + length cs)
            ≡ highest r (e.sequence + i + length (c ∷ cs)) =
          ap (highest r) (omega arith) in
        subst
          (λ n.
            Ends P n (deliver env e r i (c ∷ cs) applied w).0.0
              (deliver env e r i (c ∷ cs) applied w).1)
          to
          (elim (Bool-cases (ltb (record_sequence e i) r)) [
            | inl below ↦
                rw (below, deliver)
                  (deliver-Ends (i + 1) cs applied w (omega arith) gs
                    (subst (λ n. P n w) (ground (arith, seq, below)) p))
            | inr above ↦
                rw (above, deliver)
                  (after_apply-Ends (deliver env e r (i + 1) cs) applied (e.sequence + i + 1) _ _
                    (λ k v q.
                      deliver-Ends (i + 1) cs k v (omega arith) gs
                        (subst (λ n. P n v) (ground (arith, seq, above)) q))
                    (keeps.apply_moves (e.sequence + i) (record_of e i c) w seq (omega arith) g
                      (subst (λ n. P n w) (ground (arith, seq, above)) p)))
          ])
