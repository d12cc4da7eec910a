-- ===== src/Wal/Replica.antt =====
-- wal/replica.go and wal/applier.go: one pass of the tail loop. The world answers the object store,
-- the applier and the cursor store.
pub mod Position
pub mod Delivery
pub mod Tailing
pub mod Follow
pub mod Run
pub mod Exact
pub mod Fixture
mod Tests
use objwal.Prelude.{
  ℕ, ◌+◌, ◌*◌, ◌%◌, ◌≡◌, refl, Bool, true, false, ◌&&◌, List, [], ◌∷◌, Option, none, some, ltb, leb,
  ◌==◌, if◌then◌else◌,
}
use objwal.Error.{
  Result, ok, err, Error, wrap, replica_get, replica_decode, replica_apply, persist_cursor, ◌>>=◌,
}
use objwal.Std.LittleEndian.{Bytes}
use objwal.ObjectStore.{ObjectStore, Eff, GetResult}
use objwal.Wal.Entry.{RecordMeta, Entry, end, u64_mod}
use objwal.Wal.Segment.{Zstd, decode_segment}
use objwal.Wal.Manifest.{entries_containing}
use objwal.Wal.Store.{Loaded, load}
use objwal.Wal.Producer.Types.{default, millisecond}

pub record Record : Type 0 where
  pub sequence : ℕ
  pub group_meta : Bytes
  pub contents : Bytes

-- `load` gives `none` if nothing has been persisted.
pub record CursorStore (W : Type 0) : Type 0 where
  pub load : Eff W (Option ℕ)
  pub save : ℕ → Eff W (Unit {0})

pub record ReplicaConfig : Type 0 where
  pub manifest_path : Bytes
  pub poll_interval : ℕ
  pub start_at : ℕ
  pub cursor_save_interval : ℕ
  pub max_records_per_poll : ℕ

unfoldable pub with_replica_defaults : ReplicaConfig → ReplicaConfig
unfolding default
with_replica_defaults c = record c {
  poll_interval = default (50 * millisecond) c.poll_interval;
  cursor_save_interval = default 1 c.cursor_save_interval;
}

-- What changes in a `Replica`.
pub record Replica : Type 0 where
  pub next : ℕ
  pub restored : Bool

unfoldable pub new_replica : ReplicaConfig → Replica
new_replica cfg = record { next = cfg.start_at; restored = false }

-- What a replica is built with.
pub record ReplicaEnv (W : Type 0) : Type 0 where
  pub zstd : Zstd
  pub os : ObjectStore W
  pub apply : Record → Eff W (Unit {0})
  pub cursor : Option (CursorStore W)

-- `TypedApplier`: decode, and handle what was decoded.
unfoldable typed_applier :
    {W T : Type 0} → (Bytes → Result T) → (ℕ → T → Eff W (Unit {0})) → Record → Eff W (Unit {0})
typed_applier decode handle rec w = elim (decode rec.contents) [
  | err e ↦ (err (wrap replica_decode e), w)
  | ok op ↦ handle rec.sequence op w
]

unfoldable group_meta_loop : Bytes → List RecordMeta → ℕ → Bytes
group_meta_loop payload [] i = payload
group_meta_loop payload (md ∷ mds) i =
    let rest = group_meta_loop md.payload mds i in if leb md.start_index i then rest else payload

unfoldable pub group_meta_for : List RecordMeta → ℕ → Bytes
unfolding group_meta_loop
group_meta_for = group_meta_loop []

-- `recSeq`
unfoldable pub record_sequence : Entry → ℕ → ℕ
record_sequence e i = if ltb 0 e.count then (e.sequence + i) % u64_mod else e.sequence

unfoldable pub record_of : Entry → ℕ → Bytes → Record
record_of e i contents = record {
  sequence = record_sequence e i;
  group_meta = group_meta_for e.metadata i;
  contents = contents;
}

-- The variables of a pass.
pub record Pass : Type 0 where
  pub next : ℕ
  pub applied : ℕ
  pub since_save : ℕ

-- A pass's error, its variables, and the world.
abbrev pub Passed : Type 0 → Type 0
Passed W = (Result (Unit {0}) × Pass) × W

module _ {W : Type 0} (env : ReplicaEnv W) where
  unfoldable pub after_apply :
      (ℕ → W → (Result (Unit {0}) × ℕ) × W)
      → ℕ
      → Result (Unit {0}) × W
      → (Result (Unit {0}) × ℕ) × W
  after_apply more applied (err x, w) = ((err (wrap replica_apply x), applied), w)
  after_apply more applied (ok _, w) = more (applied + 1) w

  -- `for i, data := range records`, from the index `i` on.
  unfoldable pub deliver : Entry → ℕ → ℕ → List Bytes → ℕ → W → (Result (Unit {0}) × ℕ) × W
  deliver e resume_at i [] applied w = ((ok tt, applied), w)
  deliver e resume_at i (contents ∷ rest) applied w =
      let more = deliver e resume_at (i + 1) rest in
      if ltb (record_sequence e i) resume_at
      then more applied w
      else after_apply more applied (env.apply (record_of e i contents) w)

  unfoldable pub save_cursor : ℕ → Eff W (Unit {0})
  save_cursor next w = elim env.cursor [ none ↦ (ok tt, w) | some c ↦ c.save next w ]

  -- `sinceSave = 0`, if there is a cursor store.
  unfoldable pub saved : Pass → Pass
  saved p = elim env.cursor [ none ↦ p | some c ↦ record p { since_save = 0 } ]

  unfoldable pub after_save : (Pass → W → Passed W) → Pass → Result (Unit {0}) × W → Passed W
  after_save more p (err x, w) = ((err (wrap persist_cursor x), p), w)
  after_save more p (ok _, w) = more (saved p) w

  -- Behind the loop.
  unfoldable pub finish : Pass → W → Passed W
  finish p w =
      if ltb 0 p.since_save
      then after_save (λ q v. ((ok tt, q), v)) p (save_cursor p.next w)
      else ((ok tt, p), w)

  module _ (cfg : ReplicaConfig) (resume_at : ℕ) where
    -- The budget of one poll.
    unfoldable pub paced : (Pass → W → Passed W) → Pass → W → Passed W
    paced more p w =
        if ltb 0 cfg.max_records_per_poll && leb cfg.max_records_per_poll p.applied
        then finish p w
        else more p w

    -- A segment is through: the cursor moves behind it.
    unfoldable pub after_delivery :
        Entry → (Pass → W → Passed W) → Pass → (Result (Unit {0}) × ℕ) × W → Passed W
    after_delivery e more p ((err x, n), w) = ((err x, record p { applied = n }), w)
    after_delivery e more p ((ok _, n), w) =
        let q : Pass = record { next = end e; applied = n; since_save = p.since_save + 1 } in
        if leb cfg.cursor_save_interval q.since_save
        then after_save (paced more) q (save_cursor q.next w)
        else paced more q w

    unfoldable pub after_decode :
        Entry → (Pass → W → Passed W) → Pass → Result (List Bytes) → W → Passed W
    after_decode e more p (err x) w = ((err (wrap replica_decode x), p), w)
    after_decode e more p (ok records) w =
        after_delivery e more p (deliver e resume_at 0 records p.applied w)

    unfoldable pub after_get :
        Entry → (Pass → W → Passed W) → Pass → Result GetResult × W → Passed W
    after_get e more p (err x, w) = ((err (wrap replica_get x), p), w)
    after_get e more p (ok res, w) = after_decode e more p (decode_segment env.zstd res.contents) w

    -- `for _, e := range entries`
    unfoldable pub poll_loop : List Entry → Pass → W → Passed W
    poll_loop [] p w = finish p w
    poll_loop (e ∷ es) p w = after_get e (poll_loop es) p (env.os.get e.location w)

  unfoldable pub restored_at : Replica → Option ℕ → Replica
  restored_at r none = record r { restored = true }
  restored_at r (some next) = record { next = next; restored = true }

  unfoldable pub after_restore : Replica → Result (Option ℕ) × W → Result Replica × W
  after_restore r (err x, w) = (err x, w)
  after_restore r (ok at, w) = (ok (restored_at r at), w)

  unfoldable pub restore : Replica → Eff W Replica
  restore r w = elim env.cursor [
    | none ↦ (ok r, w)
    | some c ↦ elim r.restored [ true ↦ (ok r, w) | false ↦ after_restore r (c.load w) ]
  ]

  module _ (cfg : ReplicaConfig) where
    -- `Poll` returns the number of records applied and the error.
    unfoldable pub after_pass : Replica → Passed W → (Result (Unit {0}) × ℕ) × (Replica × W)
    after_pass r ((s, p), w) = ((s, p.applied), (record r { next = p.next }, w))

    unfoldable pub after_entries :
        Replica → Result (List Entry) → W → (Result (Unit {0}) × ℕ) × (Replica × W)
    after_entries r (err x) w = ((err x, 0), (r, w))
    after_entries r (ok es) w =
        after_pass r
          (poll_loop cfg r.next es (record { next = r.next; applied = 0; since_save = 0 }) w)

    unfoldable pub after_load :
        Replica → Result Loaded × W → (Result (Unit {0}) × ℕ) × (Replica × W)
    after_load r (err x, w) = ((err x, 0), (r, w))
    after_load r (ok l, w) =
        if l.exists
        then after_entries r (entries_containing l.manifest r.next) w
        else ((ok tt, 0), (r, w))

    unfoldable pub poll_restored :
        Replica → Result Replica × W → (Result (Unit {0}) × ℕ) × (Replica × W)
    poll_restored r (err x, w) = ((err x, 0), (r, w))
    poll_restored r (ok r', w) = after_load r' (load env.os cfg.manifest_path w)

    unfoldable pub poll : Replica → W → (Result (Unit {0}) × ℕ) × (Replica × W)
    poll r w = poll_restored r (restore r w)
