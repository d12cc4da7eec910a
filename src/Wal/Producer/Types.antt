-- ===== src/Wal/Producer/Types.antt =====
-- wal/producer.go, lines 31 to 277: the configuration, the sequence range of an Append, and the
-- items and plans of a flush. Durations are in nanoseconds.
pub mod Range
use objwal.Prelude.{
  ℕ, zero, suc, ◌+◌, ◌-◌, ◌*◌, ◌^◌, ◌%◌, Bool, ◌&&◌, List, [], ◌∷◌, Option, none, some, leb, ltb,
  ◌==◌, if◌then◌else◌,
}
use objwal.Std.LittleEndian.{Bytes}
use objwal.Wal.Entry.{RecordMeta, u64_mod}
use objwal.Wal.Segment.{Compression}

-- The fields of `ProducerConfig` that the write path reads.
pub record Config : Type 0 where
  pub manifest_path : Bytes
  pub segment_prefix : Bytes
  pub flush_interval : ℕ
  pub flush_bytes : ℕ
  pub compression : Compression
  pub legacy_segment_format : Bool
  pub max_in_flight_bytes : ℕ
  pub max_in_flight_batches : ℕ
  pub segment_max_bytes : ℕ
  pub manifest_append_batch_size : ℕ
  pub max_claim_attempts : ℕ
  pub upload_max_attempts : ℕ
  pub upload_initial_backoff : ℕ
  pub upload_concurrency : ℕ
  pub manifest_max_attempts : ℕ
  pub manifest_initial_backoff : ℕ
  pub max_commit_conflicts : ℕ

abbrev pub millisecond : ℕ
millisecond = 1_000_000

abbrev pub second : ℕ
second = 1_000_000_000

-- `if c.x <= 0 { c.x = d }`
unfoldable pub default : ℕ → ℕ → ℕ
default d x = if x == 0 then d else x

unfoldable pub with_defaults : Config → Config
unfolding default
with_defaults c = record c {
  flush_interval = default (50 * millisecond) c.flush_interval;
  max_in_flight_bytes = default (256 * 2 ^ 20) c.max_in_flight_bytes;
  max_in_flight_batches = default 4096 c.max_in_flight_batches;
  max_claim_attempts = default 16 c.max_claim_attempts;
  upload_max_attempts = default 6 c.upload_max_attempts;
  upload_initial_backoff = default (100 * millisecond) c.upload_initial_backoff;
  upload_concurrency = default 4 c.upload_concurrency;
  manifest_max_attempts = default 6 c.manifest_max_attempts;
  manifest_initial_backoff = default (100 * millisecond) c.manifest_initial_backoff;
  max_commit_conflicts = default 64 c.max_commit_conflicts;
}

-- `first` is a uint64, `count` an int.
pub record SeqRange : Type 0 where
  pub first : ℕ
  pub count : ℕ

unfoldable range_end : SeqRange → ℕ
range_end r = (r.first + r.count) % u64_mod

unfoldable range_last : SeqRange → ℕ
range_last r = (r.first + r.count + u64_mod - 1) % u64_mod

-- `none` is the panic.
unfoldable pub range_at : SeqRange → ℕ → Option ℕ
range_at r i = if leb r.count i then none else some ((r.first + i) % u64_mod)

unfoldable range_contains : SeqRange → ℕ → Bool
unfolding range_end
range_contains r seq = leb r.first seq && ltb seq (range_end r)

-- `for i := range out`, from the index `i` on with `n` rounds left.
unfoldable pub range_from : SeqRange → ℕ → ℕ → List ℕ
range_from r i zero = []
range_from r i (suc n) = (r.first + i) % u64_mod ∷ range_from r (i + 1) n

unfoldable pub range_all : SeqRange → List ℕ
unfolding range_from
range_all r = range_from r 0 r.count

-- An Append group that waits. `waiter` names its Durability.
pub record PendingItem : Type 0 where
  pub records : List Bytes
  pub meta : Bytes
  pub bytes : ℕ
  pub waiter : ℕ

pub record SegPlan : Type 0 where
  pub items : List PendingItem
  pub records : List Bytes
  pub metas : List RecordMeta
  pub bytes : ℕ
  pub location : Bytes
