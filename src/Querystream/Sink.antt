-- ===== src/Querystream/Sink.antt =====
-- querystream/sink.go and the types of querystream/types.go: the sink that turns the records of the
-- log into files. The encoder, the decoder and the file system are the world's; the directory of
-- the configuration is a clean path.
pub mod Buffer
pub mod Tiling
pub mod Ingest
pub mod Run
pub mod Fixture
mod Tests
use objwal.Prelude.{
  ℕ, zero, suc, ◌+◌, ◌-◌, ◌*◌, ◌/◌, ◌%◌, ◌^◌, Bool, true, false, ◌&&◌, ◌||◌, List, [], ◌∷◌, ◌++◌,
  Option, none, some, map, length, get_elem?, ltb, leb, ◌==◌, if◌then◌else◌,
}
use objwal.Error.{
  Result, ok, err, Error, invalid, wrap, sink_load_cursor, sink_decode, sink_write,
  sink_save_cursor, sink_no_manifest, segment_index_range, out_of_fuel,
}
use objwal.Std.LittleEndian.{Bytes}
use objwal.ObjectStore.{ObjectStore, Eff}
use objwal.Wal.Segment.{Zstd}
use objwal.Wal.Entry.{Entry, u64_mod}
use objwal.Wal.Manifest.{entries}
use objwal.Wal.Store.{Loaded, load}
use objwal.Wal.Producer.Types.{default, second}
use objwal.Wal.Replica.{Record, CursorStore, ReplicaConfig, Replica, ReplicaEnv, poll}
use objwal.Querystream.Names.{bucket_dir, part_name, file_path, parse_part_name, parse_bucket_dir}

pub record Config : Type 0 where
  pub manifest_path : Bytes
  pub start_at : ℕ
  pub dir : Bytes
  pub bucket_size : ℕ
  pub max_rows : ℕ
  pub max_bytes : ℕ
  pub poll_interval : ℕ
  pub max_records_per_poll : ℕ

unfoldable pub with_sink_defaults : Config → Config
unfolding default
with_sink_defaults c = record c {
  bucket_size = default (2 ^ 20) c.bucket_size;
  max_rows = default 50000 c.max_rows;
  poll_interval = default second c.poll_interval;
}

pub record FileInfo : Type 0 where
  pub path : Bytes
  pub bucket : ℕ
  pub first_seq : ℕ
  pub last_seq : ℕ
  pub rows : ℕ

pub record RowItem (T : Type 0) : Type 0 where
  pub seq : ℕ
  pub row : T
  pub sz : ℕ

-- `notify` is what the channel of one slot holds.
pub record Sink (T : Type 0) : Type 0 where
  pub buf : List (RowItem T)
  pub approx_bytes : ℕ
  pub visible_high : ℕ
  pub have_data : Bool
  pub catalog : List FileInfo
  pub next_cursor : ℕ
  pub notify : Option ℕ

-- The decoder, the encoder with its extension, and the file system.
pub record SinkEnv (W T : Type 0) : Type 0 where
  pub decode : Record → Result T
  pub encode : Bytes → List ℕ → List T → Eff W (Unit {0})
  pub ext : Bytes
  pub mkdir_all : Bytes → Eff W (Unit {0})
  pub glob : Bytes → Eff W (List Bytes)
  pub remove_file : Bytes → Eff W (Unit {0})
  pub rename : Bytes → Bytes → Eff W (Unit {0})
  pub cursor : Option (CursorStore W)

unfoldable pub sizes : {T : Type 0} → List (RowItem T) → ℕ
sizes [] = 0
sizes (it ∷ its) = it.sz + sizes its

unfoldable pub bucket_of : Config → ℕ → ℕ
bucket_of cfg seq = seq / cfg.bucket_size

-- The leading run of the rows in the bucket, and the rest.
unfoldable pub run_of :
    {T : Type 0} → Config → ℕ → List (RowItem T) → List (RowItem T) × List (RowItem T)
run_of cfg bucket [] = ([], [])
run_of cfg bucket (it ∷ its) =
    let (run, rest) = run_of cfg bucket its in
    if bucket_of cfg it.seq == bucket then (it ∷ run, rest) else ([], it ∷ its)

unfoldable pub last_seq_of : {T : Type 0} → ℕ → List (RowItem T) → ℕ
last_seq_of seq [] = seq
last_seq_of seq (it ∷ its) = last_seq_of it.seq its

-- ".tmp" behind the path.
unfoldable pub tmp_of : Bytes → Bytes
tmp_of path = path ++ (46 ∷ 116 ∷ 109 ∷ 112 ∷ [])

-- The buffer, the catalog and the watermark move on. `notify` keeps what it holds.
unfoldable pub finalized : {T : Type 0} → FileInfo → List (RowItem T) → Sink T → Sink T
finalized info rest s = record {
  buf = rest;
  approx_bytes = sizes rest;
  visible_high = info.last_seq;
  have_data = true;
  catalog = s.catalog ++ (info ∷ []);
  next_cursor = (info.last_seq + 1) % u64_mod;
  notify = elim s.notify [ none ↦ some info.last_seq | some v ↦ some v ];
}

-- Whether the row is of another bucket than those that are buffered.
unfoldable pub crosses : {T : Type 0} → Config → ℕ → List (RowItem T) → Bool
crosses cfg seq [] = false
crosses cfg seq (it ∷ its) = if bucket_of cfg seq == bucket_of cfg it.seq then false else true

-- A flush's answer, the sink and the world.
abbrev pub SinkAnswer : Type 0 → Type 0 → Type 0 → Type 0
SinkAnswer W T A = Result A × (Sink T × W)

module _ {W T : Type 0} (env : SinkEnv W T) (cfg : Config) where
  unfoldable pub after_encode : Bytes → Result (Unit {0}) × W → Result (Unit {0}) × W
  after_encode path (err e, w) = let (_, w') = env.remove_file (tmp_of path) w in (err e, w')
  after_encode path (ok _, w) = env.rename (tmp_of path) path w

  unfoldable pub after_mkdir :
      Bytes → List ℕ → List T → Result (Unit {0}) × W → Result (Unit {0}) × W
  after_mkdir path seqs rows (err e, w) = (err e, w)
  after_mkdir path seqs rows (ok _, w) = after_encode path (env.encode (tmp_of path) seqs rows w)

  -- `dir` is `filepath.Dir` of the path.
  unfoldable pub write_atomic : Bytes → Bytes → List ℕ → List T → Eff W (Unit {0})
  write_atomic dir path seqs rows w = after_mkdir path seqs rows (env.mkdir_all dir w)

  unfoldable pub saved_cursor : Sink T → Result (Unit {0}) × W → SinkAnswer W T Bool
  saved_cursor s (err e, w) = (err (wrap sink_save_cursor e), (s, w))
  saved_cursor s (ok _, w) = (ok true, (s, w))

  unfoldable pub save_to : Option (CursorStore W) → Sink T → W → SinkAnswer W T Bool
  save_to none s w = (ok true, (s, w))
  save_to (some c) s w = saved_cursor s (c.save s.next_cursor w)

  unfoldable pub after_finalize : Sink T → W → SinkAnswer W T Bool
  after_finalize s w = save_to env.cursor s w

  unfoldable pub after_file :
      FileInfo → List (RowItem T) → Sink T → Result (Unit {0}) × W → SinkAnswer W T Bool
  after_file info rest s (err e, w) = (err (wrap sink_write e), (s, w))
  after_file info rest s (ok _, w) = after_finalize (finalized info rest s) w

  -- The run that begins with `it`.
  unfoldable pub flush_run :
      RowItem T → List (RowItem T) × List (RowItem T) → Sink T → W → SinkAnswer W T Bool
  flush_run it (run, rest) s w =
      let bucket = bucket_of cfg it.seq in
      let last = last_seq_of it.seq run in
      let path = file_path cfg.dir bucket it.seq last env.ext in
      after_file
        (record {
          path = path;
          bucket = bucket;
          first_seq = it.seq;
          last_seq = last;
          rows = length (it ∷ run);
        })
        rest s
        (write_atomic (cfg.dir ++ (47 ∷ bucket_dir bucket)) path (map (λ r. r.seq) (it ∷ run))
          (map (λ r. r.row) (it ∷ run)) w)

  -- `false` if nothing is buffered.
  unfoldable pub flush_buf : List (RowItem T) → Sink T → W → SinkAnswer W T Bool
  flush_buf [] s w = (ok false, (s, w))
  flush_buf (it ∷ its) s w = flush_run it (run_of cfg (bucket_of cfg it.seq) its) s w

  unfoldable pub flush_one : Sink T → W → SinkAnswer W T Bool
  flush_one s w = flush_buf s.buf s w

  unfoldable pub after_full : SinkAnswer W T Bool → SinkAnswer W T (Unit {0})
  after_full (err e, s) = (err e, s)
  after_full (ok _, s) = (ok tt, s)

  -- The row joins the buffer, and a full buffer is flushed.
  unfoldable pub buffer_row : RowItem T → SinkAnswer W T (Unit {0}) → SinkAnswer W T (Unit {0})
  buffer_row it (err e, s) = (err e, s)
  buffer_row it (ok _, (s, w)) =
      let s₁ : Sink T = record s {
        buf = s.buf ++ (it ∷ []);
        approx_bytes = s.approx_bytes + it.sz;
      } in
      if leb cfg.max_rows (length s₁.buf)
        || (ltb 0 cfg.max_bytes && leb cfg.max_bytes s₁.approx_bytes)
      then after_full (flush_one s₁ w)
      else (ok tt, (s₁, w))

  unfoldable pub on_decoded : Record → Result T → Sink T → W → SinkAnswer W T (Unit {0})
  on_decoded rec (err e) s w = (err (wrap sink_decode e), (s, w))
  on_decoded rec (ok row) s w =
      buffer_row (record { seq = rec.sequence; row = row; sz = length rec.contents })
        (if crosses cfg rec.sequence s.buf then after_full (flush_one s w) else (ok tt, (s, w)))

  -- `onRecord`, the sink's applier.
  unfoldable pub on_record : Record → Eff (Sink T × W) (Unit {0})
  on_record rec (s, w) = on_decoded rec (env.decode rec) s w

  -- `for { flushOne }`; each round shortens the buffer.
  unfoldable pub drain : ℕ → SinkAnswer W T Bool → SinkAnswer W T (Unit {0})
  drain fuel (err e, s) = (err e, s)
  drain fuel (ok false, s) = (ok tt, s)
  drain zero (ok true, s) = (err out_of_fuel, s)
  drain (suc fuel) (ok true, (s, w)) = drain fuel (flush_one s w)

  -- The replica of the sink, over the sink's own state and the world.
  abbrev pub lifted : {A : Type 0} → Eff W A → Eff (Sink T × W) A
  lifted op (s, w) = let (r, w') = op w in (r, (s, w'))

  unfoldable pub sink_replica : Zstd → ObjectStore W → ReplicaEnv (Sink T × W)
  sink_replica zstd os = record {
    zstd = zstd;
    os = record {
      get = λ path. lifted (os.get path);
      put = λ path bytes. lifted (os.put path bytes);
      put_opts = λ path bytes opts. lifted (os.put_opts path bytes opts);
      list = λ prefix. lifted (os.list prefix);
      delete = λ path. lifted (os.delete path);
    };
    apply = on_record;
    cursor = none;
  }

  abbrev pub replica_config : ReplicaConfig
  replica_config = record {
    manifest_path = cfg.manifest_path;
    poll_interval = 0;
    start_at = cfg.start_at;
    cursor_save_interval = 1;
    max_records_per_poll = cfg.max_records_per_poll;
  }

  -- The number of records applied and the error, the replica, the sink and the world.
  abbrev pub Polled : Type 0
  Polled = (Result (Unit {0}) × ℕ) × (Replica × (Sink T × W))

  unfoldable pub finish_poll : ℕ → Replica → SinkAnswer W T (Unit {0}) → Polled
  finish_poll n r (res, s) = ((res, n), (r, s))

  -- An error drops the batch.
  unfoldable pub after_poll : Polled → Polled
  after_poll ((err e, n), (r, (s, w))) =
      ((err e, n), (r, (record s { buf = []; approx_bytes = 0 }, w)))
  after_poll ((ok _, n), (r, (s, w))) = finish_poll n r (drain (suc (length s.buf)) (flush_one s w))

  unfoldable pub sink_poll : Zstd → ObjectStore W → Replica → Sink T × W → Polled
  sink_poll zstd os r s = after_poll (poll (sink_replica zstd os) replica_config r s)
