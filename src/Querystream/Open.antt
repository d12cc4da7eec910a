-- ===== src/Querystream/Open.antt =====
-- How a sink is opened: `NewSink`, `scanExisting` and `SegmentStartSeq` of querystream/sink.go.
-- The store, the decoder and the encoder are there, which `NewSink` checks for nil.
pub mod Restart
pub mod Index
mod Tests
use objwal.Prelude.{
  ℕ, ◌+◌, ◌≡◌, Bool, true, false, not, ◌||◌, List, [], ◌∷◌, ◌++◌, Option, none, some, length,
  get_elem?, ltb, bytes_eq, if◌then◌else◌,
}
use objwal.Error.{
  Result, ok, err, invalid, wrap, sink_create_dir, sink_load_cursor, sink_no_dir, sink_no_manifest,
  segment_index_range, ◌>>=◌,
}
use objwal.Std.LittleEndian.{Bytes}
use objwal.ObjectStore.{ObjectStore, Eff}
use objwal.Wal.Entry.{Entry}
use objwal.Wal.Manifest.{entries}
use objwal.Wal.Store.{Loaded, load}
use objwal.Wal.Replica.{CursorStore, ReplicaConfig, Replica, new_replica, with_replica_defaults}
use objwal.Querystream.Names.{
  bucket_prefix, part_prefix, path_base, path_dir, parse_part_name, parse_bucket_dir,
}
use objwal.Querystream.Sink.{Config, with_sink_defaults, FileInfo, Sink, SinkEnv, replica_config}

abbrev pub empty_sink : {T : Type 0} → ℕ → Sink T
empty_sink start = record {
  buf = [];
  approx_bytes = 0;
  visible_high = 0;
  have_data = false;
  catalog = [];
  next_cursor = start;
  notify = none;
}

-- A file of the directory that has been found. The number of its rows is not known.
unfoldable pub found : Bytes → FileInfo
found path = record {
  path = path;
  bucket = (parse_bucket_dir (path_base (path_dir path))).0;
  first_seq = 0;
  last_seq = 0;
  rows = 0;
}

unfoldable pub scanned : {T : Type 0} → Bytes → Option (ℕ × ℕ) → Sink T → Sink T
scanned path none s = s
scanned path (some (first, last)) s =
    let raised = not s.have_data || ltb s.visible_high last in
    record s {
      catalog = s.catalog ++ (record (found path) { first_seq = first; last_seq = last } ∷ []);
      visible_high = if raised then last else s.visible_high;
      have_data = if raised then true else s.have_data;
    }

-- `scanExisting`, over what `Glob` has matched.
unfoldable pub scan : {T : Type 0} → Bytes → List Bytes → Sink T → Sink T
scan ext [] s = s
scan ext (m ∷ ms) s = scan ext ms (scanned m (parse_part_name (path_base m) ext) s)

-- "<dir>/seq_bucket=*/part-*-*<ext>"
unfoldable pub pattern_of : Bytes → Bytes → Bytes
pattern_of dir ext =
    dir ++ (47 ∷ (bucket_prefix ++ (42 ∷ 47 ∷ (part_prefix ++ (42 ∷ 45 ∷ 42 ∷ ext)))))

module _ {W T : Type 0} (env : SinkEnv W T) where
  unfoldable pub start_from : Config → Result (Option ℕ) × W → Result ℕ × W
  start_from cfg (err e, w) = (err (wrap sink_load_cursor e), w)
  start_from cfg (ok none, w) = (ok cfg.start_at, w)
  start_from cfg (ok (some v), w) = (ok v, w)

  -- A persisted cursor wins over `start_at`.
  unfoldable pub start_position : Option (CursorStore W) → Config → Eff W ℕ
  start_position none cfg w = (ok cfg.start_at, w)
  start_position (some c) cfg w = start_from cfg (c.load w)

  -- The sink, and its replica.
  abbrev pub Opened : Type 0
  Opened = Result (Sink T × Replica) × W

  unfoldable pub after_glob : Config → ℕ → Result (List Bytes) × W → Opened
  after_glob cfg start (err e, w) = (err e, w)
  after_glob cfg start (ok ms, w) = (
    ok (
      scan env.ext ms (empty_sink start),
      new_replica (with_replica_defaults (record (replica_config env cfg) { start_at = start })),
    ),
    w,
  )

  unfoldable pub after_start : Config → Result ℕ × W → Opened
  after_start cfg (err e, w) = (err e, w)
  after_start cfg (ok start, w) = after_glob cfg start (env.glob (pattern_of cfg.dir env.ext) w)

  unfoldable pub after_create_dir : Config → Result (Unit {0}) × W → Opened
  after_create_dir cfg (err e, w) = (err (wrap sink_create_dir e), w)
  after_create_dir cfg (ok _, w) = after_start cfg (start_position env.cursor cfg w)

  unfoldable pub new_sink : Config → W → Opened
  new_sink cfg w =
      if bytes_eq cfg.dir []
      then (err (invalid sink_no_dir), w)
      else after_create_dir (with_sink_defaults cfg) (env.mkdir_all cfg.dir w)

unfoldable pub entry_at : Option Entry → Result ℕ
entry_at none = err (invalid segment_index_range)
entry_at (some e) = ok e.sequence

-- What `SegmentStartSeq` makes of the manifest that it has loaded.
unfoldable pub start_seq_of : ℕ → Result Loaded → Result ℕ
start_seq_of index (err e) = err e
start_seq_of index (ok l) =
    if l.exists
    then (entries l.manifest >>= λ es. entry_at (get_elem? es index))
    else err (invalid sink_no_manifest)

-- The index is not negative.
unfoldable segment_start_seq : {W : Type 0} → ObjectStore W → Bytes → ℕ → Eff W ℕ
segment_start_seq os path index w = let (l, w') = load os path w in (start_seq_of index l, w')
