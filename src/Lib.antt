-- ===== src/Lib.antt =====
-- objwal: a write-ahead log on object storage. A producer groups appended records into segments,
-- uploads each as an immutable object, and commits a group by one conditional put of the manifest,
-- the object that lists the segments in order. A replica reads the manifest and applies the records
-- of the segments it lists. One epoch in the manifest fences out older producers.
--
-- The files:
--   Prelude, Error, Std: native numbers, lists, slices; errors as values with the sentinels and the
--     wrapping of the Go code; little-endian words (encoding/binary), CRC-32C (hash/crc32), `%x`
--     and `%d` (fmt).
--   ObjectStore: the interface of objectstore/objectstore.go as a record of operations on the state
--     `W` of the world outside. ObjectStore/Memory: `InMemory` of objectstore/memory.go.
--     ObjectStore/Sim: `SimStore` and `Rng` of objectstore/sim.go, a store that injects faults.
--   Wal/Segment: `encodeSegment` and `decodeSegment` of wal/segment.go.
--   Wal/Entry: `encodeEntry` and `decodeEntry` of wal/manifest.go.
--   Wal/Manifest: the rest of wal/manifest.go, one function for each method. A method that changes
--     the manifest returns the new one. Its children hold the proofs: `Holds` says which log of
--     entries a manifest holds, and the others are about one method each.
--   Wal/Store: `Load`, `Create` and `Commit` of wal/store.go.
--   Wal/Producer: wal/producer.go. `Types` has the configuration, the sequence ranges and the items;
--     `Backoff` the waiting; `Plan` `planSegments`; `Claim` the claim of an epoch; `Commit`
--     `commitEntries` and `harvestCommitted`; `State` what `mu` guards, with `Append` and the
--     answers to the Durability channels; `Flush` the uploads and the commits of a flush; `Close`
--     `NewProducer`, `Close` and the ticks of `run`.
--   Wal/Replica: `Poll` of wal/replica.go and `TypedApplier` of wal/applier.go. Its children:
--     `Position` and `Delivery` about the cursor and the records, `Tailing` and `Follow` about a
--     world that the applier moves along the log, `Run` the loop around `Poll`, `Exact` about what
--     an applier that keeps its records has seen. Wal/Cursor: the cursor stores of wal/cursor.go.
--   ObjectStore/S3: `S3` of objectstore/s3.go, over a client. `Refine` compares it with the store in
--     memory, `Pages` is about `List`.
--   Querystream: the packages querystream and querystream/duckdbq. `Names` has the names of the
--     files and their parsers; `Sink` `Sink.Poll` and what it calls, of querystream/sink.go; `Open`
--     `NewSink`, `scanExisting` and `SegmentStartSeq`; `Duckdbq` the windows, the statements and the
--     visible high of duckdbq.go, query.go and visible.go, `Duckdbq/Watermark` watermark.go and
--     `Duckdbq/Stream` the trigger and the goroutine of stream.go; `Jsonl` the encoder of types.go
--     and `Parquetenc` that of querystream/parquetenc/parquet.go.
--   Cmd/Stream: the demo of cmd/stream. `Config` config.go, with its flags (`Flags`) and `loadConfig`
--     (`Resolve`); `Schema` schema.go; `Reviews` the CSV reader of producer.go and `Producer` the rest
--     of it; `Consumer` consumer.go; `Render` render.go; `Main` the exit codes of main.go.
--   Cmd/S3bench: the benchmark of cmd/s3bench/main.go. `Write` the two modes of `runWrite` and
--     `parallel`, `Read` `runRead`, `Latency` `reportLatency`, `Human` `humanBytes`, `Main` the
--     commands. Cmd/Bucket: `ensureBucket` of both commands.
--
-- How the parts meet: a flush plans segments (`Plan`), uploads them and commits them in groups
-- (`Commit`) through the manifest store (`Store`), which is what a replica reads; `Sink` is the
-- applier of a replica (`sink_replica`), over the replica's own definitions; the file names that the
-- sink writes are what `Open` and `Duckdbq` parse. The demo's consumer runs the sink's `sink_poll` and
-- the engine's `run_query`; the benchmark's read runs `poll`. The producers of the two commands are
-- over interfaces (`Publisher`, `BenchProducer`) of the operations of a `*wal.Producer` that they use.
--
-- Goroutines of the producer: each section between a lock and its unlock is one function on `State`;
-- `Wal/Producer/Flush/Steps` has them as a relation of steps, in any order. The uploads of a flush,
-- which the code starts at once, run in the order of the plans; nothing reads their results before
-- all have ended. The sink's `Poll` is called from one goroutine.
--
-- Probabilities of objectstore/sim.go are numbers of 2 ^ -53, which is what the generator compares.
-- Numbers: sizes, counts and sequences are natural numbers. A uint64 sum is taken modulo 2 ^ 64
-- where the code adds (`end`, `append`, `next_epoch`); a word of k bytes is written modulo 256 ^ k.
-- Bytes are natural numbers; no theorem needs them to be below 256.
--
-- Loops: `Entries` walks a region with fuel equal to the region's length, and each entry takes at
-- least four bytes; the search of `Locate` has the number of entries as its fuel, and halves the
-- range; the loop of `commitEntries` has a round for every unit of its two budgets and one more.
-- The sink's loop of flushes has one round more than the buffer has rows, and each flush shortens the
-- buffer; a listing of S3 takes its number of pages as fuel. A pass of the demo has one round more
-- than the file has rows; the loops that poll until a poll applies nothing take fuel, of which two
-- rounds are enough for a log that does not change; the scaling of `humanBytes` has six rounds, as an
-- int64 allows no more. The other loops are structural, or over a list of what a select receives.
--
-- Parameters: the zstd codec, with the round trip of its two functions as its law; the world of a
-- producer or a replica, which answers the store's operations, the waits and the applier as it likes;
-- whole-file reads, writes and renames, with the law that a renamed file keeps what was written to it;
-- the S3 client, with what `errors.As` finds in its errors; the sink's decoder, encoder, directories
-- and cursor store; the database of a query; in the commands, encoding/json, encoding/csv, the parsers
-- of numbers and durations behind a flag, the console and the bucket operations of S3; for parquet
-- files, the package parquet-go. Their laws stand as hypotheses where a theorem needs them. Go's
-- int, int64 and time.Duration are, in the commands, the 64 bits of their two's complement.
--
-- `Replica.Run`, `Sink.Run` and the goroutine of `Stream` are loops over what their selects receive.
-- The benchmark's `parallel` takes the order in which the calls of its workers take effect; a call is
-- one step of it.
--
-- Not modelled: locks as such, logging, metrics, the text of error messages, the jitter of a wait, the
-- pool of slices of stream.go; of the commands, what they print, clocks and rates, the flags of the
-- benchmark, and `newStore`, which builds a client by calls of the AWS SDK.
pub mod Prelude
pub mod Error
pub mod Std
pub mod ObjectStore
pub mod Wal
pub mod Querystream
pub mod Cmd
