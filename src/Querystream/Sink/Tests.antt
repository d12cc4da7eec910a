-- ===== src/Querystream/Sink/Tests.antt =====
-- A sink of sequences over a store of one segment.
use objwal.Prelude.{ℕ, ◌≡◌, refl, false, [], ◌∷◌, arith}
use objwal.Wal.Manifest.{manifest_of}
use objwal.Wal.Replica.Fixture.{manifest_loaded}
use objwal.Querystream.Sink.Buffer.{FilesFrom}
use objwal.Querystream.Sink.Fixture.{
  ext, config, env, fresh, fresh-Tiled, at_start, fresh-Log, fresh_loaded, fresh_polled,
}
use objwal.Wal.Replica.{Record, Replica}
use objwal.Wal.Replica.Fixture.{plain, one_log}
use objwal.Querystream.Sink.{Sink, on_record, sink_poll, sizes}
use objwal.Querystream.Sink.Buffer.{Tiled}
use objwal.Querystream.Sink.Tiling.{Recorded, on_record-Recorded}
use objwal.Querystream.Sink.Ingest.{sink_poll-whole}

-- The sequence 0 is buffered.
abbrev one_row : Sink ℕ
one_row = record fresh { buf = record { seq = 0; row = 0; sz = 3 } ∷ []; approx_bytes = 3 }

one_row-Tiled : Tiled config (46 ∷ ext) 0 one_row 1
unfolding sizes
one_row-Tiled = record {
  files = refl;
  rows = (refl, refl);
  one_bucket = tt;
  counted = refl;
  high = λ k. absurd (cc k);
}

abbrev second_record : Record
second_record = record { sequence = 1; group_meta = []; contents = 8 ∷ [] }

on_record-Recorded_example :
    Recorded env config 0 1 (on_record env config second_record (one_row, 0))
on_record-Recorded_example =
    on_record-Recorded env config 0 1 second_record one_row 0 (omega arith) (omega arith) refl
      one_row-Tiled

abbrev at_one : Replica
at_one = record { next = 1; restored = false }

sink_poll-whole_example :
    FilesFrom config
      (46 ∷ ext)
      0
      (sink_poll env config plain one_log at_start (fresh, 0)).1.1.0.catalog
      2
    × ((sink_poll env config plain one_log at_start (fresh, 0)).1.1.0.buf ≡ [])
unfolding manifest_of
sink_poll-whole_example =
    sink_poll-whole env config 0 plain one_log at_start fresh 0 manifest_loaded (omega arith) refl
      fresh_loaded refl (fresh-Log manifest_loaded fresh_loaded) (omega arith) fresh-Tiled
      fresh_polled
