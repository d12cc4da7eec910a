-- ===== src/Querystream/Sink/Fixture.antt =====
-- A sink of sequences over a store of one segment, for tests.
use objwal.Prelude.{ℕ, ◌+◌, ◌≡◌, refl, ap, true, false, [], ◌∷◌, none, some, arith}
use objwal.Error.{ok}
use objwal.Std.LittleEndian.{Bytes}
use objwal.Prelude.{filter_by, bytes_eq}
use objwal.Prelude.Slices.{take, drop, slice}
use objwal.Std.LittleEndian.{le_bytes, uint}
use objwal.Wal.Entry.{end, range_size}
use objwal.Wal.Segment.{frame, decode_segment}
use objwal.Wal.Manifest.{manifest_of}
use objwal.Wal.Store.{Loaded}
use objwal.Wal.Replica.{
  poll, poll_restored, restore, after_load, after_entries, after_pass, poll_loop, after_get,
  after_decode, after_delivery, deliver, after_apply, record_sequence, record_of, paced, finish,
  save_cursor, saved, after_save,
}
use objwal.Wal.Replica.Fixture.{manifest_loaded, loaded-object_at}
use objwal.Wal.Replica.Follow.{Log, entries_containing-Holds}
use objwal.Querystream.Sink.{
  on_decoded, crosses, bucket_of, buffer_row, after_full, flush_one, flush_buf, flush_run, run_of,
  last_seq_of, write_atomic, after_mkdir, after_encode, after_file, after_finalize, save_to,
  finalized, finish_poll, drain,
}
use objwal.Wal.Store.{load}
use objwal.Wal.Replica.{Replica}
use objwal.Wal.Replica.Fixture.{plain, manifest_path, entry, one_log, loaded-Holds, object_at_sized}
use objwal.Querystream.Sink.{
  Config, Sink, SinkEnv, on_record, sink_replica, after_poll, sink_poll, sizes,
}
use objwal.Querystream.Sink.Buffer.{Tiled}
use objwal.Wal.Replica.Tailing.{AnyRecord}
use objwal.Querystream.Sink.Ingest.{At}
use objwal.Querystream.Names.{file_path}

-- "log"
abbrev pub ext : Bytes
ext = 108 ∷ 111 ∷ 103 ∷ []

abbrev pub config : Config
config = record {
  manifest_path = manifest_path;
  start_at = 0;
  dir = 100 ∷ [];
  bucket_size = 4;
  max_rows = 2;
  max_bytes = 0;
  poll_interval = 1;
  max_records_per_poll = 0;
}

-- The world counts the files.
abbrev pub env : SinkEnv ℕ ℕ
env = record {
  decode = λ rec. ok rec.sequence;
  encode = λ path seqs rows w. (ok tt, w + 1);
  ext = 46 ∷ ext;
  mkdir_all = λ path w. (ok tt, w);
  glob = λ pattern w. (ok [], w);
  remove_file = λ path w. (ok tt, w);
  rename = λ path to w. (ok tt, w);
  cursor = none;
}

abbrev pub fresh : Sink ℕ
fresh = record {
  buf = [];
  approx_bytes = 0;
  visible_high = 0;
  have_data = false;
  catalog = [];
  next_cursor = 0;
  notify = none;
}

pub fresh-Tiled : Tiled config (46 ∷ ext) 0 fresh 0
unfolding sizes
fresh-Tiled = record {
  files = refl;
  rows = refl;
  one_bucket = tt;
  counted = refl;
  high = λ k. absurd (cc k);
}

abbrev pub at_start : Replica
at_start = record { next = 0; restored = false }

pub fresh-Log :
    (l : Loaded)
    → (load (sink_replica env config plain one_log).os manifest_path (fresh, 0)).0 ≡ ok l
    → Log (sink_replica env config plain one_log) AnyRecord (At env config 0) l.manifest 0
unfolding sink_replica load
fresh-Log l e = record {
  first = 0;
  log = entry ∷ [];
  holds = loaded-Holds l e;
  not_before = omega arith;
  sized = (λ n w res records _ h k. object_at_sized AnyRecord res records tt tt h k, tt);
}

pub fresh_loaded :
    (load (sink_replica env config plain one_log).os manifest_path (fresh, 0)).0
    ≡ ok manifest_loaded
unfolding sink_replica load
fresh_loaded = loaded-object_at

-- What the sink has behind that poll.
abbrev after_two : Replica
after_two = record { next = 2; restored = false }

abbrev pub two_rows : Sink ℕ
two_rows = record {
  buf = [];
  approx_bytes = 0;
  visible_high = 1;
  have_data = true;
  catalog =
      record {
        path = file_path (100 ∷ []) 0 0 1 (46 ∷ ext);
        bucket = 0;
        first_seq = 0;
        last_seq = 1;
        rows = 2;
      }
      ∷ [];
  next_cursor = 2;
  notify = some 1;
}

pub fresh_poll :
    sink_poll env config plain one_log at_start (fresh, 0)
    ≡ ((ok tt, 2), (after_two, (two_rows, 1)))
unfolding sink_poll sink_replica poll poll_restored restore load after_load after_entries after_pass
    poll_loop manifest_of bytes_eq
fresh_poll =
    rw
      (
        loaded-object_at,
        after_load,
        entries_containing-Holds 0 (loaded-Holds manifest_loaded loaded-object_at),
      )
      (unfold filter_by end range_size after_get after_decode after_delivery deliver after_apply
          decode_segment frame le_bytes uint take drop slice record_sequence record_of paced finish
          save_cursor saved after_save on_record on_decoded crosses bucket_of buffer_row after_full
          flush_one flush_buf flush_run run_of last_seq_of write_atomic after_mkdir after_encode
          after_file after_finalize save_to finalized sizes after_poll finish_poll drain in
        refl)

pub second_poll :
    sink_poll env config plain one_log after_two (two_rows, 1)
    ≡ ((ok tt, 0), (after_two, (two_rows, 1)))
unfolding sink_poll sink_replica poll poll_restored restore load after_load after_entries after_pass
    poll_loop manifest_of bytes_eq
second_poll =
    rw
      (
        loaded-object_at,
        after_load,
        entries_containing-Holds 2 (loaded-Holds manifest_loaded loaded-object_at),
      )
      (unfold filter_by end range_size after_get after_decode after_delivery deliver after_apply
          decode_segment frame le_bytes uint take drop slice record_sequence record_of paced finish
          save_cursor saved after_save on_record on_decoded crosses bucket_of buffer_row after_full
          flush_one flush_buf flush_run run_of last_seq_of write_atomic after_mkdir after_encode
          after_file after_finalize save_to finalized sizes after_poll finish_poll drain in
        refl)

pub fresh_polled : (sink_poll env config plain one_log at_start (fresh, 0)).0.0 ≡ ok tt
fresh_polled = ap (λ out. out.0.0) fresh_poll
