-- ===== src/Wal/Replica/Tests.antt =====
-- A replica whose applier keeps a log, over a store of one segment.
use objwal.Prelude.{◌≡◌, ◌+◌, refl, List, [], ◌∷◌, ◌++◌, none}
use objwal.Error.{ok, err, not_found}
use objwal.Std.LittleEndian.{Bytes, le_bytes}
use objwal.ObjectStore.{ObjectStore}
use objwal.Wal.Entry.{Entry}
use objwal.Wal.Segment.{Zstd, frame}
use objwal.Wal.Replica.{Record, ReplicaEnv, ReplicaConfig, Pass, deliver, poll_loop}
use objwal.Prelude.{ℕ, suc, zero, inl, ap, true, false, arith}
use objwal.Wal.Store.{Loaded, load}
use objwal.Wal.Replica.{Replica, poll, save_cursor, poll_loop}
use objwal.Wal.Replica.Tailing.{Keeps, AnyRecord}
use objwal.Wal.Replica.Follow.{entries_containing-Holds, Log}
use objwal.Wal.Replica.Fixture
use objwal.Wal.Replica.Fixture.{
  manifest_path, one_log, manifest_loaded, loaded-object_at, loaded-Holds, object_at_sized,
}
use objwal.Prelude.{filter_by, bytes_eq}
use objwal.Prelude.Slices.{take, drop, slice}
use objwal.Std.LittleEndian.{uint}
use objwal.Wal.Entry.{end, range_size}
use objwal.Wal.Segment.{decode_segment}
use objwal.Wal.Replica.{
  record_of, record_sequence, group_meta_for, poll_restored, restore, after_load, after_entries,
  after_pass, after_get, after_decode, after_delivery, after_apply, paced, finish, saved,
  after_save,
}
use objwal.Wal.Replica.Run.{ticked, cancelled, run_replica}
use objwal.Wal.Replica.Exact.{
  records_at, Logging, Seen, Of, ExactRun, run_replica-ExactRun, poll-exact,
}
use objwal.Wal.Replica.Position.{Advanced, poll_loop-Advanced}

abbrev plain : Zstd
plain = record { encode_all = λ b. b; decode_all = λ b. ok b; decode_all-encode_all = λ b. refl }

abbrev records : List Bytes
records = (7 ∷ []) ∷ (8 ∷ []) ∷ (9 ∷ []) ∷ []

-- A version 1 segment of the records.
abbrev contents : Bytes
contents = frame records ++ (0 ∷ le_bytes 4 3) ++ le_bytes 2 1

abbrev one_segment : ObjectStore (List Record)
one_segment = record {
  get = λ path log. (
    ok (record {
      contents = contents;
      meta = record { location = path; last_modified = 0; size = 22; etag = []; version = [] };
    }),
    log,
  );
  put = λ path b log. (err not_found, log);
  put_opts = λ path b opts log. (err not_found, log);
  list = λ prefix log. (ok [], log);
  delete = λ path log. (err not_found, log);
}

abbrev env : ReplicaEnv (List Record)
env = record {
  zstd = plain;
  os = one_segment;
  apply = λ r log. (ok tt, log ++ r ∷ []);
  cursor = none;
}

abbrev entry : Entry
entry = record { sequence = 4; count = 3; location = 115 ∷ []; metadata = [] }

abbrev config : ReplicaConfig
config = record {
  manifest_path = 109 ∷ [];
  poll_interval = 1;
  start_at = 5;
  cursor_save_interval = 1;
  max_records_per_poll = 0;
}

abbrev start : Pass
start = record { next = 5; applied = 0; since_save = 0 }

poll_loop-Advanced_example :
    Advanced 0 5 (entry ∷ []) (poll_loop env config 5 (entry ∷ []) start []).0
poll_loop-Advanced_example = poll_loop-Advanced env config 5 (entry ∷ []) start []

-- The world counts the records.
abbrev counting : ReplicaEnv ℕ
counting = record { zstd = plain; os = one_log; apply = λ r w. (ok tt, w + 1); cursor = none }

abbrev Counts : ℕ → ℕ → Type 0
Counts n w = w ≡ n

counting-Keeps : Keeps counting AnyRecord Counts
unfolding save_cursor
counting-Keeps = record {
  get_keeps = λ n path w h. h;
  save_keeps = λ n next w h. h;
  apply_moves =
      λ n rec w e f g h. record { at = n + 1; held = ap (λ k. k + 1) h; good = λ _. refl };
}

abbrev unpaced : ReplicaConfig
unpaced = record config { manifest_path = manifest_path; start_at = 0 }

abbrev at_zero : Replica
at_zero = record { next = 0; restored = false }

counting-Log :
    (l : Loaded)
    → (load counting.os manifest_path 0).0 ≡ ok l
    → l.exists ≡ true
    → Log counting AnyRecord Counts l.manifest 0
unfolding load
counting-Log l e there = record {
  first = 0;
  log = Fixture.entry ∷ [];
  holds = loaded-Holds l e;
  not_before = omega arith;
  sized = (λ n w res records _ h k. object_at_sized AnyRecord res records tt tt h k, tt);
}

-- The world is the applier's log.
abbrev logging : ReplicaEnv (List Record)
logging = record {
  zstd = plain;
  os = one_log;
  apply = λ r log. (ok tt, log ++ r ∷ []);
  cursor = none;
}

abbrev SeenAll : List Record → Type 0
SeenAll log = Unit

logging-Logging : Logging logging SeenAll (λ log. log)
logging-Logging = record {
  no_cursor = refl;
  get_keeps = λ path w _. (tt, refl);
  apply_logs = λ rec w _. (tt, inl refl);
}

abbrev contents_at : ℕ → Bytes
contents_at zero = 7 ∷ []
contents_at (suc n) = 8 ∷ []

abbrev log_at : ℕ → Record
log_at n = record { sequence = n; group_meta = []; contents = contents_at n }

logging-Log :
    (r : Replica) (w : List Record) (l : Loaded)
    → (load logging.os manifest_path w).0 ≡ ok l
    → Log logging
        (Of SeenAll (λ log. log) log_at 0)
        (Seen SeenAll (λ log. log) log_at 0)
        l.manifest
        r.next
unfolding load record_of record_sequence group_meta_for
logging-Log r w l e = record {
  first = 0;
  log = Fixture.entry ∷ [];
  holds = loaded-Holds l e;
  not_before = omega arith;
  sized = (
    λ n v res records _ h k.
        object_at_sized (Of SeenAll (λ log. log) log_at 0) res records refl refl h k,
    tt,
  );
}

run_replica-ExactRun_example :
    ExactRun SeenAll
      (λ log. log)
      log_at
      0
      (run_replica logging unpaced
        (λ w. none)
        not_found
        (ticked ∷ ticked ∷ cancelled ∷ [])
        at_zero
        [])
run_replica-ExactRun_example =
    run_replica-ExactRun SeenAll (λ log. log) log_at 0 logging logging-Logging unpaced (λ w. none)
      not_found (λ r w l _ e _. logging-Log r w l e) (ticked ∷ ticked ∷ cancelled ∷ []) at_zero []
      tt refl refl

logging_loaded : (load logging.os manifest_path []).0 ≡ ok manifest_loaded
unfolding load
logging_loaded = loaded-object_at

logging_polled : (poll logging unpaced at_zero []).0.0 ≡ ok tt
unfolding poll poll_restored restore load after_load after_entries after_pass poll_loop bytes_eq
logging_polled =
    rw
      (
        loaded-object_at,
        after_load,
        entries_containing-Holds 0 (loaded-Holds manifest_loaded loaded-object_at),
      )
      (unfold filter_by end range_size after_get after_decode after_delivery deliver after_apply
          decode_segment frame le_bytes uint take drop slice record_sequence record_of paced finish
          save_cursor saved after_save in
        refl)

poll-exact_example :
    Seen SeenAll
      (λ log. log)
      log_at
      0
      manifest_loaded.manifest.next_sequence
      (poll logging unpaced at_zero []).1.1
unfolding records_at
poll-exact_example =
    poll-exact SeenAll (λ log. log) log_at 0 logging logging-Logging unpaced at_zero []
      manifest_loaded logging_loaded refl (logging-Log at_zero [] manifest_loaded logging_loaded)
      (omega arith) refl (tt, refl, refl) logging_polled
