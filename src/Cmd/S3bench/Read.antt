-- ===== src/Cmd/S3bench/Read.antt =====
-- `runRead` of cmd/s3bench/main.go, behind `newStore`.
pub mod Whole
use objwal.Prelude.{
  ℕ, zero, suc, ◌+◌, ◌%◌, ◌^◌, ◌≤◌, ◌<◌, ◌≡◌, refl, sym, ap, subst, ◌∙◌, inl, inr, Bool, true,
  false, none, List, [], ◌∷◌, length, ◌==◌, Bool-cases, if◌then◌else◌, arith,
}
use objwal.Error.{Result, ok, err, wrap, invalid, bench_poll, log_empty, out_of_fuel}
use objwal.Std.LittleEndian.{Bytes}
use objwal.ObjectStore.{ObjectStore, Eff}
use objwal.Wal.Segment.{Zstd}
use objwal.Wal.Entry.{u64_mod}
use objwal.Wal.Store.{Loaded, load}
use objwal.Wal.Replica.{
  Record, ReplicaEnv, ReplicaConfig, with_replica_defaults, Replica, new_replica, save_cursor, poll,
}
use objwal.Wal.Replica.Tailing.{Ends, Keeps}
use objwal.Wal.Replica.Follow.{Log, later-Log, poll-PollEnds, poll-whole, poll-nothing}

-- What has been read; the counters wrap around.
pub record Tally : Type 0 where
  pub read_bytes : ℕ
  pub read_records : ℕ

unfoldable pub tallied : Record → Tally → Tally
tallied rec t = record {
  read_bytes = (t.read_bytes + length rec.contents) % u64_mod;
  read_records = (t.read_records + 1) % u64_mod;
}

abbrev pub nothing_read : Tally
nothing_read = record { read_bytes = 0; read_records = 0 }

unfoldable pub bench_replica : Bytes → ReplicaConfig
bench_replica manifest = with_replica_defaults (record {
  manifest_path = manifest;
  poll_interval = 0;
  start_at = 0;
  cursor_save_interval = 0;
  max_records_per_poll = 0;
})

module _ {W : Type 0} (zstd : Zstd) (os : ObjectStore W) where
  abbrev beside : {A : Type 0} → Eff W A → Eff (Tally × W) A
  beside op (t, w) = let (r, w') = op w in (r, (t, w'))

  unfoldable pub bench_env : ReplicaEnv (Tally × W)
  bench_env = record {
    zstd = zstd;
    os = record {
      get = λ path. beside (os.get path);
      put = λ path bytes. beside (os.put path bytes);
      put_opts = λ path bytes opts. beside (os.put_opts path bytes opts);
      list = λ prefix. beside (os.list prefix);
      delete = λ path. beside (os.delete path);
    };
    apply = λ rec (t, w). (ok tt, (tallied rec t, w));
    cursor = none;
  }

  -- The error, the replica, and the tally with the world.
  abbrev pub ReadSoFar : Type 0
  ReadSoFar = Result (Unit {0}) × (Replica × (Tally × W))

  unfoldable pub after_read_poll :
      (Replica → Tally × W → ReadSoFar)
      → (Result (Unit {0}) × ℕ) × (Replica × (Tally × W))
      → ReadSoFar
  after_read_poll more ((err e, n), state) = (err (wrap bench_poll e), state)
  after_read_poll more ((ok u, n), (r, t)) = if n == 0 then (ok u, (r, t)) else more r t

  -- It polls until a poll applies nothing.
  unfoldable pub read_loop : Bytes → ℕ → Replica → Tally × W → ReadSoFar
  read_loop manifest zero r t = (err out_of_fuel, (r, t))
  read_loop manifest (suc fuel) r t =
      after_read_poll (read_loop manifest fuel) (poll bench_env (bench_replica manifest) r t)

  unfoldable pub tally_of : ReadSoFar → Result Tally × W
  tally_of (err e, (r, (t, w))) = (err e, w)
  tally_of (ok u, (r, (t, w))) =
      ((if t.read_records == 0 then err (invalid log_empty) else ok t), w)

  unfoldable pub run_read : Bytes → ℕ → Eff W Tally
  run_read manifest fuel w =
      tally_of (read_loop manifest fuel (new_replica (bench_replica manifest)) (nothing_read, w))
