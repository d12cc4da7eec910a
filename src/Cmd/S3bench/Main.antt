-- ===== src/Cmd/S3bench/Main.antt =====
-- `main`, `bind`, `envOr` and `newStore` of cmd/s3bench/main.go.
use objwal.Prelude.{ℕ, List, [], ◌∷◌, ◌||◌, bytes_eq, if◌then◌else◌}
use objwal.Error.{Result, ok, err}
use objwal.Std.LittleEndian.{Bytes}
use objwal.ObjectStore.{ObjectStore, Eff}
use objwal.Cmd.Bucket.{BucketClient, ensure_bench_bucket}

unfoldable env_or : (Bytes → Bytes) → Bytes → Bytes → Bytes
env_or getenv key default_value = elim (getenv key) [ [] ↦ default_value | b ∷ bs ↦ b ∷ bs ]

record Conn : Type 0 where
  pub endpoint : Bytes
  pub bucket : Bytes
  pub region : Bytes
  pub prefix : Bytes
  pub manifest : Bytes

-- "S3_ENDPOINT"
abbrev endpoint_key : Bytes
endpoint_key = 83 ∷ 51 ∷ 95 ∷ 69 ∷ 78 ∷ 68 ∷ 80 ∷ 79 ∷ 73 ∷ 78 ∷ 84 ∷ []

-- "S3_BUCKET"
abbrev bucket_key : Bytes
bucket_key = 83 ∷ 51 ∷ 95 ∷ 66 ∷ 85 ∷ 67 ∷ 75 ∷ 69 ∷ 84 ∷ []

-- "AWS_REGION"
abbrev region_key : Bytes
region_key = 65 ∷ 87 ∷ 83 ∷ 95 ∷ 82 ∷ 69 ∷ 71 ∷ 73 ∷ 79 ∷ 78 ∷ []

-- "s3bench"
abbrev default_bucket : Bytes
default_bucket = 115 ∷ 51 ∷ 98 ∷ 101 ∷ 110 ∷ 99 ∷ 104 ∷ []

-- "us-east-1"
abbrev default_region : Bytes
default_region = 117 ∷ 115 ∷ 45 ∷ 101 ∷ 97 ∷ 115 ∷ 116 ∷ 45 ∷ 49 ∷ []

-- "s3bench/seg"
abbrev default_prefix : Bytes
default_prefix = 115 ∷ 51 ∷ 98 ∷ 101 ∷ 110 ∷ 99 ∷ 104 ∷ 47 ∷ 115 ∷ 101 ∷ 103 ∷ []

-- "s3bench/manifest"
abbrev default_manifest : Bytes
default_manifest =
    115 ∷ 51 ∷ 98 ∷ 101 ∷ 110 ∷ 99 ∷ 104 ∷ 47 ∷ 109 ∷ 97 ∷ 110 ∷ 105 ∷ 102 ∷ 101 ∷ 115 ∷ 116 ∷ []

-- "write"
abbrev write_word : Bytes
write_word = 119 ∷ 114 ∷ 105 ∷ 116 ∷ 101 ∷ []

-- "read"
abbrev read_word : Bytes
read_word = 114 ∷ 101 ∷ 97 ∷ 100 ∷ []

-- What `bind` gives the flags that are not set.
unfoldable bound_conn : (Bytes → Bytes) → Conn
bound_conn getenv = record {
  endpoint = getenv endpoint_key;
  bucket = env_or getenv bucket_key default_bucket;
  region = env_or getenv region_key default_region;
  prefix = default_prefix;
  manifest = default_manifest;
}

unfoldable store_if :
    {W : Type 0} → ObjectStore W → Result (Unit {0}) × W → Result (ObjectStore W) × W
store_if os (err e, w) = (err e, w)
store_if os (ok _, w) = (ok os, w)

-- `os` is `objectstore.NewS3` over the client.
unfoldable bench_store :
    {W : Type 0} → BucketClient W → ObjectStore W → Conn → Eff W (ObjectStore W)
bench_store client os c w = store_if os (ensure_bench_bucket client c.bucket w)

unfoldable pub bench_exit : Result (Unit {0}) → ℕ
bench_exit (ok _) = 0
bench_exit (err e) = 1

module _ {W : Type 0} (write_log read_log : List Bytes → W → Result (Unit {0}) × W) where
  unfoldable pub after_command : Result (Unit {0}) × W → ℕ × W
  after_command (x, w) = (bench_exit x, w)

  -- "-h", "--help" and "help" print the usage; so do no command and an unknown one, which are errors.
  unfoldable pub run_command : Bytes → List Bytes → W → ℕ × W
  run_command name args w =
      if bytes_eq name write_word
      then after_command (write_log args w)
      else if bytes_eq name read_word
      then after_command (read_log args w)
      else if bytes_eq name (45 ∷ 104 ∷ [])
          || (bytes_eq name (45 ∷ 45 ∷ 104 ∷ 101 ∷ 108 ∷ 112 ∷ [])
              || bytes_eq name (104 ∷ 101 ∷ 108 ∷ 112 ∷ []))
      then (0, w)
      else (2, w)

  -- The exit code, over the arguments behind the program's name.
  unfoldable pub bench_main : List Bytes → W → ℕ × W
  bench_main [] w = (2, w)
  bench_main (name ∷ args) w = run_command name args w
