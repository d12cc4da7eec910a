-- ===== src/Cmd/Stream/Config.antt =====
-- cmd/stream/config.go: the configuration of the demo. A Go int and a time.Duration are the 64 bits
-- of their two's complement; 2^63 and above are the negative values.
pub mod Flags
pub mod Resolve
pub mod Validity
pub mod Precedence
mod Tests
use objwal.Prelude.{
  ℕ, ◌+◌, ◌*◌, ◌%◌, ◌^◌, Bool, true, false, List, [], ◌∷◌, ◌++◌, Option, none, some, bytes_eq, ◌==◌,
  leb, if◌then◌else◌,
}
use objwal.Error.{
  Result, ok, err, Error, invalid, wrapped, csv_missing, sql_missing, mode_missing, mode_invalid,
  config_read, config_parse, ◌>>=◌,
}
use objwal.Std.LittleEndian.{Bytes}
use objwal.Wal.Entry.{u64_mod}
use objwal.Wal.Producer.Types.{millisecond, second}

pub record StreamConfig : Type 0 where
  pub mode : Bytes
  pub endpoint : Bytes
  pub access_key : Bytes
  pub secret_key : Bytes
  pub region : Bytes
  pub bucket : Bytes
  pub path_style : Bool
  pub create_bucket : Bool
  pub manifest_path : Bytes
  pub segment_prefix : Bytes
  pub csv : Bytes
  pub batch_size : ℕ
  pub append_delay : ℕ
  pub loop : Bool
  pub flush_interval : ℕ
  pub segment_max_bytes : ℕ
  pub out_dir : Bytes
  pub cursor_path : Bytes
  pub bucket_size : ℕ
  pub max_rows : ℕ
  pub compression : Bytes
  pub poll_interval : ℕ
  pub reset : Bool
  pub sql : Bytes
  pub incremental : Bool
  pub start_seq : ℕ
  pub dedup : Bool
  pub no_clear : Bool
  pub follow : Bool
  pub ingest_per_tick : ℕ

-- What `json.Unmarshal` leaves: the zero value for an absent name, or nil for an absent boolean.
pub record JsonConfig : Type 0 where
  pub endpoint : Bytes
  pub access_key : Bytes
  pub secret_key : Bytes
  pub region : Bytes
  pub bucket : Bytes
  pub path_style : Option Bool
  pub create_bucket : Option Bool
  pub manifest_path : Bytes
  pub segment_prefix : Bytes
  pub flush_interval_ms : ℕ
  pub segment_max_bytes : ℕ
  pub batch_size : ℕ
  pub append_delay_ms : ℕ
  pub loop : Option Bool
  pub out_dir : Bytes
  pub cursor_path : Bytes
  pub bucket_size : ℕ
  pub max_rows : ℕ
  pub compression : Bytes
  pub poll_interval_ms : ℕ
  pub dedup : Option Bool
  pub no_clear : Option Bool
  pub follow : Option Bool
  pub ingest_per_tick : ℕ

-- "zstd"
abbrev pub zstd_name : Bytes
zstd_name = 122 ∷ 115 ∷ 116 ∷ 100 ∷ []

-- "producer"
abbrev pub producer_name : Bytes
producer_name = 112 ∷ 114 ∷ 111 ∷ 100 ∷ 117 ∷ 99 ∷ 101 ∷ 114 ∷ []

-- "consumer"
abbrev pub consumer_name : Bytes
consumer_name = 99 ∷ 111 ∷ 110 ∷ 115 ∷ 117 ∷ 109 ∷ 101 ∷ 114 ∷ []

unfoldable pub default_config : StreamConfig
default_config = record {
  mode = [];
  -- "http://localhost:9000"
  endpoint =
      104 ∷ 116 ∷ 116 ∷ 112 ∷ 58 ∷ 47 ∷ 47 ∷ 108 ∷ 111 ∷ 99 ∷ 97 ∷ 108 ∷ 104 ∷ 111 ∷ 115 ∷ 116 ∷ 58
      ∷ 57 ∷ 48 ∷ 48 ∷ 48 ∷ [];
  -- "minioadmin"
  access_key = 109 ∷ 105 ∷ 110 ∷ 105 ∷ 111 ∷ 97 ∷ 100 ∷ 109 ∷ 105 ∷ 110 ∷ [];
  -- "minioadmin"
  secret_key = 109 ∷ 105 ∷ 110 ∷ 105 ∷ 111 ∷ 97 ∷ 100 ∷ 109 ∷ 105 ∷ 110 ∷ [];
  -- "us-east-1"
  region = 117 ∷ 115 ∷ 45 ∷ 101 ∷ 97 ∷ 115 ∷ 116 ∷ 45 ∷ 49 ∷ [];
  -- "objwal-demo"
  bucket = 111 ∷ 98 ∷ 106 ∷ 119 ∷ 97 ∷ 108 ∷ 45 ∷ 100 ∷ 101 ∷ 109 ∷ 111 ∷ [];
  path_style = true;
  create_bucket = true;
  -- "wal/manifest"
  manifest_path = 119 ∷ 97 ∷ 108 ∷ 47 ∷ 109 ∷ 97 ∷ 110 ∷ 105 ∷ 102 ∷ 101 ∷ 115 ∷ 116 ∷ [];
  -- "wal/segments"
  segment_prefix = 119 ∷ 97 ∷ 108 ∷ 47 ∷ 115 ∷ 101 ∷ 103 ∷ 109 ∷ 101 ∷ 110 ∷ 116 ∷ 115 ∷ [];
  csv = [];
  batch_size = 1;
  append_delay = 500 * millisecond;
  loop = false;
  flush_interval = 200 * millisecond;
  segment_max_bytes = 65536;
  -- "./_demo_data"
  out_dir = 46 ∷ 47 ∷ 95 ∷ 100 ∷ 101 ∷ 109 ∷ 111 ∷ 95 ∷ 100 ∷ 97 ∷ 116 ∷ 97 ∷ [];
  cursor_path = [];
  bucket_size = 1000;
  max_rows = 2000;
  compression = zstd_name;
  poll_interval = second;
  reset = false;
  sql = [];
  incremental = false;
  start_seq = 0;
  dedup = true;
  no_clear = false;
  follow = true;
  ingest_per_tick = 0;
}

unfoldable pub set_str : Bytes → Bytes → Bytes
set_str dst [] = dst
set_str dst (b ∷ bs) = b ∷ bs

unfoldable pub set_int : ℕ → ℕ → ℕ
set_int dst v = if v == 0 then dst else v

unfoldable pub set_u64 : ℕ → ℕ → ℕ
set_u64 dst v = if v == 0 then dst else v

unfoldable pub set_bool : Bool → Option Bool → Bool
set_bool dst none = dst
set_bool dst (some v) = v

-- The product of two int64 wraps around.
unfoldable pub set_dur_ms : ℕ → ℕ → ℕ
set_dur_ms dst ms = if ms == 0 then dst else (ms * millisecond) % u64_mod

unfoldable pub overlaid : StreamConfig → JsonConfig → StreamConfig
overlaid c j = record c {
  endpoint = set_str c.endpoint j.endpoint;
  access_key = set_str c.access_key j.access_key;
  secret_key = set_str c.secret_key j.secret_key;
  region = set_str c.region j.region;
  bucket = set_str c.bucket j.bucket;
  path_style = set_bool c.path_style j.path_style;
  create_bucket = set_bool c.create_bucket j.create_bucket;
  manifest_path = set_str c.manifest_path j.manifest_path;
  segment_prefix = set_str c.segment_prefix j.segment_prefix;
  flush_interval = set_dur_ms c.flush_interval j.flush_interval_ms;
  segment_max_bytes = set_int c.segment_max_bytes j.segment_max_bytes;
  batch_size = set_int c.batch_size j.batch_size;
  append_delay = set_dur_ms c.append_delay j.append_delay_ms;
  loop = set_bool c.loop j.loop;
  out_dir = set_str c.out_dir j.out_dir;
  cursor_path = set_str c.cursor_path j.cursor_path;
  bucket_size = set_u64 c.bucket_size j.bucket_size;
  max_rows = set_int c.max_rows j.max_rows;
  compression = set_str c.compression j.compression;
  poll_interval = set_dur_ms c.poll_interval j.poll_interval_ms;
  dedup = set_bool c.dedup j.dedup;
  no_clear = set_bool c.no_clear j.no_clear;
  follow = set_bool c.follow j.follow;
  ingest_per_tick = set_int c.ingest_per_tick j.ingest_per_tick;
}

-- `read_file` and `unmarshal` are `os.ReadFile` and `json.Unmarshal`.
unfoldable pub apply_json :
    (Bytes → Result Bytes)
    → (Bytes → Result JsonConfig)
    → StreamConfig
    → Bytes
    → Result StreamConfig
apply_json read_file unmarshal c path = wrapped config_read (read_file path) >>= λ b.
    wrapped config_parse (unmarshal b) >>= λ j. ok (overlaid c j)

unfoldable pub validate : StreamConfig → Result (Unit {0})
validate c =
    if bytes_eq c.mode producer_name
    then (if bytes_eq c.csv [] then err (invalid csv_missing) else ok tt)
    else if bytes_eq c.mode consumer_name
    then (if bytes_eq c.sql [] then err (invalid sql_missing) else ok tt)
    else if bytes_eq c.mode []
    then err (invalid mode_missing)
    else err (invalid mode_invalid)
