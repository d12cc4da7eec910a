-- ===== src/Querystream/Open/Tests.antt =====
-- Two files of a sink, found again.
use objwal.Prelude.{ℕ, refl, List, [], ◌∷◌, map, arith}
use objwal.Std.LittleEndian.{Bytes}
use objwal.Querystream.Names.{before_last_dot, file_path}
use objwal.Querystream.Sink.{Config, FileInfo}
use objwal.Querystream.Open.{empty_sink, scan}
use objwal.Querystream.Open.Restart.{no_slash, Reopened, scan-Reopened}

-- "log"
abbrev ext : Bytes
ext = 108 ∷ 111 ∷ 103 ∷ []

abbrev config : Config
config = record {
  manifest_path = 109 ∷ [];
  start_at = 0;
  dir = 100 ∷ [];
  bucket_size = 4;
  max_rows = 4;
  max_bytes = 0;
  poll_interval = 1;
  max_records_per_poll = 0;
}

abbrev file_of : ℕ → ℕ → ℕ → ℕ → FileInfo
file_of bucket first last rows = record {
  path = file_path config.dir bucket first last (46 ∷ ext);
  bucket = bucket;
  first_seq = first;
  last_seq = last;
  rows = rows;
}

abbrev files : List FileInfo
files = file_of 0 2 3 2 ∷ file_of 1 4 4 1 ∷ []

scan-Reopened_example :
    Reopened 5
      (empty_sink {T = ℕ} 2)
      (scan (46 ∷ ext) (map (λ f. f.path) files) (empty_sink 2))
      files
scan-Reopened_example =
    scan-Reopened config ext (unfold no_slash in refl) (unfold before_last_dot in refl) 5
      (omega arith) 2 2 files
      (refl, omega arith, refl, refl, refl, refl, (refl, omega arith, refl, refl, refl, refl, refl))
