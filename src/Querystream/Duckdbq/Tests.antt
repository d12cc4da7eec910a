-- ===== src/Querystream/Duckdbq/Tests.antt =====
-- The queries at concrete inputs, and a world of one file, one view and a channel.
use objwal.Prelude.{
  ℕ, ◌/◌, ◌≡◌, refl, Bool, true, false, List, [], ◌∷◌, ◌++◌, none, some, map, leb, ◌&&◌, ◌==◌,
  arith,
}
use objwal.Error.{Result, ok, err, Error, watermark_conflict}
use objwal.Std.LittleEndian.{Bytes}
use objwal.ObjectStore.{Eff}
use objwal.Querystream.Names.{before_last_dot, file_path}
use objwal.Querystream.Sink.{Config, Sink, sizes}
use objwal.Querystream.Sink.Buffer.{Tiled}
use objwal.Querystream.Open.Restart.{no_slash}
use objwal.Querystream.Duckdbq
use objwal.Querystream.Duckdbq.{
  incremental, Query, Database, sql_string, resolve_window, highest_file,
}
use objwal.Querystream.Duckdbq.Watermark.{WatermarkStore}
use objwal.Querystream.Duckdbq.Windows.{selects, lower_bound, resolve_window-selects}
use objwal.Querystream.Duckdbq.Visible.{highest_file-Tiled}
use objwal.Querystream.Duckdbq.Stream.{Emitted}
use objwal.Querystream.Duckdbq.Progress.{Kept, Progress}

abbrev query : Query
query = record { sql = 83 ∷ []; mode = incremental; start = 0 }

resolve_window-selects_example :
    selects (resolve_window query 5 4) 9 7 (7 / 4) ≡ (leb (lower_bound query 5) 7 && leb 7 9)
resolve_window-selects_example = resolve_window-selects query 5 4 9 7 (omega arith)

-- "log"
abbrev ext : Bytes
ext = 108 ∷ 111 ∷ 103 ∷ []

abbrev config : Config
config = record {
  manifest_path = 109 ∷ [];
  start_at = 0;
  dir = 100 ∷ [];
  bucket_size = 4;
  max_rows = 4;
  max_bytes = 0;
  poll_interval = 1;
  max_records_per_poll = 0;
}

abbrev two_rows : Sink ℕ
two_rows = record {
  buf = [];
  approx_bytes = 0;
  visible_high = 3;
  have_data = true;
  catalog =
      record {
        path = file_path config.dir 0 2 3 (46 ∷ ext);
        bucket = 0;
        first_seq = 2;
        last_seq = 3;
        rows = 2;
      }
      ∷ [];
  next_cursor = 4;
  notify = none;
}

two_rows-Tiled : Tiled config (46 ∷ ext) 2 two_rows 4
unfolding sizes
two_rows-Tiled = record {
  files = (refl, omega arith, refl, refl, refl, refl, refl);
  rows = refl;
  one_bucket = tt;
  counted = refl;
  high = λ _. refl;
}

highest_file-Tiled_example : highest_file none (map (λ f. f.path) two_rows.catalog) ≡ some 3
highest_file-Tiled_example =
    highest_file-Tiled config ext 2 4 two_rows (unfold no_slash in refl)
      (unfold before_last_dot in refl) (omega arith) two_rows-Tiled refl (omega arith)

record World : Type 0 where
  wm : ℕ
  sent : List (Emitted Bytes)
  view : Bytes

abbrev scan_view : Eff World Bytes
scan_view v = (ok v.view, v)

abbrev database : Database World Bytes
database = record {
  exec = λ sql w. (ok tt, record w { view = sql });
  strings = λ sql w. (ok (file_path config.dir 0 2 3 (46 ∷ ext) ∷ []), w);
  rows = λ sql w. (ok scan_view, w);
}

abbrev cas_in : Bool → ℕ → World → Result (Unit {0}) × World
cas_in true next w = (ok tt, record w { wm = next })
cas_in false next w = (err watermark_conflict, w)

abbrev store : WatermarkStore World
store = record {
  load = λ w. (ok (w.wm, true), w);
  save_cas = λ prev next w. cas_in (prev == w.wm) next w;
}

abbrev channel : Emitted Bytes → Eff World (Unit {0})
channel out w = (ok tt, record w { sent = w.sent ++ out ∷ [] })

abbrev kept : Kept database store channel
kept = record { mark = λ w. w.wm; sent = λ w. w.sent; view = λ w. w.view; contents = λ v. v }

abbrev engine : Duckdbq.Config
engine = record {
  read_glob = 103 ∷ [];
  seq_column = 115 ∷ [];
  bucket_size = 4;
  dedup = false;
  view = 118 ∷ [];
}

abbrev world : World
world = record { wm = 1; sent = []; view = [] }
