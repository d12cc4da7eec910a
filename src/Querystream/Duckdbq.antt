-- ===== src/Querystream/Duckdbq.antt =====
-- querystream/duckdbq: the queries over the sink's files. The database is the world's: it runs a
-- statement, lists files, and answers a query with its rows.
pub mod Watermark
pub mod Stream
pub mod Progress
pub mod Run
pub mod Literal
pub mod Visible
pub mod Windows
mod Tests
use objwal.Prelude.{
  ℕ, ◌+◌, ◌/◌, ◌^◌, Bool, true, false, not, ◌&&◌, ◌||◌, List, [], ◌∷◌, ◌++◌, Option, none, some,
  ltb, leb, bytes_eq, ◌==◌, if◌then◌else◌,
}
use objwal.Error.{
  Result, ok, err, Error, invalid, wrap, query_view, query_rows, no_read_glob, invalid_view,
  invalid_seq_column, no_data,
}
use objwal.Std.LittleEndian.{Bytes}
use objwal.Std.Decimal.{decimal}
use objwal.ObjectStore.{Eff}
use objwal.Querystream.Names.{parse_visible_name, path_base}

pub data Mode : Type 0 where
  incremental cumulative : Mode

pub record Config : Type 0 where
  pub read_glob : Bytes
  pub seq_column : Bytes
  pub bucket_size : ℕ
  pub dedup : Bool
  pub view : Bytes

abbrev or_word : Bytes → Bytes → Bytes
or_word default [] = default
or_word default (b ∷ bs) = b ∷ bs

-- "seq"
abbrev pub seq_word : Bytes
seq_word = 115 ∷ 101 ∷ 113 ∷ []

-- "records"
abbrev records_word : Bytes
records_word = 114 ∷ 101 ∷ 99 ∷ 111 ∷ 114 ∷ 100 ∷ 115 ∷ []

unfoldable pub with_duckdb_defaults : Config → Config
with_duckdb_defaults c = record c {
  seq_column = or_word seq_word c.seq_column;
  view = or_word records_word c.view;
  bucket_size = if c.bucket_size == 0 then 2 ^ 20 else c.bucket_size;
}

pub record Query : Type 0 where
  pub sql : Bytes
  pub mode : Mode
  pub start : ℕ

unfoldable pub is_letter : ℕ → Bool
is_letter c = (c == 95) || (leb 97 c && leb c 122) || (leb 65 c && leb c 90)

unfoldable pub ident_rest : Bytes → Bool
ident_rest [] = true
ident_rest (c ∷ cs) =
    let rest = ident_rest cs in if is_letter c || (leb 48 c && leb c 57) then rest else false

-- The runes that pass are of one byte.
unfoldable pub valid_ident : Bytes → Bool
valid_ident [] = false
valid_ident (c ∷ cs) = if is_letter c then ident_rest cs else false

-- The checks of `Open`, with the defaults; the database that it connects is the world's.
unfoldable pub open_engine : Config → Result Config
open_engine c =
    let d = with_duckdb_defaults c in
    if bytes_eq c.read_glob []
    then err (invalid no_read_glob)
    else if not (valid_ident d.view)
    then err (invalid invalid_view)
    else if not (valid_ident d.seq_column)
    then err (invalid invalid_seq_column)
    else ok d

-- Each '\'' of a literal is doubled.
unfoldable pub doubled : Bytes → Bytes
doubled [] = []
doubled (b ∷ bs) = if b == 39 then 39 ∷ 39 ∷ doubled bs else b ∷ doubled bs

unfoldable pub sql_string : Bytes → Bytes
sql_string s = 39 ∷ (doubled s ++ (39 ∷ []))

-- A query's bounds: the lower one, if there is one, and the lower bound of the buckets.
pub record Bounds : Type 0 where
  pub lo_incl : ℕ
  pub has_lo : Bool
  pub bucket_lo : ℕ

unfoldable pub bounds_from : ℕ → ℕ → Bounds
bounds_from lo bucket_size =
    if lo == 0
    then record { lo_incl = 0; has_lo = false; bucket_lo = 0 }
    else record { lo_incl = lo; has_lo = true; bucket_lo = lo / bucket_size }

unfoldable pub resolve_window : Query → ℕ → ℕ → Bounds
resolve_window q wm bucket_size =
    bounds_from (elim q.mode [ incremental ↦ wm | cumulative ↦ q.start ]) bucket_size

-- " <= "
abbrev at_most : Bytes
at_most = 32 ∷ 60 ∷ 61 ∷ 32 ∷ []

-- " AND "
abbrev and_word : Bytes
and_word = 32 ∷ 65 ∷ 78 ∷ 68 ∷ 32 ∷ []

-- " >= "
abbrev at_least : Bytes
at_least = 32 ∷ 62 ∷ 61 ∷ 32 ∷ []

-- " AND seq_bucket >= "
abbrev and_bucket : Bytes
and_bucket =
    32 ∷ 65 ∷ 78 ∷ 68 ∷ 32 ∷ 115 ∷ 101 ∷ 113 ∷ 95 ∷ 98 ∷ 117 ∷ 99 ∷ 107 ∷ 101 ∷ 116 ∷ 32 ∷ 62 ∷ 61
    ∷ 32 ∷ []

-- "SELECT * FROM read_parquet("
abbrev select_from : Bytes
select_from =
    83 ∷ 69 ∷ 76 ∷ 69 ∷ 67 ∷ 84 ∷ 32 ∷ 42 ∷ 32 ∷ 70 ∷ 82 ∷ 79 ∷ 77 ∷ 32 ∷ 114 ∷ 101 ∷ 97 ∷ 100 ∷ 95
    ∷ 112 ∷ 97 ∷ 114 ∷ 113 ∷ 117 ∷ 101 ∷ 116 ∷ 40 ∷ []

-- ", hive_partitioning=true, hive_types={'seq_bucket': 'UBIGINT'}, union_by_name=true) WHERE "
abbrev read_options : Bytes
read_options =
    44 ∷ 32 ∷ 104 ∷ 105 ∷ 118 ∷ 101 ∷ 95 ∷ 112 ∷ 97 ∷ 114 ∷ 116 ∷ 105 ∷ 116 ∷ 105 ∷ 111 ∷ 110 ∷ 105
    ∷ 110 ∷ 103 ∷ 61 ∷ 116 ∷ 114 ∷ 117 ∷ 101 ∷ 44 ∷ 32 ∷ 104 ∷ 105 ∷ 118 ∷ 101 ∷ 95 ∷ 116 ∷ 121
    ∷ 112 ∷ 101 ∷ 115 ∷ 61 ∷ 123 ∷ 39 ∷ 115 ∷ 101 ∷ 113 ∷ 95 ∷ 98 ∷ 117 ∷ 99 ∷ 107 ∷ 101 ∷ 116 ∷ 39
    ∷ 58 ∷ 32 ∷ 39 ∷ 85 ∷ 66 ∷ 73 ∷ 71 ∷ 73 ∷ 78 ∷ 84 ∷ 39 ∷ 125 ∷ 44 ∷ 32 ∷ 117 ∷ 110 ∷ 105 ∷ 111
    ∷ 110 ∷ 95 ∷ 98 ∷ 121 ∷ 95 ∷ 110 ∷ 97 ∷ 109 ∷ 101 ∷ 61 ∷ 116 ∷ 114 ∷ 117 ∷ 101 ∷ 41 ∷ 32 ∷ 87
    ∷ 72 ∷ 69 ∷ 82 ∷ 69 ∷ 32 ∷ []

-- " QUALIFY row_number() OVER (PARTITION BY "
abbrev qualify : Bytes
qualify =
    32 ∷ 81 ∷ 85 ∷ 65 ∷ 76 ∷ 73 ∷ 70 ∷ 89 ∷ 32 ∷ 114 ∷ 111 ∷ 119 ∷ 95 ∷ 110 ∷ 117 ∷ 109 ∷ 98 ∷ 101
    ∷ 114 ∷ 40 ∷ 41 ∷ 32 ∷ 79 ∷ 86 ∷ 69 ∷ 82 ∷ 32 ∷ 40 ∷ 80 ∷ 65 ∷ 82 ∷ 84 ∷ 73 ∷ 84 ∷ 73 ∷ 79 ∷ 78
    ∷ 32 ∷ 66 ∷ 89 ∷ 32 ∷ []

-- " ORDER BY "
abbrev order_by : Bytes
order_by = 32 ∷ 79 ∷ 82 ∷ 68 ∷ 69 ∷ 82 ∷ 32 ∷ 66 ∷ 89 ∷ 32 ∷ []

-- ") = 1"
abbrev first_row : Bytes
first_row = 41 ∷ 32 ∷ 61 ∷ 32 ∷ 49 ∷ []

-- "CREATE OR REPLACE TEMP VIEW "
abbrev create_view : Bytes
create_view =
    67 ∷ 82 ∷ 69 ∷ 65 ∷ 84 ∷ 69 ∷ 32 ∷ 79 ∷ 82 ∷ 32 ∷ 82 ∷ 69 ∷ 80 ∷ 76 ∷ 65 ∷ 67 ∷ 69 ∷ 32 ∷ 84
    ∷ 69 ∷ 77 ∷ 80 ∷ 32 ∷ 86 ∷ 73 ∷ 69 ∷ 87 ∷ 32 ∷ []

-- " AS "
abbrev as_word : Bytes
as_word = 32 ∷ 65 ∷ 83 ∷ 32 ∷ []

-- "SELECT file FROM glob("
abbrev pub glob_front : Bytes
glob_front =
    83 ∷ 69 ∷ 76 ∷ 69 ∷ 67 ∷ 84 ∷ 32 ∷ 102 ∷ 105 ∷ 108 ∷ 101 ∷ 32 ∷ 70 ∷ 82 ∷ 79 ∷ 77 ∷ 32 ∷ 103
    ∷ 108 ∷ 111 ∷ 98 ∷ 40 ∷ []

unfoldable pub where_of : Bytes → Bounds → ℕ → Bytes
where_of seq b hi =
    (seq ++ (at_most ++ decimal hi))
    ++ (if b.has_lo
        then and_word
          ++ (seq ++ (at_least ++ (decimal b.lo_incl ++ (and_bucket ++ decimal b.bucket_lo))))
        else [])

unfoldable pub dedup_of : Config → Bytes
dedup_of c =
    if c.dedup then qualify ++ (c.seq_column ++ (order_by ++ (c.seq_column ++ first_row))) else []

unfoldable pub build_view_sql : Config → Bounds → ℕ → Bytes
build_view_sql c b hi =
    create_view
    ++ (c.view
        ++ (as_word
            ++ (select_from
                ++ (sql_string c.read_glob
                    ++ (read_options ++ (where_of c.seq_column b hi ++ dedup_of c))))))

-- The highest last sequence of the files' names.
unfoldable pub raised_by : Option (ℕ × ℕ) → Option ℕ → Option ℕ
raised_by none high = high
raised_by (some (first, last)) none = some last
raised_by (some (first, last)) (some high) = some (if ltb high last then last else high)

unfoldable pub highest_file : Option ℕ → List Bytes → Option ℕ
highest_file high [] = high
highest_file high (f ∷ fs) = highest_file (raised_by (parse_visible_name (path_base f)) high) fs

-- `ExecContext`, and `QueryContext`: with the scan of one column of strings, or with rows that are
-- still to be read.
pub record Database (W R : Type 0) : Type 0 where
  pub exec : Bytes → Eff W (Unit {0})
  pub strings : Bytes → Eff W (List Bytes)
  pub rows : Bytes → Eff W (Eff W R)

module _ {W R : Type 0} (db : Database W R) (cfg : Config) where
  unfoldable pub after_list : Result (List Bytes) × W → Result (Option ℕ) × W
  after_list (err e, w) = (err e, w)
  after_list (ok fs, w) = (ok (highest_file none fs), w)

  unfoldable pub visible_high_of : Eff W (Option ℕ)
  visible_high_of w =
      after_list (db.strings (glob_front ++ (sql_string cfg.read_glob ++ (41 ∷ []))) w)

  unfoldable pub after_query : ℕ → Result (Eff W R) × W → Result (Eff W R × ℕ) × W
  after_query hi (err e, w) = (err (wrap query_rows e), w)
  after_query hi (ok rows, w) = (ok (rows, hi), w)

  unfoldable pub after_view : Query → ℕ → Result (Unit {0}) × W → Result (Eff W R × ℕ) × W
  after_view q hi (err e, w) = (err (wrap query_view e), w)
  after_view q hi (ok _, w) = after_query hi (db.rows q.sql w)

  unfoldable pub after_high : Query → ℕ → Result (Option ℕ) × W → Result (Eff W R × ℕ) × W
  after_high q wm (err e, w) = (err e, w)
  after_high q wm (ok none, w) = (err no_data, w)
  after_high q wm (ok (some hi), w) =
      after_view q hi (db.exec (build_view_sql cfg (resolve_window q wm cfg.bucket_size) hi) w)

  -- `Query`
  unfoldable pub run_query : Query → ℕ → Eff W (Eff W R × ℕ)
  run_query q wm w = after_high q wm (visible_high_of w)
