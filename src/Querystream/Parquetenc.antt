-- ===== src/Querystream/Parquetenc.antt =====
-- querystream/parquetenc/parquet.go: the encoder of the sink's files. The package parquet-go and the
-- files of the package os are the world's.
use objwal.Prelude.{ℕ, ◌^◌, List, [], ◌∷◌, Option, none, some, bytes_eq, ltb, if◌then◌else◌}
use objwal.Error.{Result, ok, err, wrap, parquet_write, parquet_close}
use objwal.Std.LittleEndian.{Bytes}
use objwal.ObjectStore.{Eff}

pub record ParquetOptions : Type 0 where
  pub codec_name : Bytes
  pub seq_name : Bytes
  pub row_group_target_rows : ℕ

pub data Codec : Type 0 where
  snappy zstd : Codec

pub record ParquetEncoder : Type 0 where
  pub opts : ParquetOptions
  pub codec : Codec
  pub sort_column : Bytes

unfoldable codec_named : Bytes → Codec
codec_named name = if bytes_eq name (122 ∷ 115 ∷ 116 ∷ 100 ∷ []) then zstd else snappy

-- "seq" by default.
unfoldable or_seq : Bytes → Bytes
or_seq [] = 115 ∷ 101 ∷ 113 ∷ []
or_seq (b ∷ bs) = b ∷ bs

unfoldable new_encoder : ParquetOptions → ParquetEncoder
new_encoder opts = record {
  opts = opts;
  codec = codec_named opts.codec_name;
  sort_column = or_seq opts.seq_name;
}

-- ".parquet"
abbrev parquet_ext : Bytes
parquet_ext = 46 ∷ 112 ∷ 97 ∷ 114 ∷ 113 ∷ 117 ∷ 101 ∷ 116 ∷ []

-- What a writer is made with: the codec, the column it sorts by, and the cap on the rows of a group,
-- if there is one.
pub record WriterOptions : Type 0 where
  pub compression : Codec
  pub ascending : Bytes
  pub max_rows_per_group : Option ℕ

-- An int64 above 0.
unfoldable pub writer_options : ParquetEncoder → WriterOptions
writer_options e =
    let n = e.opts.row_group_target_rows in
    record {
      compression = e.codec;
      ascending = e.sort_column;
      max_rows_per_group = if ltb 0 n then (if ltb n (2 ^ 63) then some n else none) else none;
    }

-- `os.Create`, `File.Close`, and a writer with what it does to a file.
pub record ParquetFiles (W T F Wr : Type 0) : Type 0 where
  pub create_file : Bytes → Eff W F
  pub close_file : F → Eff W (Unit {0})
  pub new_writer : F → WriterOptions → W → Wr × W
  pub write_rows : Wr → List T → Eff W (Unit {0})
  pub close_writer : Wr → Eff W (Unit {0})

module _ {W T F Wr : Type 0} (files : ParquetFiles W T F Wr) where
  -- The deferred close of the file, whose error is dropped.
  unfoldable pub closing_file : F → Result (Unit {0}) × W → Result (Unit {0}) × W
  closing_file f (x, w) = let (_, w') = files.close_file f w in (x, w')

  unfoldable pub after_writer_close : Result (Unit {0}) × W → Result (Unit {0}) × W
  after_writer_close (err e, w) = (err (wrap parquet_close e), w)
  after_writer_close (ok _, w) = (ok tt, w)

  unfoldable pub after_rows : Wr → Result (Unit {0}) × W → Result (Unit {0}) × W
  after_rows wr (err e, w) =
      let (_, w') = files.close_writer wr w in (err (wrap parquet_write e), w')
  after_rows wr (ok _, w) = after_writer_close (files.close_writer wr w)

  unfoldable pub with_writer : List T → Wr × W → Result (Unit {0}) × W
  with_writer rows (wr, w) = after_rows wr (files.write_rows wr rows w)

  unfoldable pub after_file_create : ParquetEncoder → List T → Result F × W → Result (Unit {0}) × W
  after_file_create e rows (err x, w) = (err x, w)
  after_file_create e rows (ok f, w) =
      closing_file f (with_writer rows (files.new_writer f (writer_options e) w))

  -- `Encode`; the sequences are in the rows.
  unfoldable pub encode_rows : ParquetEncoder → Bytes → List ℕ → List T → Eff W (Unit {0})
  encode_rows e path seqs rows w = after_file_create e rows (files.create_file path w)
