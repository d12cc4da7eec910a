-- ===== src/Querystream/Jsonl.antt =====
-- `JSONLEncoder` of querystream/types.go: a line for each row. The files of the package os, with the
-- buffered writer and the package encoding/json behind it, are the world's.
use objwal.Prelude.{ℕ, List, [], ◌∷◌}
use objwal.Error.{Result, ok, err, panicked}
use objwal.Std.LittleEndian.{Bytes}
use objwal.ObjectStore.{Eff}

-- ".jsonl"
unfoldable jsonl_ext : Bytes
jsonl_ext = 46 ∷ 106 ∷ 115 ∷ 111 ∷ 110 ∷ 108 ∷ []

-- `os.Create`, `File.Close`, and a line and the flush of the buffer between them.
pub record LineFiles (W T F : Type 0) : Type 0 where
  pub create_lines : Bytes → Eff W F
  pub close_lines : F → Eff W (Unit {0})
  pub write_line : F → ℕ → T → Eff W (Unit {0})
  pub flush_lines : F → Eff W (Unit {0})

module _ {W T F : Type 0} (files : LineFiles W T F) where
  -- The deferred close, whose error is dropped.
  unfoldable pub closing_lines : F → Result (Unit {0}) × W → Result (Unit {0}) × W
  closing_lines f (x, w) = let (_, w') = files.close_lines f w in (x, w')

  unfoldable pub after_line :
      (W → Result (Unit {0}) × W) → Result (Unit {0}) × W → Result (Unit {0}) × W
  after_line more (err e, w) = (err e, w)
  after_line more (ok _, w) = more w

  -- A row without its sequence is an index out of range; the buffer is flushed behind the last row.
  unfoldable pub write_lines : F → List ℕ → List T → W → Result (Unit {0}) × W
  write_lines f seqs [] w = files.flush_lines f w
  write_lines f [] (row ∷ rows) w = (err panicked, w)
  write_lines f (seq ∷ seqs) (row ∷ rows) w =
      after_line (write_lines f seqs rows) (files.write_line f seq row w)

  unfoldable pub after_lines_create : List ℕ → List T → Result F × W → Result (Unit {0}) × W
  after_lines_create seqs rows (err e, w) = (err e, w)
  after_lines_create seqs rows (ok f, w) = closing_lines f (write_lines f seqs rows w)

  -- `Encode`
  unfoldable pub encode_lines : Bytes → List ℕ → List T → Eff W (Unit {0})
  encode_lines path seqs rows w = after_lines_create seqs rows (files.create_lines path w)
