-- ===== src/Cmd/Stream/Render.antt =====
-- cmd/stream/render.go: the frames of the demo's consumer. The time of day that a frame shows is left
-- out, and the columns that package text/tabwriter aligns are lists of cells.
pub mod Cells
use objwal.Prelude.{
  ℕ, ◌+◌, ◌≤◌, ◌≡◌, ◌≢◌, refl, inl, inr, Bool, true, false, not, ◌&&◌, List, [], ◌∷◌, ◌++◌, map,
  length, length-append, All, All-append, ltb, ◌==◌, Bool-cases, if◌then◌else◌, arith,
}
use objwal.Prelude.Slices.{take, length-take}
use objwal.Error.{Result, ok, err, ◌>>=◌, ◌>>◌}
use objwal.Std.LittleEndian.{Bytes}
use objwal.ObjectStore.{Eff}
use objwal.Cmd.Stream.Config.{StreamConfig}

-- '\n' is replaced by ' '.
unfoldable pub one_line : Bytes → Bytes
one_line [] = []
one_line (b ∷ bs) = (if b == 10 then 32 else b) ∷ one_line bs

abbrev pub max_cell_width : ℕ
max_cell_width = 48

-- "…" is of three bytes.
unfoldable pub truncate : Bytes → Bytes
truncate s =
    let t = one_line s in
    if ltb max_cell_width (length t) then take 47 t ++ (226 ∷ 128 ∷ 166 ∷ []) else t

-- What `sql.Rows` gives: its columns, the scan of each row, and the error that has ended them.
pub record QueryRows : Type 0 where
  pub columns : Result (List Bytes)
  pub scans : List (Result (List Bytes))
  pub ended_by : Result (Unit {0})

unfoldable pub scanned_rows : List (Result (List Bytes)) → Result (List (List Bytes))
scanned_rows [] = ok []
scanned_rows (scan ∷ scans) =
    scan >>= λ raw. scanned_rows scans >>= λ out. ok (map truncate raw ∷ out)

-- The rows and their number; an error of the rows is returned with them.
unfoldable pub scan_all : QueryRows → Result (List (List Bytes) × ℕ)
scan_all rows = scanned_rows rows.scans >>= λ out. rows.ended_by >> ok (out, length out)

pub record Renderer : Type 0 where
  pub is_tty : Bool
  pub keeps_screen : Bool
  pub cumulative_mode : Bool

-- `newRenderer`; whether the output is a terminal is the world's to say.
unfoldable new_renderer : Bool → StreamConfig → Renderer
new_renderer tty c = record {
  is_tty = tty;
  keeps_screen = c.no_clear;
  cumulative_mode = not c.incremental;
}

-- How a frame begins.
pub data FrameStart : Type 0 where
  clear_screen separator : FrameStart

unfoldable pub frame_start : Renderer → FrameStart
frame_start r = if r.is_tty && not r.keeps_screen then clear_screen else separator

pub record DrawnFrame : Type 0 where
  pub begins : FrameStart
  pub header : List Bytes
  pub cells : List (List Bytes)
  pub cumulative_shown : Bool
  pub low : ℕ
  pub high_shown : ℕ
  pub row_count : ℕ

-- The frame that `render` prints. Before it has printed one it can fail.
unfoldable pub render : Renderer → QueryRows → ℕ → ℕ → Result DrawnFrame
render r rows lo hi = rows.columns >>= λ cols. scan_all rows >>= λ (cells, n). ok (record {
  begins = frame_start r;
  header = cols;
  cells = cells;
  cumulative_shown = r.cumulative_mode;
  low = lo;
  high_shown = hi;
  row_count = n;
})
