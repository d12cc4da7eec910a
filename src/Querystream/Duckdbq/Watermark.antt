-- ===== src/Querystream/Duckdbq/Watermark.antt =====
-- querystream/duckdbq/watermark.go: where an incremental query has got to.
use objwal.Prelude.{
  ℕ, Bool, true, false, ◌&&◌, ◌||◌, [], ◌∷◌, ◌++◌, Option, none, some, ◌==◌, leb, if◌then◌else◌,
}
use objwal.Error.{Result, ok, err, invalid, watermark_syntax, watermark_conflict}
use objwal.Std.LittleEndian.{Bytes}
use objwal.Std.Decimal.{decimal}
use objwal.Std.Digits.{parse_uint}
use objwal.ObjectStore.{Eff}
use objwal.Wal.Cursor.{Files}

-- `load` also returns whether a value is set; an unset one is 0.
pub record WatermarkStore (W : Type 0) : Type 0 where
  pub load : Eff W (ℕ × Bool)
  pub save_cas : ℕ → ℕ → Eff W (Unit {0})

record MemWatermark : Type 0 where
  pub v : ℕ
  pub is_set : Bool

unfoldable mem_save_cas : ℕ → ℕ → Eff MemWatermark (Unit {0})
mem_save_cas prev next m =
    if m.v == prev then (ok tt, record { v = next; is_set = true }) else (err watermark_conflict, m)

abbrev mem_watermark_store : WatermarkStore MemWatermark
mem_watermark_store = record { load = λ m. (ok (m.v, m.is_set), m); save_cas = mem_save_cas }

-- Of the spaces, those of one byte.
unfoldable pub is_space : ℕ → Bool
is_space c = (leb 9 c && leb c 13) || (c == 32)

unfoldable pub trim_left : Bytes → Bytes
trim_left [] = []
trim_left (b ∷ bs) = let rest = trim_left bs in if is_space b then rest else b ∷ bs

unfoldable pub trim_right : Bytes → Bytes
trim_right [] = []
trim_right (b ∷ bs) = elim (trim_right bs) [
  | [] ↦ if is_space b then [] else b ∷ []
  | c ∷ cs ↦ b ∷ c ∷ cs
]

-- `strings.TrimSpace`
unfoldable pub trim_space : Bytes → Bytes
trim_space s = trim_right (trim_left s)

unfoldable pub watermark_value : Option ℕ → Result (ℕ × Bool)
watermark_value none = err (invalid watermark_syntax)
watermark_value (some v) = ok (v, true)

module _ {W : Type 0} (fs : Files W) (path : Bytes) where
  unfoldable pub watermark_of : Result Bytes × W → Result (ℕ × Bool) × W
  watermark_of (err e, w) = ((if fs.is_not_exist e then ok (0, false) else err e), w)
  watermark_of (ok bytes, w) = (watermark_value (parse_uint (trim_space bytes)), w)

  unfoldable pub file_watermark_load : Eff W (ℕ × Bool)
  file_watermark_load w = watermark_of (fs.read_file path w)

  -- ".tmp" behind the path.
  unfoldable pub watermark_tmp : Bytes
  watermark_tmp = path ++ (46 ∷ 116 ∷ 109 ∷ 112 ∷ [])

  unfoldable pub renamed_watermark : Result (Unit {0}) × W → Result (Unit {0}) × W
  renamed_watermark (err e, w) = (err e, w)
  renamed_watermark (ok _, w) = fs.rename watermark_tmp path w

  unfoldable pub compared : ℕ → ℕ → Result (ℕ × Bool) × W → Result (Unit {0}) × W
  compared prev next (err e, w) = (err e, w)
  compared prev next (ok (cur, _), w) =
      if cur == prev
      then renamed_watermark (fs.write_file watermark_tmp (decimal next) w)
      else (err watermark_conflict, w)

  unfoldable pub file_save_cas : ℕ → ℕ → Eff W (Unit {0})
  file_save_cas prev next w = compared prev next (file_watermark_load w)

  -- `FileWatermarkStore`
  abbrev pub file_watermark_store : WatermarkStore W
  file_watermark_store = record { load = file_watermark_load; save_cas = file_save_cas }
