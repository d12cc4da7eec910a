-- ===== src/Wal/Cursor.antt =====
-- wal/cursor.go: where a replica keeps the next sequence to apply.
mod Tests
use objwal.Prelude.{
  ℕ, ◌≡◌, ◌<◌, ◌^◌, refl, ap, ◌∙◌, Bool, true, false, [], ◌∷◌, ◌++◌, append-nil, Option, none, some,
  length, ◌==◌, if◌then◌else◌, arith,
}
use objwal.Error.{
  Result, ok, err, Error, invalid, wrap, cursor_size, cursor_load, cursor_save_tmp,
  cursor_save_rename,
}
use objwal.Std.LittleEndian.{Bytes, le_bytes, uint, uint-le_bytes_all, length-le_bytes}
use objwal.ObjectStore.{Eff}
use objwal.Wal.Replica.{CursorStore}

-- `MemCursorStore`: the cursor, if one is set.
record MemCursor : Type 0 where
  pub val : ℕ
  pub is_set : Bool

abbrev mem_cursor_store : CursorStore MemCursor
mem_cursor_store = record {
  load = λ m. (ok (if m.is_set then some m.val else none), m);
  save = λ next m. (ok tt, record { val = next; is_set = true });
}

-- The package os: whole-file reads and writes, renames, and the test of an error for a missing
-- file. What was written to a file that is then renamed is read under the new name.
pub record Files (W : Type 0) : Type 0 where
  pub read_file : Bytes → Eff W Bytes
  pub write_file : Bytes → Bytes → Eff W (Unit {0})
  pub rename : Bytes → Bytes → Eff W (Unit {0})
  pub is_not_exist : Error → Bool
  pub read-rename-write :
      (path tmp bytes : Bytes) (w w₁ w₂ : W)
      → write_file tmp bytes w ≡ (ok tt, w₁)
      → rename tmp path w₁ ≡ (ok tt, w₂)
      → read_file path w₂ ≡ (ok bytes, w₂)

module _ {W : Type 0} (fs : Files W) (path : Bytes) where
  -- What `Load` makes of the file.
  unfoldable pub cursor_of : Result Bytes × W → Result (Option ℕ) × W
  cursor_of (err e, w) = ((if fs.is_not_exist e then ok none else err (wrap cursor_load e)), w)
  cursor_of (ok bytes, w) =
      ((if length bytes == 8 then ok (some (uint 8 bytes)) else err (invalid cursor_size)), w)

  unfoldable pub file_load : Eff W (Option ℕ)
  file_load w = cursor_of (fs.read_file path w)

  -- ".tmp" behind the path.
  unfoldable pub tmp_path : Bytes
  tmp_path = path ++ (46 ∷ 116 ∷ 109 ∷ 112 ∷ [])

  unfoldable pub after_rename : Result (Unit {0}) × W → Result (Unit {0}) × W
  after_rename (err e, w) = (err (wrap cursor_save_rename e), w)
  after_rename (ok _, w) = (ok tt, w)

  unfoldable pub after_write : Result (Unit {0}) × W → Result (Unit {0}) × W
  after_write (err e, w) = (err (wrap cursor_save_tmp e), w)
  after_write (ok _, w) = after_rename (fs.rename tmp_path path w)

  unfoldable pub file_save : ℕ → Eff W (Unit {0})
  file_save next w = after_write (fs.write_file tmp_path (le_bytes 8 next) w)

  -- `FileCursorStore`
  abbrev pub file_cursor_store : CursorStore W
  file_cursor_store = record { load = file_load; save = file_save }

  renamed : (p : Result (Unit {0}) × W) (w' : W) → after_rename p ≡ (ok tt, w') → p ≡ (ok tt, w')
  unfolding after_rename
  renamed (err e, w) w' h = absurd (cc h)
  renamed (ok u, w) w' h = h

  written :
      (p : Result (Unit {0}) × W) (w' : W)
      → after_write p ≡ (ok tt, w')
      → (w₁ : W) × (p ≡ (ok tt, w₁)) × (fs.rename tmp_path path w₁ ≡ (ok tt, w'))
  unfolding after_write
  written (err e, w) w' h = absurd (cc h)
  written (ok u, w) w' h = (w, refl, renamed (fs.rename tmp_path path w) w' h)

-- Behind a save to the file of a cursor below 2 ^ 64 that has succeeded, a load gives the cursor
-- that was saved.
file_load-file_save :
    {W : Type 0} (fs : Files W) (path : Bytes) (next : ℕ) (w w' : W)
    → next < 2 ^ 64
    → file_save fs path next w ≡ (ok tt, w')
    → file_load fs path w' ≡ (ok (some next), w')
unfolding file_save file_load cursor_of
file_load-file_save fs path next w w' fits h =
    let (w₁, wrote, moved) =
      written fs path (fs.write_file (tmp_path fs path) (le_bytes 8 next) w) w' h in
    rw
      (
        fs.read-rename-write path (tmp_path fs path) (le_bytes 8 next) w w₁ w' wrote moved,
        cursor_of,
      )
      (rw (length-le_bytes 8 next, uint-le_bytes_all 8 next (omega arith)) refl)
