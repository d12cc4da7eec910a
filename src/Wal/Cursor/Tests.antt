-- ===== src/Wal/Cursor/Tests.antt =====
-- A cursor saved to a disk in memory.
use objwal.Prelude.{
  ◌≡◌, refl, List, [], ◌∷◌, Option, none, some, bytes_eq, bytes_eq_refl, if◌then◌else◌, arith,
}
use objwal.Error.{ok, err, not_found, is_not_found}
use objwal.Std.LittleEndian.{Bytes}
use objwal.ObjectStore.{Eff}
use objwal.Wal.Cursor.{Files, file_save, after_write, after_rename, tmp_path}

abbrev Disk : Type 0
Disk = List (Bytes × Bytes)

abbrev lookup : Bytes → Disk → Option Bytes
lookup path [] = none
lookup path ((p, b) ∷ rest) =
    let later = lookup path rest in if bytes_eq p path then some b else later

abbrev rename : Bytes → Bytes → Eff Disk (Unit {0})
rename from to w = elim (lookup from w) [
  | none ↦ (err not_found, w)
  | some b ↦ (ok tt, (to, b) ∷ w)
]

abbrev read : Bytes → Eff Disk Bytes
read path w = elim (lookup path w) [ none ↦ (err not_found, w) | some b ↦ (ok b, w) ]

abbrev write : Bytes → Bytes → Eff Disk (Unit {0})
write path b w = (ok tt, (path, b) ∷ w)

lookup_front : (path bytes : Bytes) (w : Disk) → lookup path ((path, bytes) ∷ w) ≡ some bytes
lookup_front path bytes w = rw (lookup, bytes_eq_refl path) refl

read-rename :
    (path tmp bytes : Bytes) (w w₁ w₂ : Disk)
    → write tmp bytes w ≡ (ok tt, w₁)
    → rename tmp path w₁ ≡ (ok tt, w₂)
    → read path w₂ ≡ (ok bytes, w₂)
read-rename path tmp bytes w w₁ w₂ h k =
    ground (arith, h, k, lookup_front tmp bytes w, lookup_front path bytes w₁)

abbrev disk : Files Disk
disk = record {
  read_file = read;
  write_file = write;
  rename = rename;
  is_not_exist = is_not_found;
  read-rename-write = read-rename;
}

abbrev at_five : Disk
at_five = (file_save disk (99 ∷ []) 5 []).1

saved : file_save disk (99 ∷ []) 5 [] ≡ (ok tt, at_five)
unfolding file_save after_write after_rename tmp_path bytes_eq
saved = refl
