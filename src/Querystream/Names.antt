-- ===== src/Querystream/Names.antt =====
-- The names of finalized files: `filePath`, `parsePartName` and `parseBucketDir` of
-- querystream/sink.go, and `parsePartName` of querystream/duckdbq/visible.go.
pub mod RoundTrip
use objwal.Prelude.{
  ℕ, suc, ◌+◌, ◌-◌, ◌*◌, ◌^◌, Bool, true, false, List, [], ◌∷◌, ◌++◌, Option, none, some, length,
  ltb, leb, ◌==◌, bytes_eq, if◌then◌else◌,
}
use objwal.Prelude.Slices.{take, drop}
use objwal.Std.LittleEndian.{Bytes}
use objwal.Std.Digits.{digits, parse_uint, is_digit}
use objwal.ObjectStore.Memory.{has_prefix}

-- "part-"
abbrev pub part_prefix : Bytes
part_prefix = 112 ∷ 97 ∷ 114 ∷ 116 ∷ 45 ∷ []

-- "seq_bucket="
abbrev pub bucket_prefix : Bytes
bucket_prefix = 115 ∷ 101 ∷ 113 ∷ 95 ∷ 98 ∷ 117 ∷ 99 ∷ 107 ∷ 101 ∷ 116 ∷ 61 ∷ []

unfoldable pub bucket_dir : ℕ → Bytes
bucket_dir bucket = bucket_prefix ++ digits 20 bucket

unfoldable pub part_name : ℕ → ℕ → Bytes → Bytes
part_name first last ext = part_prefix ++ (digits 20 first ++ (45 ∷ (digits 20 last ++ ext)))

-- `filepath.Join` of a clean directory and two names.
unfoldable pub file_path : Bytes → ℕ → ℕ → ℕ → Bytes → Bytes
file_path dir bucket first last ext =
    dir ++ (47 ∷ (bucket_dir bucket ++ (47 ∷ part_name first last ext)))

-- `strings.HasSuffix`
unfoldable pub has_suffix : Bytes → Bytes → Bool
has_suffix s suffix =
    if leb (length suffix) (length s)
    then bytes_eq (drop (length s - length suffix) s) suffix
    else false

-- What stands before the first `c`, and behind it.
unfoldable pub split_at : ℕ → Bytes → Option (Bytes × Bytes)
split_at c [] = none
split_at c (b ∷ bs) =
    let rest = split_at c bs in
    if b == c then some ([], bs) else elim rest [ none ↦ none | some p ↦ some (b ∷ p.0, p.1) ]

-- The two numbers of "<first>-<last>".
unfoldable pub both_bounds : Option ℕ → Option ℕ → Option (ℕ × ℕ)
both_bounds (some first) (some last) = some (first, last)
both_bounds none _ = none
both_bounds (some _) none = none

unfoldable pub parse_bounds : Bytes → Option (ℕ × ℕ)
parse_bounds mid = elim (split_at 45 mid) [
  | none ↦ none
  | some p ↦ both_bounds (parse_uint p.0) (parse_uint p.1)
]

unfoldable pub parse_part_name : Bytes → Bytes → Option (ℕ × ℕ)
parse_part_name base ext =
    if has_prefix base part_prefix
    then (if has_suffix base ext
        then (let tail = drop 5 base in
            parse_bounds
              (if has_suffix tail ext then take (length tail - length ext) tail else tail))
        else none)
    else none

-- What ParseUint returns beside an error: the largest uint64 for a number that does not fit.
unfoldable pub value_of_error : ℕ → Bytes → ℕ
value_of_error acc [] = 0
value_of_error acc (c ∷ cs) =
    let v = acc * 10 + (c - 48) in
    let rest = value_of_error v cs in
    if is_digit c then (if ltb v (2 ^ 64) then rest else 2 ^ 64 - 1) else 0

unfoldable pub bucket_number : Bytes → ℕ × Bool
bucket_number s = elim (parse_uint s) [ some v ↦ (v, true) | none ↦ (value_of_error 0 s, false) ]

unfoldable pub parse_bucket_dir : Bytes → ℕ × Bool
parse_bucket_dir dir =
    if has_prefix dir bucket_prefix then bucket_number (drop 11 dir) else (0, false)

-- What stands before the last '/' of a path, and behind it.
unfoldable pub last_slash : Bytes → Option (Bytes × Bytes)
last_slash [] = none
last_slash (b ∷ bs) = elim (last_slash bs) [
  | some p ↦ some (b ∷ p.0, p.1)
  | none ↦ if b == 47 then some ([], bs) else none
]

-- `filepath.Base` and `filepath.Dir` of a path below a directory.
unfoldable pub path_base : Bytes → Bytes
path_base path = elim (last_slash path) [ none ↦ path | some p ↦ p.1 ]

unfoldable pub path_dir : Bytes → Bytes
path_dir path = elim (last_slash path) [ none ↦ 46 ∷ [] | some p ↦ p.0 ]

-- What stands before the last '.', all if there is none.
unfoldable pub before_last_dot : Bytes → Option Bytes
before_last_dot [] = none
before_last_dot (b ∷ bs) = elim (before_last_dot bs) [
  | some front ↦ some (b ∷ front)
  | none ↦ if b == 46 then some [] else none
]

unfoldable pub without_ext : Bytes → Bytes
without_ext base = elim (before_last_dot base) [ none ↦ base | some front ↦ front ]

-- `parsePartName` of the package duckdbq, which takes any extension.
unfoldable pub parse_visible_name : Bytes → Option (ℕ × ℕ)
parse_visible_name base =
    if has_prefix base part_prefix
    then (let cut = without_ext base in
        parse_bounds (if has_prefix cut part_prefix then drop 5 cut else cut))
    else none
