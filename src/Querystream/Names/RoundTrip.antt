-- ===== src/Querystream/Names/RoundTrip.antt =====
-- The sequences that a file's name carries are read back by both packages.
use objwal.Prelude.{
  ℕ, ◌-◌, ◌^◌, ◌<◌, ◌≡◌, refl, sym, ap, true, [], ◌∷◌, ◌++◌, append_assoc, append-nil, none, some,
  length, length-append, le→leb, bytes_eq_refl, arith,
}
use objwal.Prelude.Slices.{take-append, drop-append}
use objwal.Std.LittleEndian.{Bytes}
use objwal.Std.Digits.{digits, is_digit, all_digits, all_digits-digits, parse_uint-digits}
use objwal.ObjectStore.Memory.{has_prefix}
use objwal.Querystream.Names.{
  part_prefix, bucket_prefix, bucket_dir, part_name, has_suffix, split_at, both_bounds,
  parse_bounds, parse_part_name, bucket_number, parse_bucket_dir, before_last_dot, without_ext,
  parse_visible_name,
}

has_prefix-append : (prefix rest : Bytes) → has_prefix (prefix ++ rest) prefix ≡ true
unfolding has_prefix
has_prefix-append [] rest = refl
has_prefix-append (b ∷ prefix) rest = ground (arith, has_prefix-append prefix rest)

has_suffix-append : (front suffix : Bytes) → has_suffix (front ++ suffix) suffix ≡ true
unfolding has_suffix
has_suffix-append front suffix =
    let size = length-append front suffix in
    rw
      (
        le→leb (length suffix) (length (front ++ suffix)) (omega (arith, size)),
        drop-append (length (front ++ suffix) - length suffix) front suffix (omega (arith, size)),
      )
      (bytes_eq_refl suffix)

split_at-digits :
    (xs rest : Bytes) → all_digits xs ≡ true → split_at 45 (xs ++ 45 ∷ rest) ≡ some (xs, rest)
unfolding split_at all_digits is_digit
split_at-digits [] rest h = refl
split_at-digits (c ∷ xs) rest h = ground (arith, split_at-digits xs rest)

-- "<first>-<last>"
abbrev bounds : ℕ → ℕ → Bytes
bounds first last = digits 20 first ++ (45 ∷ digits 20 last)

parse_bounds-bounds :
    (first last : ℕ)
    → first < 2 ^ 64
    → last < 2 ^ 64
    → parse_bounds (bounds first last) ≡ some (first, last)
unfolding parse_bounds both_bounds
parse_bounds-bounds first last f l =
    rw
      (
        split_at-digits (digits 20 first) (digits 20 last) (all_digits-digits 20 first),
        parse_bounds,
        parse_uint-digits first f,
        parse_uint-digits last l,
        both_bounds,
      )
      refl

part_name-bounds :
    (first last : ℕ) (ext : Bytes)
    → part_name first last ext ≡ part_prefix ++ (bounds first last ++ ext)
unfolding part_name
part_name-bounds first last ext =
    ap (λ l. part_prefix ++ l) (sym (append_assoc (digits 20 first) (45 ∷ digits 20 last) ext))

parse_part_name-part_name :
    (first last : ℕ) (ext : Bytes)
    → first < 2 ^ 64
    → last < 2 ^ 64
    → parse_part_name (part_name first last ext) ext ≡ some (first, last)
unfolding parse_part_name
parse_part_name-part_name first last ext f l =
    let mid = bounds first last in
    rw
      (
        part_name-bounds first last ext,
        has_prefix-append part_prefix (mid ++ ext),
        sym (append_assoc part_prefix mid ext),
        has_suffix-append (part_prefix ++ mid) ext,
        append_assoc part_prefix mid ext,
        drop-append 5 part_prefix (mid ++ ext) refl,
        has_suffix-append mid ext,
        take-append (length (mid ++ ext) - length ext) mid ext
            (omega (arith, length-append mid ext)),
      )
      (parse_bounds-bounds first last f l)

before_last_dot-append :
    (xs zs front : Bytes)
    → before_last_dot zs ≡ some front
    → before_last_dot (xs ++ zs) ≡ some (xs ++ front)
unfolding before_last_dot
before_last_dot-append [] zs front h = h
before_last_dot-append (b ∷ xs) zs front h = rw (before_last_dot-append xs zs front h) refl

without_ext-append :
    (xs ext : Bytes) → before_last_dot ext ≡ none → without_ext (xs ++ 46 ∷ ext) ≡ xs
unfolding without_ext before_last_dot
without_ext-append xs ext h =
    rw (before_last_dot-append xs (46 ∷ ext) [] (rw (h, before_last_dot) refl), without_ext)
      (append-nil xs)

parse_visible_name-part_name :
    (first last : ℕ) (ext : Bytes)
    → first < 2 ^ 64
    → last < 2 ^ 64
    → before_last_dot ext ≡ none
    → parse_visible_name (part_name first last (46 ∷ ext)) ≡ some (first, last)
unfolding parse_visible_name
parse_visible_name-part_name first last ext f l h =
    let mid = bounds first last in
    rw
      (
        part_name-bounds first last (46 ∷ ext),
        has_prefix-append part_prefix (mid ++ 46 ∷ ext),
        sym (append_assoc part_prefix mid (46 ∷ ext)),
        without_ext-append (part_prefix ++ mid) ext h,
        has_prefix-append part_prefix mid,
        drop-append 5 part_prefix mid refl,
      )
      (parse_bounds-bounds first last f l)

-- From the names of a file and of its directory, for 64-bit numbers and an extension with no '.'
-- but its first character, the sink reads back the first and the last sequence and the bucket, and
-- the query engine, which does not know the extension, the same two sequences.
pub parse_part_name_lem :
    (bucket first last : ℕ) (ext : Bytes)
    → bucket < 2 ^ 64
    → first < 2 ^ 64
    → last < 2 ^ 64
    → before_last_dot ext ≡ none
    → (parse_part_name (part_name first last (46 ∷ ext)) (46 ∷ ext) ≡ some (first, last))
      × (parse_visible_name (part_name first last (46 ∷ ext)) ≡ some (first, last))
      × (parse_bucket_dir (bucket_dir bucket) ≡ (bucket, true))
unfolding parse_bucket_dir bucket_dir bucket_number
parse_part_name_lem bucket first last ext b f l h = (
  parse_part_name-part_name first last (46 ∷ ext) f l,
  parse_visible_name-part_name first last ext f l h,
  rw
      (
        has_prefix-append bucket_prefix (digits 20 bucket),
        drop-append 11 bucket_prefix (digits 20 bucket) refl,
      )
      (rw (parse_uint-digits bucket b, bucket_number) refl),
)
