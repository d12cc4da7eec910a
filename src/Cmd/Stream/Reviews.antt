-- ===== src/Cmd/Stream/Reviews.antt =====
-- `readReviews` of cmd/stream/producer.go. The package encoding/csv is the world's: what its reader
-- returns up to the end of the file is a list.
use objwal.Prelude.{
  ℕ, Bool, true, false, ◌||◌, List, [], ◌∷◌, Option, none, some, ◌==◌, if◌then◌else◌,
}
use objwal.Error.{Result, ok, err, wrap, wrapped, csv_open, csv_read, ◌>>=◌}
use objwal.Std.LittleEndian.{Bytes}
use objwal.Std.ParseInt.{parse_int64}
use objwal.Cmd.Stream.Schema.{Review}

unfoldable pub is_blank : ℕ → Bool
is_blank c = (c == 32) || (c == 9)

unfoldable pub trim_front : Bytes → Bytes
trim_front [] = []
trim_front (b ∷ bs) = let rest = trim_front bs in if is_blank b then rest else b ∷ bs

unfoldable pub trim_back : Bytes → Bytes
trim_back [] = []
trim_back (b ∷ bs) = elim (trim_back bs) [
  | [] ↦ if is_blank b then [] else b ∷ []
  | c ∷ cs ↦ b ∷ c ∷ cs
]

-- Spaces and tabs only.
unfoldable trim : Bytes → Bytes
trim s = trim_back (trim_front s)

-- A record of fewer than five fields is left out.
unfoldable review_of : List Bytes → Option Review
review_of (index ∷ review_id ∷ product_name ∷ rating ∷ review_text ∷ rest) = some (record {
  seq = 0;
  index = parse_int64 (trim index);
  review_id = trim review_id;
  product_name = trim product_name;
  rating = parse_int64 (trim rating);
  review_text = trim review_text;
})
review_of _ = none

unfoldable with_review : Option Review → List Review → List Review
with_review none rows = rows
with_review (some r) rows = r ∷ rows

-- The loop, behind the header if `first` is false.
unfoldable read_rows : Bool → List (Result (List Bytes)) → Result (List Review)
read_rows first [] = ok []
read_rows first (err e ∷ reads) = err (wrap csv_read e)
read_rows true (ok header ∷ reads) = read_rows false reads
read_rows false (ok fields ∷ reads) =
    read_rows false reads >>= λ rows. ok (with_review (review_of fields) rows)

-- `open_csv` is `os.Open` with the reads of the reader over it.
unfoldable read_reviews :
    (Bytes → Result (List (Result (List Bytes)))) → Bytes → Result (List Review)
read_reviews open_csv path = wrapped csv_open (open_csv path) >>= read_rows true
