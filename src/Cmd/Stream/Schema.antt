-- ===== src/Cmd/Stream/Schema.antt =====
-- cmd/stream/schema.go: the row of the demo. The package encoding/json is a parameter.
use objwal.Prelude.{ℕ, ◌≡◌, refl}
use objwal.Error.{Result, ok, ◌>>=◌}
use objwal.Std.LittleEndian.{Bytes}
use objwal.Wal.Replica.{Record}

pub record Review : Type 0 where
  pub seq : ℕ
  pub index : ℕ
  pub review_id : Bytes
  pub product_name : Bytes
  pub rating : ℕ
  pub review_text : Bytes

-- `json.Marshal` and `json.Unmarshal` of a `Review`. The sequence is not in the JSON, which a row
-- that is read back has as 0.
record ReviewJson : Type 0 where
  pub marshal : Review → Result Bytes
  pub unmarshal : Bytes → Result Review

unfoldable encode_review : ReviewJson → Review → Result Bytes
encode_review json r = json.marshal r

unfoldable decode_review : ReviewJson → Record → Result Review
decode_review json rec = json.unmarshal rec.contents >>= λ r. ok (record r { seq = rec.sequence })

-- With an encoder that reads back what it wrote, but for the sequence: a row that is encoded into a
-- record is decoded to that row under the record's sequence.
decode_review-encode_review :
    (json : ReviewJson) (r : Review) (rec : Record)
    → ((x : Review) (b : Bytes)
        → json.marshal x ≡ ok b
        → json.unmarshal b ≡ ok (record x { seq = 0 }))
    → encode_review json r ≡ ok rec.contents
    → decode_review json rec ≡ ok (record r { seq = rec.sequence })
unfolding encode_review decode_review
decode_review-encode_review json r rec reads h = rw (reads r rec.contents h) refl
