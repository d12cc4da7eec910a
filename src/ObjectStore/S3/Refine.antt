-- ===== src/ObjectStore/S3/Refine.antt =====
-- Over a client that treats preconditions as S3 documents it, the adapter does what the
-- store in memory does.
use objwal.Prelude.{◌≡◌, Bool, true, false, ◌&&◌, [], Option, none, some, bytes_eq}
use objwal.Error.{Result, ok, err, Error}
use objwal.Std.LittleEndian.{Bytes}
use objwal.ObjectStore.Memory.{MemObject, InMemory, find, stored}
use objwal.ObjectStore.S3.{GetOutput, PutInput, S3Client, precondition_failed_code}
use objwal.ObjectStore.S3.Etags.{no_quote, in_quotes}

-- `If-None-Match`, which is sent with "*", and `If-Match`.
unfoldable pub none_match : Option Bytes → Option MemObject → Bool
none_match none existing = true
none_match (some _) none = true
none_match (some _) (some obj) = false

unfoldable pub match : Option Bytes → Option MemObject → Bool
match none existing = true
match (some etag) none = false
match (some etag) (some obj) = bytes_eq (in_quotes obj.etag) etag

unfoldable pub preconditions : PutInput → Option MemObject → Bool
preconditions input existing =
    none_match input.if_none_match existing && match input.if_match existing

-- The world's bucket holds the objects `abs`. A put whose preconditions do not hold fails with the
-- status 412 and the code PreconditionFailed, and changes nothing; any other stores the object. A get
-- of a missing object fails with `NoSuchKey`, and any other reads the object, with its ETag in quotes.
pub record Documented {W : Type 0} (client : S3Client W) (abs : W → InMemory) : Type 0 where
  pub put_refused :
      (input : PutInput) (w : W)
      → preconditions input (find input.key (abs w).objects) ≡ false
      → (e : Error) × (w' : W) × (client.put_object input w ≡ (err e, w'))
        × (client.error_code e ≡ some precondition_failed_code)
        × (client.aws_status e ≡ some 412)
        × (abs w' ≡ abs w)
  pub put_accepted :
      (input : PutInput) (w : W)
      → preconditions input (find input.key (abs w).objects) ≡ true
      → (w' : W) × (client.put_object input w ≡ (ok tt, w'))
        × (abs w' ≡ stored input.key input.body (abs w))
  pub get_absent :
      (key : Bytes) (w : W)
      → find key (abs w).objects ≡ none
      → (e : Error) × (w' : W) × (client.get_object key w ≡ (err e, w'))
        × (client.no_such_key e ≡ true)
        × (abs w' ≡ abs w)
  pub get_present :
      (key : Bytes) (obj : MemObject) (w : W)
      → find key (abs w).objects ≡ some obj
      → (out : GetOutput W) × (v : W) × (w' : W) × (client.get_object key w ≡ (ok out, v))
        × (out.body v ≡ (ok obj.contents, w'))
        × (out.etag ≡ some (in_quotes obj.etag))
        × (out.last_modified ≡ some obj.last_modified)
        × (out.version_id ≡ none)
        × (abs w' ≡ abs w)

-- An object's ETag is a word without '"'.
abbrev PlainEtag : Option MemObject → Type 0
PlainEtag none = Unit
PlainEtag (some obj) = (bytes_eq obj.etag [] ≡ false) × (no_quote obj.etag ≡ true)

unfoldable is_ok : Result (Unit {0}) → Bool
is_ok (ok _) = true
is_ok (err e) = false

module _ {W : Type 0} (client : S3Client W) (abs : W → InMemory) where
  -- The answers agree, and so do the objects after them.
  abbrev pub Agree : {A : Type 0} → Result A × W → Result A × InMemory → Type 0
  Agree r m = (r.0 ≡ m.0) × (abs r.1 ≡ m.1)
