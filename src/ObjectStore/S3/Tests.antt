-- ===== src/ObjectStore/S3/Tests.antt =====
-- A client over objects in memory, and a listing of two pages.
use objwal.Prelude.{ℕ, Bool, true, false, [], ◌∷◌, Option, none, some}
use objwal.Error.{Result, ok, err, Error, foreign}
use objwal.Std.LittleEndian.{Bytes}
use objwal.ObjectStore.{PutOptions, put_update}
use objwal.ObjectStore.Memory.{MemObject, InMemory, find, stored}
use objwal.ObjectStore.S3.{GetOutput, PutInput, S3Client, Listed, Page, precondition_failed_code}
use objwal.ObjectStore.S3.Etags.{in_quotes}
use objwal.ObjectStore.S3.Refine.{preconditions}

abbrev listed_at : Bytes → Listed
listed_at key = record { key = some key; size = some 3; etag = none; last_modified = none }

abbrev page_at : Option Bytes → Page
page_at none = record {
  contents = listed_at (97 ∷ []) ∷ [];
  is_truncated = some true;
  next_token = some (116 ∷ []);
}
page_at (some _) = record {
  contents = listed_at (98 ∷ []) ∷ [];
  is_truncated = none;
  next_token = none;
}

abbrev code_412 : Error → Option Bytes
code_412 (foreign _) = some precondition_failed_code
code_412 _ = none

abbrev status_412 : Error → Option ℕ
status_412 (foreign n) = some n
status_412 _ = none

unfoldable put_in : Bool → PutInput → InMemory → Result (Unit {0}) × InMemory
put_in true input s = (ok tt, stored input.key input.body s)
put_in false input s = (err (foreign 412), s)

abbrev output_of : MemObject → GetOutput InMemory
output_of obj = record {
  body = λ v. (ok obj.contents, v);
  etag = some (in_quotes obj.etag);
  last_modified = some obj.last_modified;
  version_id = none;
}

unfoldable get_in : Option MemObject → InMemory → Result (GetOutput InMemory) × InMemory
get_in none s = (err (foreign 404), s)
get_in (some obj) s = (ok (output_of obj), s)

abbrev client : S3Client InMemory
client = record {
  get_object = λ path s. get_in (find path s.objects) s;
  put_object = λ input s. put_in (preconditions input (find input.key s.objects)) input s;
  list_objects = λ prefix token s. (ok (page_at token), s);
  delete_object = λ path s. (ok tt, s);
  aws_status = status_412;
  smithy_status = λ e. none;
  error_code = code_412;
  no_such_key = λ e. true;
  not_found_type = λ e. false;
}

abbrev empty : InMemory
empty = record { objects = []; etag_seq = 0; now = 0 }

-- The object "a", with the ETag "e".
abbrev one_object : InMemory
one_object = record {
  objects = (97 ∷ [], record { contents = 5 ∷ []; etag = 101 ∷ []; last_modified = 0 }) ∷ [];
  etag_seq = 1;
  now = 0;
}

abbrev update : PutOptions
update = record { mode = put_update; version = record { etag = 101 ∷ []; version = [] } }
