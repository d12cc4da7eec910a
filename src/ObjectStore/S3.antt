-- ===== src/ObjectStore/S3.antt =====
-- objectstore/s3.go: the store over an S3 client. The client is the world's, with its errors: what
-- `errors.As` finds in one of them is a field of the client. An absent pointer of the SDK is `none`.
pub mod Etags
pub mod Pages
pub mod Refine
mod Tests
use objwal.Prelude.{
  ℕ, zero, suc, ◌+◌, Bool, true, false, ◌&&◌, ◌||◌, List, [], ◌∷◌, ◌++◌, Option, none, some, length,
  bytes_eq, ◌==◌, if◌then◌else◌,
}
use objwal.Error.{
  Result, ok, err, Error, wrap, out_of_fuel, not_found, already_exists, precondition_failed,
  conflict, conditional_conflict,
}
use objwal.Std.LittleEndian.{Bytes}
use objwal.ObjectStore.{
  UpdateVersion, ObjectMeta, GetResult, PutMode, put_overwrite, put_create, put_update, PutOptions,
  Eff, ObjectStore,
}

-- `GetObjectOutput`; reading the body is an effect.
pub record GetOutput (W : Type 0) : Type 0 where
  pub body : Eff W Bytes
  pub etag : Option Bytes
  pub last_modified : Option ℕ
  pub version_id : Option Bytes

pub record PutInput : Type 0 where
  pub key : Bytes
  pub body : Bytes
  pub if_none_match : Option Bytes
  pub if_match : Option Bytes

-- One object of a page.
pub record Listed : Type 0 where
  pub key : Option Bytes
  pub size : Option ℕ
  pub etag : Option Bytes
  pub last_modified : Option ℕ

pub record Page : Type 0 where
  pub contents : List Listed
  pub is_truncated : Option Bool
  pub next_token : Option Bytes

-- The calls that the adapter makes, for its bucket, and the tests on their errors: the status of an
-- `awshttp.ResponseError` and of a `smithyhttp.ResponseError`, the code of a `smithy.APIError`, and
-- the types `NoSuchKey` and `NotFound`.
pub record S3Client (W : Type 0) : Type 0 where
  pub get_object : Bytes → Eff W (GetOutput W)
  pub put_object : PutInput → Eff W (Unit {0})
  pub list_objects : Bytes → Option Bytes → Eff W Page
  pub delete_object : Bytes → Eff W (Unit {0})
  pub aws_status : Error → Option ℕ
  pub smithy_status : Error → Option ℕ
  pub error_code : Error → Option Bytes
  pub no_such_key : Error → Bool
  pub not_found_type : Error → Bool

abbrev no_such_key_code : Bytes
no_such_key_code = 78 ∷ 111 ∷ 83 ∷ 117 ∷ 99 ∷ 104 ∷ 75 ∷ 101 ∷ 121 ∷ []

abbrev not_found_code : Bytes
not_found_code = 78 ∷ 111 ∷ 116 ∷ 70 ∷ 111 ∷ 117 ∷ 110 ∷ 100 ∷ []

abbrev no_such_bucket_code : Bytes
no_such_bucket_code = 78 ∷ 111 ∷ 83 ∷ 117 ∷ 99 ∷ 104 ∷ 66 ∷ 117 ∷ 99 ∷ 107 ∷ 101 ∷ 116 ∷ []

-- "PreconditionFailed"
abbrev pub precondition_failed_code : Bytes
precondition_failed_code =
    80 ∷ 114 ∷ 101 ∷ 99 ∷ 111 ∷ 110 ∷ 100 ∷ 105 ∷ 116 ∷ 105 ∷ 111 ∷ 110 ∷ 70 ∷ 97 ∷ 105 ∷ 108 ∷ 101
    ∷ 100 ∷ []

-- "ConditionalRequestConflict"
abbrev request_conflict_code : Bytes
request_conflict_code =
    67 ∷ 111 ∷ 110 ∷ 100 ∷ 105 ∷ 116 ∷ 105 ∷ 111 ∷ 110 ∷ 97 ∷ 108 ∷ 82 ∷ 101 ∷ 113 ∷ 117 ∷ 101 ∷ 115
    ∷ 116 ∷ 67 ∷ 111 ∷ 110 ∷ 102 ∷ 108 ∷ 105 ∷ 99 ∷ 116 ∷ []

-- `strings.Trim` of '"', in front and at the end.
unfoldable pub trim_front : Bytes → Bytes
trim_front [] = []
trim_front (b ∷ bs) = let rest = trim_front bs in if b == 34 then rest else b ∷ bs

unfoldable pub trim_back : Bytes → Bytes
trim_back [] = []
trim_back (b ∷ bs) = elim (trim_back bs) [
  | [] ↦ if b == 34 then [] else b ∷ []
  | c ∷ cs ↦ b ∷ c ∷ cs
]

unfoldable pub trim_quotes : Bytes → Bytes
trim_quotes s = trim_back (trim_front s)

-- An ETag that does not begin with '"' is quoted.
unfoldable pub quoted : Bytes → Bytes
quoted [] = []
quoted (b ∷ bs) = if b == 34 then b ∷ bs else 34 ∷ b ∷ (bs ++ (34 ∷ []))

abbrev or_else : {A : Type 0} → A → Option A → A
or_else a none = a
or_else a (some b) = b

unfoldable pub etag_in : Option Bytes → Bytes
etag_in none = []
etag_in (some e) = trim_quotes e

unfoldable pub meta_listed : Listed → ObjectMeta
meta_listed o = record {
  location = or_else [] o.key;
  last_modified = or_else 0 o.last_modified;
  size = or_else 0 o.size;
  etag = etag_in o.etag;
  version = [];
}

unfoldable pub metas_listed : List Listed → List ObjectMeta
metas_listed [] = []
metas_listed (o ∷ os) = meta_listed o ∷ metas_listed os

-- The preconditions of `PutOpts`; "*" is any object.
unfoldable pub put_input : Bytes → Bytes → PutOptions → PutInput
put_input path bytes opts = record {
  key = path;
  body = bytes;
  if_none_match = elim opts.mode [
    | put_create ↦ some (42 ∷ [])
    | put_update ↦ none
    | put_overwrite ↦ none
  ];
  if_match = elim opts.mode [
    | put_create ↦ none
    | put_update ↦ some (quoted opts.version.etag)
    | put_overwrite ↦ none
  ];
}

-- What a precondition that does not hold means.
unfoldable pub refusal : PutMode → Error
refusal put_create = already_exists
refusal put_update = precondition_failed
refusal put_overwrite = precondition_failed

module _ {W : Type 0} (client : S3Client W) where
  unfoldable pub smithy_or_zero : Error → ℕ
  smithy_or_zero e = or_else 0 (client.smithy_status e)

  unfoldable pub http_status : Error → ℕ
  http_status e = elim (client.aws_status e) [
    | none ↦ smithy_or_zero e
    | some code ↦ if code == 0 then smithy_or_zero e else code
  ]

  unfoldable pub api_code : Error → Bytes
  api_code e = or_else [] (client.error_code e)

  unfoldable pub s3_is_not_found : Error → Bool
  s3_is_not_found e =
      let code = api_code e in
      if client.no_such_key e || client.not_found_type e
      then true
      else if bytes_eq code no_such_key_code || bytes_eq code not_found_code
      then true
      else if bytes_eq code no_such_bucket_code
      then false
      else http_status e == 404 && bytes_eq code []

  unfoldable pub s3_is_precondition_failed : Error → Bool
  s3_is_precondition_failed e =
      bytes_eq (api_code e) precondition_failed_code || http_status e == 412

  unfoldable pub s3_is_conflict : Error → Bool
  s3_is_conflict e = bytes_eq (api_code e) request_conflict_code || http_status e == 409

  unfoldable pub after_read : Bytes → GetOutput W → Result Bytes × W → Result GetResult × W
  after_read path out (err e, w) = (err e, w)
  after_read path out (ok bytes, w) = (
    ok (record {
      contents = bytes;
      meta = record {
        location = path;
        last_modified = or_else 0 out.last_modified;
        size = length bytes;
        etag = etag_in out.etag;
        version = or_else [] out.version_id;
      };
    }),
    w,
  )

  unfoldable pub after_get_object : Bytes → Result (GetOutput W) × W → Result GetResult × W
  after_get_object path (err e, w) = (err (if s3_is_not_found e then not_found else e), w)
  after_get_object path (ok out, w) = after_read path out (out.body w)

  unfoldable pub s3_get : Bytes → Eff W GetResult
  s3_get path w = after_get_object path (client.get_object path w)

  unfoldable pub s3_put : Bytes → Bytes → Eff W (Unit {0})
  s3_put path bytes w =
      client.put_object (record { key = path; body = bytes; if_none_match = none; if_match = none })
        w

  -- The error of a failed conditional put.
  unfoldable pub put_error : PutMode → Error → Error
  put_error mode e =
      if s3_is_conflict e
      then wrap conditional_conflict conflict
      else if s3_is_precondition_failed e
      then refusal mode
      else e

  unfoldable pub after_put_object : PutMode → Result (Unit {0}) × W → Result (Unit {0}) × W
  after_put_object mode (err e, w) = (err (put_error mode e), w)
  after_put_object mode (ok _, w) = (ok tt, w)

  unfoldable pub s3_put_opts : Bytes → Bytes → PutOptions → Eff W (Unit {0})
  s3_put_opts path bytes opts w =
      after_put_object opts.mode (client.put_object (put_input path bytes opts) w)

  unfoldable pub after_page :
      (Option Bytes → List ObjectMeta → Eff W (List ObjectMeta))
      → List ObjectMeta
      → Result Page × W
      → Result (List ObjectMeta) × W
  after_page more out (err e, w) = (err e, w)
  after_page more out (ok page, w) =
      let all = out ++ metas_listed page.contents in
      if or_else false page.is_truncated then more page.next_token all w else (ok all, w)

  -- The pages of `List`, a round for each.
  unfoldable pub s3_pages : ℕ → Bytes → Option Bytes → List ObjectMeta → Eff W (List ObjectMeta)
  s3_pages zero prefix token out w = (err out_of_fuel, w)
  s3_pages (suc fuel) prefix token out w =
      after_page (s3_pages fuel prefix) out (client.list_objects prefix token w)

  unfoldable pub s3_list : ℕ → Bytes → Eff W (List ObjectMeta)
  s3_list fuel prefix w = s3_pages fuel prefix none [] w

  unfoldable pub s3_delete : Bytes → Eff W (Unit {0})
  s3_delete path w = client.delete_object path w

  -- `S3` as an object store.
  unfoldable pub s3_store : ℕ → ObjectStore W
  s3_store fuel = record {
    get = s3_get;
    put = s3_put;
    put_opts = s3_put_opts;
    list = s3_list fuel;
    delete = s3_delete;
  }
