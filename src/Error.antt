-- ===== src/Error.antt =====
-- Error values and fallible results: the sentinels of objectstore/objectstore.go, wal/*.go and
-- querystream/duckdbq, the errors that are only a message, and wrapping by `fmt.Errorf("…%w…")`.
use objwal.Prelude.{ℕ, Bool, true, false, ◌≡◌, refl, ◌⊎◌, inl, inr, if◌then◌else◌}

-- What a message-only error says, one constructor for each `fmt.Errorf` without `%w`.
pub data Reason : Type 0 where
  segment_too_small segment_too_small_v2 truncated_record_length truncated_record : Reason
  record_too_large record_count_too_large : Reason
  unsupported_segment_version unsupported_compression : ℕ → Reason
  truncated_body_length body_overruns location_overruns truncated_metadata_count : Reason
  truncated_metadata_header payload_overruns trailing_bytes : Reason
  payload_too_large location_too_long body_too_large : Reason
  footer_too_short footer_too_short_for_version snapshot_too_short snapshot_overruns : Reason
  unsupported_version : ℕ → Reason
  entry_count_too_large snapshot_location_too_long : Reason
  count_too_small count_too_large : Reason
  partial_group epoch_violated contended no_attempt cursor_size : Reason
  sink_no_dir sink_no_manifest segment_index_range : Reason
  watermark_syntax no_read_glob invalid_view invalid_seq_column : Reason
  no_query no_watermark : Reason
  csv_missing sql_missing mode_missing mode_invalid csv_empty log_empty : Reason
  flag_syntax flag_help flag_undefined flag_without_value flag_value : Reason

-- What a wrapping error adds.
pub data Context : Type 0 where
  claim_load claim_commit claim_exceeded commit_load commit_conflict commit_unknown : Context
  zstd_decode upload_failed replica_get replica_decode replica_apply persist_cursor : Context
  sink_create_dir sink_load_cursor sink_decode sink_write sink_save_cursor : Context
  cursor_load cursor_save_tmp cursor_save_rename : Context
  conditional_conflict stream_view stream_query query_view query_rows : Context
  config_read config_parse csv_open csv_read row_encode row_append durability_wait : Context
  producer_new sink_new engine_open reset_dir reset_cursor bucket_create bucket_ensure : Context
  bench_claim bench_wait bench_close bench_poll parquet_write parquet_close : Context

-- `foreign n` is an error of the environment (a transport error, a cancelled context, an error of
-- the caller's Applier). `panicked` and `out_of_fuel` are no Go values: the code has panicked, or a
-- loop of the model ran out of fuel.
pub data Error : Type 0 where
  not_found precondition_failed already_exists conflict injected : Error
  corrupt fenced halted no_records no_data watermark_conflict context_canceled : Error
  invalid : Reason → Error
  foreign : ℕ → Error
  wrap : Context → Error → Error
  panicked out_of_fuel : Error

-- Go's (value, error) pair.
pub data Result {ℓ} (A : Type ℓ) : Type ℓ where
  ok : A → Result A
  err : Error → Result A

-- `errors.Is(err, sentinel)` unwraps and compares.
unfoldable pub cause : Error → Error
cause (wrap c e) = cause e
cause e = e

unfoldable pub is_not_found : Error → Bool
unfolding cause
is_not_found e = elim (cause e) [ not_found ↦ true | _ ↦ false ]

unfoldable pub is_precondition_failed : Error → Bool
unfolding cause
is_precondition_failed e = elim (cause e) [ precondition_failed ↦ true | _ ↦ false ]

unfoldable pub is_already_exists : Error → Bool
unfolding cause
is_already_exists e = elim (cause e) [ already_exists ↦ true | _ ↦ false ]

unfoldable pub is_conflict : Error → Bool
unfolding cause
is_conflict e = elim (cause e) [ conflict ↦ true | _ ↦ false ]

-- `errors.Is(err, context.Canceled)`
unfoldable pub is_canceled : Error → Bool
unfolding cause
is_canceled e = elim (cause e) [ context_canceled ↦ true | _ ↦ false ]

-- `if !b { return sentinel }`
abbrev pub ensure : Bool → Error → Result (Unit {0})
ensure true e = ok tt
ensure false e = err e

-- `if !b { return err }`
abbrev pub guard : Bool → Reason → Result (Unit {0})
guard true why = ok tt
guard false why = err (invalid why)

-- `x, err := r; if err != nil { return err }`, and on with `x`.
infixl 5 ◌>>=◌
abbrev pub ◌>>=◌ {κ ℓ} : {B : Type κ} {A : Type ℓ} → Result B → (B → Result A) → Result A
ok value >>= next = next value
err failure >>= next = err failure

-- The same without an `x`.
infixl 5 ◌>>◌
abbrev pub ◌>>◌ {κ} : {A : Type κ} → Result (Unit {0}) → Result A → Result A
check >> next = check >>= λ _. next

pub ensure-bind {ℓ} :
    {A : Type ℓ} (b : Bool) (e : Error) (m : Result A)
    → (ensure b e >> m) ≡ (if b then m else err e)
ensure-bind true e m = refl
ensure-bind false e m = refl

-- `if err != nil { return fmt.Errorf("…%w", err) }`
abbrev pub wrapped {ℓ} : {A : Type ℓ} → Context → Result A → Result A
wrapped c (ok a) = ok a
wrapped c (err e) = err (wrap c e)

pub Result-cases {ℓ} :
    {A : Type ℓ} (r : Result A) → ((a : A) × (r ≡ ok a)) ⊎ ((e : Error) × (r ≡ err e))
Result-cases (ok a) = inl (a, refl)
Result-cases (err e) = inr (e, refl)

-- A chain that ends well has begun well, and what follows has ended well.
pub >>=-eq-ok {κ ℓ} :
    {B : Type κ} {C : Type ℓ} (r : Result B) (next : B → Result C) {end : C}
    → (r >>= next) ≡ ok end
    → (value : B) × (r ≡ ok value) × (next value ≡ ok end)
>>=-eq-ok (ok value) next ends = (value, refl, ends)
>>=-eq-ok (err failure) next ends = cc

pub guard-ok : (b : Bool) (r : Reason) {u : Unit {0}} → guard b r ≡ ok u → b ≡ true
guard-ok true r h = refl
guard-ok false r h = cc
