-- ===== src/Cmd/Stream/Config/Flags.antt =====
-- The flags of `loadConfig` in cmd/stream/config.go, and the package flag as it uses it: a set of
-- flags that goes on after an error only to return it.
use objwal.Prelude.{
  ℕ, Bool, true, false, ◌||◌, List, [], ◌∷◌, Option, none, some, bytes_eq, ◌==◌, if◌then◌else◌,
}
use objwal.Error.{
  Result, ok, err, invalid, flag_syntax, flag_help, flag_undefined, flag_without_value, flag_value,
  ◌>>=◌,
}
use objwal.Std.LittleEndian.{Bytes}
use objwal.Cmd.Stream.Config.{StreamConfig}

-- A value sets the variable that the flag stands for.
pub record Flag : Type 0 where
  pub flag_name : Bytes
  pub is_bool : Bool
  pub assign : Bytes → StreamConfig → Result StreamConfig

-- `strconv.ParseInt` and `ParseUint` with a base of 0, and `time.ParseDuration`.
pub record NumberParsers : Type 0 where
  pub parse_int : Bytes → Option ℕ
  pub parse_u64 : Bytes → Option ℕ
  pub parse_duration : Bytes → Option ℕ

unfoldable pub accepted : {A : Type 0} → Option A → Result A
accepted none = err (invalid flag_value)
accepted (some v) = ok v

-- "1", "t", "T", "TRUE", "true", "True"
abbrev true_words : List Bytes
true_words =
    (49 ∷ [])
    ∷ (116 ∷ [])
    ∷ (84 ∷ [])
    ∷ (84 ∷ 82 ∷ 85 ∷ 69 ∷ [])
    ∷ (116 ∷ 114 ∷ 117 ∷ 101 ∷ [])
    ∷ (84 ∷ 114 ∷ 117 ∷ 101 ∷ [])
    ∷ []

-- "0", "f", "F", "FALSE", "false", "False"
abbrev false_words : List Bytes
false_words =
    (48 ∷ [])
    ∷ (102 ∷ [])
    ∷ (70 ∷ [])
    ∷ (70 ∷ 65 ∷ 76 ∷ 83 ∷ 69 ∷ [])
    ∷ (102 ∷ 97 ∷ 108 ∷ 115 ∷ 101 ∷ [])
    ∷ (70 ∷ 97 ∷ 108 ∷ 115 ∷ 101 ∷ [])
    ∷ []

unfoldable pub among : Bytes → List Bytes → Bool
among s [] = false
among s (w ∷ ws) = bytes_eq s w || among s ws

-- `strconv.ParseBool`
unfoldable pub parse_bool : Bytes → Option Bool
parse_bool s =
    if among s true_words then some true else if among s false_words then some false else none

unfoldable pub named : Bytes → List Flag → Option Flag
named name [] = none
named name (f ∷ fs) = let rest = named name fs in if bytes_eq f.flag_name name then some f else rest

-- The name and, behind the first '=' that does not begin it, the value.
unfoldable pub split_at_equals : Bytes → Bytes × Option Bytes
split_at_equals [] = ([], none)
split_at_equals (b ∷ bs) =
    let (name, value) = split_at_equals bs in if b == 61 then ([], some bs) else (b ∷ name, value)

unfoldable pub split_flag : Bytes → Bytes × Option Bytes
split_flag [] = ([], none)
split_flag (b ∷ bs) = let (name, value) = split_at_equals bs in (b ∷ name, value)

-- "help" and "h" are no errors of their own.
unfoldable pub undefined_flag : {A : Type 0} → Bytes → Result A
undefined_flag name =
    if among name ((104 ∷ 101 ∷ 108 ∷ 112 ∷ []) ∷ (104 ∷ []) ∷ [])
    then err (invalid flag_help)
    else err (invalid flag_undefined)

-- What an argument is to `parseOne`.
pub data Argument : Type 0 where
  not_a_flag : Argument
  terminator : Argument
  bad_flag : Argument
  named_flag : Bytes → Argument

unfoldable pub flag_body : Bytes → Argument
flag_body [] = bad_flag
flag_body (b ∷ bs) = if (b == 45) || (b == 61) then bad_flag else named_flag (b ∷ bs)

unfoldable pub after_dash : Bytes → Argument
after_dash [] = not_a_flag
after_dash (b ∷ []) = if b == 45 then terminator else flag_body (b ∷ [])
after_dash (b ∷ c ∷ cs) = if b == 45 then flag_body (c ∷ cs) else flag_body (b ∷ c ∷ cs)

unfoldable pub argument_of : Bytes → Argument
argument_of [] = not_a_flag
argument_of (b ∷ bs) = if b == 45 then after_dash bs else not_a_flag

-- "true"
abbrev true_word : Bytes
true_word = 116 ∷ 114 ∷ 117 ∷ 101 ∷ []

module _ (parsers : NumberParsers) where
  unfoldable pub stream_flags : List Flag
  stream_flags =
      -- "mode"
      (record {
        flag_name = 109 ∷ 111 ∷ 100 ∷ 101 ∷ [];
        is_bool = false;
        assign = λ v c. ok (record c { mode = v });
      })
      -- "config"
      ∷ (record {
        flag_name = 99 ∷ 111 ∷ 110 ∷ 102 ∷ 105 ∷ 103 ∷ [];
        is_bool = false;
        assign = λ v c. ok c;
      })
      -- "endpoint"
      ∷ (record {
        flag_name = 101 ∷ 110 ∷ 100 ∷ 112 ∷ 111 ∷ 105 ∷ 110 ∷ 116 ∷ [];
        is_bool = false;
        assign = λ v c. ok (record c { endpoint = v });
      })
      -- "access-key"
      ∷ (record {
        flag_name = 97 ∷ 99 ∷ 99 ∷ 101 ∷ 115 ∷ 115 ∷ 45 ∷ 107 ∷ 101 ∷ 121 ∷ [];
        is_bool = false;
        assign = λ v c. ok (record c { access_key = v });
      })
      -- "secret-key"
      ∷ (record {
        flag_name = 115 ∷ 101 ∷ 99 ∷ 114 ∷ 101 ∷ 116 ∷ 45 ∷ 107 ∷ 101 ∷ 121 ∷ [];
        is_bool = false;
        assign = λ v c. ok (record c { secret_key = v });
      })
      -- "region"
      ∷ (record {
        flag_name = 114 ∷ 101 ∷ 103 ∷ 105 ∷ 111 ∷ 110 ∷ [];
        is_bool = false;
        assign = λ v c. ok (record c { region = v });
      })
      -- "bucket"
      ∷ (record {
        flag_name = 98 ∷ 117 ∷ 99 ∷ 107 ∷ 101 ∷ 116 ∷ [];
        is_bool = false;
        assign = λ v c. ok (record c { bucket = v });
      })
      -- "path-style"
      ∷ (record {
        flag_name = 112 ∷ 97 ∷ 116 ∷ 104 ∷ 45 ∷ 115 ∷ 116 ∷ 121 ∷ 108 ∷ 101 ∷ [];
        is_bool = true;
        assign = λ v c. accepted (parse_bool v) >>= λ x. ok (record c { path_style = x });
      })
      -- "create-bucket"
      ∷ (record {
        flag_name = 99 ∷ 114 ∷ 101 ∷ 97 ∷ 116 ∷ 101 ∷ 45 ∷ 98 ∷ 117 ∷ 99 ∷ 107 ∷ 101 ∷ 116 ∷ [];
        is_bool = true;
        assign = λ v c. accepted (parse_bool v) >>= λ x. ok (record c { create_bucket = x });
      })
      -- "manifest"
      ∷ (record {
        flag_name = 109 ∷ 97 ∷ 110 ∷ 105 ∷ 102 ∷ 101 ∷ 115 ∷ 116 ∷ [];
        is_bool = false;
        assign = λ v c. ok (record c { manifest_path = v });
      })
      -- "segment-prefix"
      ∷ (record {
        flag_name =
            115 ∷ 101 ∷ 103 ∷ 109 ∷ 101 ∷ 110 ∷ 116 ∷ 45 ∷ 112 ∷ 114 ∷ 101 ∷ 102 ∷ 105 ∷ 120 ∷ [];
        is_bool = false;
        assign = λ v c. ok (record c { segment_prefix = v });
      })
      -- "csv"
      ∷ (record {
        flag_name = 99 ∷ 115 ∷ 118 ∷ [];
        is_bool = false;
        assign = λ v c. ok (record c { csv = v });
      })
      -- "batch-size"
      ∷ (record {
        flag_name = 98 ∷ 97 ∷ 116 ∷ 99 ∷ 104 ∷ 45 ∷ 115 ∷ 105 ∷ 122 ∷ 101 ∷ [];
        is_bool = false;
        assign = λ v c. accepted (parsers.parse_int v) >>= λ x. ok (record c { batch_size = x });
      })
      -- "append-delay"
      ∷ (record {
        flag_name = 97 ∷ 112 ∷ 112 ∷ 101 ∷ 110 ∷ 100 ∷ 45 ∷ 100 ∷ 101 ∷ 108 ∷ 97 ∷ 121 ∷ [];
        is_bool = false;
        assign =
            λ v c. accepted (parsers.parse_duration v) >>= λ x. ok (record c { append_delay = x });
      })
      -- "loop"
      ∷ (record {
        flag_name = 108 ∷ 111 ∷ 111 ∷ 112 ∷ [];
        is_bool = true;
        assign = λ v c. accepted (parse_bool v) >>= λ x. ok (record c { loop = x });
      })
      -- "flush-interval"
      ∷ (record {
        flag_name =
            102 ∷ 108 ∷ 117 ∷ 115 ∷ 104 ∷ 45 ∷ 105 ∷ 110 ∷ 116 ∷ 101 ∷ 114 ∷ 118 ∷ 97 ∷ 108 ∷ [];
        is_bool = false;
        assign = λ v c.
            accepted (parsers.parse_duration v) >>= λ x. ok (record c { flush_interval = x });
      })
      -- "segment-max-bytes"
      ∷ (record {
        flag_name =
            115 ∷ 101 ∷ 103 ∷ 109 ∷ 101 ∷ 110 ∷ 116 ∷ 45 ∷ 109 ∷ 97 ∷ 120 ∷ 45 ∷ 98 ∷ 121 ∷ 116
            ∷ 101 ∷ 115 ∷ [];
        is_bool = false;
        assign =
            λ v c. accepted (parsers.parse_int v) >>= λ x. ok (record c { segment_max_bytes = x });
      })
      -- "sql"
      ∷ (record {
        flag_name = 115 ∷ 113 ∷ 108 ∷ [];
        is_bool = false;
        assign = λ v c. ok (record c { sql = v });
      })
      -- "incremental"
      ∷ (record {
        flag_name = 105 ∷ 110 ∷ 99 ∷ 114 ∷ 101 ∷ 109 ∷ 101 ∷ 110 ∷ 116 ∷ 97 ∷ 108 ∷ [];
        is_bool = true;
        assign = λ v c. accepted (parse_bool v) >>= λ x. ok (record c { incremental = x });
      })
      -- "start-seq"
      ∷ (record {
        flag_name = 115 ∷ 116 ∷ 97 ∷ 114 ∷ 116 ∷ 45 ∷ 115 ∷ 101 ∷ 113 ∷ [];
        is_bool = false;
        assign = λ v c. accepted (parsers.parse_u64 v) >>= λ x. ok (record c { start_seq = x });
      })
      -- "out-dir"
      ∷ (record {
        flag_name = 111 ∷ 117 ∷ 116 ∷ 45 ∷ 100 ∷ 105 ∷ 114 ∷ [];
        is_bool = false;
        assign = λ v c. ok (record c { out_dir = v });
      })
      -- "cursor"
      ∷ (record {
        flag_name = 99 ∷ 117 ∷ 114 ∷ 115 ∷ 111 ∷ 114 ∷ [];
        is_bool = false;
        assign = λ v c. ok (record c { cursor_path = v });
      })
      -- "bucket-size"
      ∷ (record {
        flag_name = 98 ∷ 117 ∷ 99 ∷ 107 ∷ 101 ∷ 116 ∷ 45 ∷ 115 ∷ 105 ∷ 122 ∷ 101 ∷ [];
        is_bool = false;
        assign = λ v c. accepted (parsers.parse_u64 v) >>= λ x. ok (record c { bucket_size = x });
      })
      -- "max-rows"
      ∷ (record {
        flag_name = 109 ∷ 97 ∷ 120 ∷ 45 ∷ 114 ∷ 111 ∷ 119 ∷ 115 ∷ [];
        is_bool = false;
        assign = λ v c. accepted (parsers.parse_int v) >>= λ x. ok (record c { max_rows = x });
      })
      -- "compression"
      ∷ (record {
        flag_name = 99 ∷ 111 ∷ 109 ∷ 112 ∷ 114 ∷ 101 ∷ 115 ∷ 115 ∷ 105 ∷ 111 ∷ 110 ∷ [];
        is_bool = false;
        assign = λ v c. ok (record c { compression = v });
      })
      -- "poll-interval"
      ∷ (record {
        flag_name = 112 ∷ 111 ∷ 108 ∷ 108 ∷ 45 ∷ 105 ∷ 110 ∷ 116 ∷ 101 ∷ 114 ∷ 118 ∷ 97 ∷ 108 ∷ [];
        is_bool = false;
        assign =
            λ v c. accepted (parsers.parse_duration v) >>= λ x. ok (record c { poll_interval = x });
      })
      -- "dedup"
      ∷ (record {
        flag_name = 100 ∷ 101 ∷ 100 ∷ 117 ∷ 112 ∷ [];
        is_bool = true;
        assign = λ v c. accepted (parse_bool v) >>= λ x. ok (record c { dedup = x });
      })
      -- "no-clear"
      ∷ (record {
        flag_name = 110 ∷ 111 ∷ 45 ∷ 99 ∷ 108 ∷ 101 ∷ 97 ∷ 114 ∷ [];
        is_bool = true;
        assign = λ v c. accepted (parse_bool v) >>= λ x. ok (record c { no_clear = x });
      })
      -- "reset"
      ∷ (record {
        flag_name = 114 ∷ 101 ∷ 115 ∷ 101 ∷ 116 ∷ [];
        is_bool = true;
        assign = λ v c. accepted (parse_bool v) >>= λ x. ok (record c { reset = x });
      })
      -- "follow"
      ∷ (record {
        flag_name = 102 ∷ 111 ∷ 108 ∷ 108 ∷ 111 ∷ 119 ∷ [];
        is_bool = true;
        assign = λ v c. accepted (parse_bool v) >>= λ x. ok (record c { follow = x });
      })
      -- "ingest-per-tick"
      ∷ (record {
        flag_name =
            105 ∷ 110 ∷ 103 ∷ 101 ∷ 115 ∷ 116 ∷ 45 ∷ 112 ∷ 101 ∷ 114 ∷ 45 ∷ 116 ∷ 105 ∷ 99 ∷ 107
            ∷ [];
        is_bool = false;
        assign =
            λ v c. accepted (parsers.parse_int v) >>= λ x. ok (record c { ingest_per_tick = x });
      })
      ∷ []

  -- A flag that is not boolean takes its value from the next argument, if none stands with it.
  unfoldable pub set_flag :
      Flag
      → Option Bytes
      → Option (Bytes × (StreamConfig → Result StreamConfig))
      → (StreamConfig → Result StreamConfig)
      → StreamConfig
      → Result StreamConfig
  set_flag f (some v) next more c = f.assign v c >>= more
  set_flag f none next more c = if f.is_bool then f.assign true_word c >>= more else elim next [
    | none ↦ err (invalid flag_without_value)
    | some (v, behind) ↦ f.assign v c >>= behind
  ]

  unfoldable pub set_found :
      Bytes
      → Option Flag
      → Option Bytes
      → Option (Bytes × (StreamConfig → Result StreamConfig))
      → (StreamConfig → Result StreamConfig)
      → StreamConfig
      → Result StreamConfig
  set_found name none value next more c = undefined_flag name
  set_found name (some f) value next more c = set_flag f value next more c

  unfoldable pub parse_named :
      Bytes × Option Bytes
      → Option (Bytes × (StreamConfig → Result StreamConfig))
      → (StreamConfig → Result StreamConfig)
      → StreamConfig
      → Result StreamConfig
  parse_named (name, value) next more c = set_found name (named name stream_flags) value next more c

  -- `parseOne`, over the next argument with the loop behind it, and the loop behind this one.
  unfoldable pub parse_argument :
      Argument
      → Option (Bytes × (StreamConfig → Result StreamConfig))
      → (StreamConfig → Result StreamConfig)
      → StreamConfig
      → Result StreamConfig
  parse_argument not_a_flag next more c = ok c
  parse_argument terminator next more c = ok c
  parse_argument bad_flag next more c = err (invalid flag_syntax)
  parse_argument (named_flag body) next more c = parse_named (split_flag body) next more c

  -- `Parse`: the loop over the arguments ends at one that is not a flag, or behind "--".
  unfoldable pub parse_flags : List Bytes → StreamConfig → Result StreamConfig
  parse_flags [] c = ok c
  parse_flags (a ∷ []) c = parse_argument (argument_of a) none (λ d. ok d) c
  parse_flags (a ∷ v ∷ args) c =
      parse_argument (argument_of a) (some (v, parse_flags args)) (parse_flags (v ∷ args)) c
