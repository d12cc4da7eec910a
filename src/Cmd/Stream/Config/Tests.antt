-- ===== src/Cmd/Stream/Config/Tests.antt =====
-- A configuration from flags alone.
use objwal.Prelude.{List, [], ◌∷◌, none}
use objwal.Error.{Result, ok, err, not_found}
use objwal.Std.LittleEndian.{Bytes}
use objwal.Cmd.Stream.Config.{StreamConfig, JsonConfig, default_config, producer_name}
use objwal.Cmd.Stream.Config.Flags.{NumberParsers}

-- For a flag, and for those behind it.
infixr 4 ◌▸◌
abbrev ◌▸◌ : {A B : Type 0} → A → B → A × B
a ▸ b = (a, b)

abbrev no_file : Bytes → Result Bytes
no_file path = err not_found

abbrev no_json : Bytes → Result JsonConfig
no_json bytes = err not_found

abbrev no_numbers : NumberParsers
no_numbers = record { parse_int = λ s. none; parse_u64 = λ s. none; parse_duration = λ s. none }

-- "-mode", "producer", "-csv=x"
abbrev arguments : List Bytes
arguments =
    (45 ∷ 109 ∷ 111 ∷ 100 ∷ 101 ∷ []) ∷ producer_name ∷ (45 ∷ 99 ∷ 115 ∷ 118 ∷ 61 ∷ 120 ∷ []) ∷ []

abbrev resolved : StreamConfig
resolved = record default_config {
  mode = producer_name;
  csv = 120 ∷ [];
  cursor_path =
      95 ∷ 100 ∷ 101 ∷ 109 ∷ 111 ∷ 95 ∷ 100 ∷ 97 ∷ 116 ∷ 97 ∷ 47 ∷ 99 ∷ 117 ∷ 114 ∷ 115 ∷ 111 ∷ 114
      ∷ [];
}

endpoint_of : Result StreamConfig → Bytes
endpoint_of (ok c) = c.endpoint
endpoint_of (err e) = []

abbrev endpoint_name : Bytes
endpoint_name = 101 ∷ 110 ∷ 100 ∷ 112 ∷ 111 ∷ 105 ∷ 110 ∷ 116 ∷ []
