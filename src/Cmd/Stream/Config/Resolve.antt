-- ===== src/Cmd/Stream/Config/Resolve.antt =====
-- `loadConfig` of cmd/stream/config.go, and what a configuration is that it returns.
use objwal.Prelude.{
  ◌||◌, List, [], ◌∷◌, ◌++◌, Option, none, some, bytes_eq, length, ltb, ◌&&◌, if◌then◌else◌,
}
use objwal.Prelude.Slices.{take, drop}
use objwal.Error.{Result, ok, ◌>>=◌, ◌>>◌}
use objwal.Std.LittleEndian.{Bytes}
use objwal.Std.Paths.{path_join}
use objwal.Cmd.Stream.Config.{StreamConfig, JsonConfig, default_config, apply_json, validate}
use objwal.Cmd.Stream.Config.Flags.{NumberParsers, parse_flags}

-- "-config"
abbrev config_flag : Bytes
config_flag = 45 ∷ 99 ∷ 111 ∷ 110 ∷ 102 ∷ 105 ∷ 103 ∷ []

-- What follows the prefix, if there is something.
unfoldable pub behind_prefix : Bytes → Bytes → Option Bytes
behind_prefix p a =
    if ltb (length p) (length a) && bytes_eq (take (length p) a) p
    then some (drop (length p) a)
    else none

unfoldable pub first_of : List Bytes → Bytes
first_of [] = []
first_of (a ∷ args) = a

unfoldable pub scan_config_flag : List Bytes → Bytes
scan_config_flag [] = []
scan_config_flag (a ∷ args) =
    if bytes_eq a config_flag || bytes_eq a (45 ∷ config_flag)
    then first_of args
    else elim (behind_prefix (config_flag ++ (61 ∷ [])) a) [
      | some path ↦ path
      | none ↦ elim (behind_prefix ((45 ∷ config_flag) ++ (61 ∷ [])) a) [
        | some path ↦ path
        | none ↦ scan_config_flag args
      ]
    ]

-- "cursor"
abbrev cursor_name : Bytes
cursor_name = 99 ∷ 117 ∷ 114 ∷ 115 ∷ 111 ∷ 114 ∷ []

unfoldable pub cursor_or_default : Bytes → Bytes → Bytes
cursor_or_default out_dir [] = path_join out_dir cursor_name
cursor_or_default out_dir (b ∷ bs) = b ∷ bs

unfoldable pub with_cursor_path : StreamConfig → StreamConfig
with_cursor_path c = record c { cursor_path = cursor_or_default c.out_dir c.cursor_path }

unfoldable pub checked_config : StreamConfig → Result StreamConfig
checked_config c = validate c >> ok c

module _ (read_file : Bytes → Result Bytes) (unmarshal : Bytes → Result JsonConfig)
    (parsers : NumberParsers) where
  unfoldable pub seeded : Bytes → Result StreamConfig
  seeded [] = ok default_config
  seeded (b ∷ bs) = apply_json read_file unmarshal default_config (b ∷ bs)

  unfoldable pub load_config : List Bytes → Result StreamConfig
  load_config args = seeded (scan_config_flag args) >>= λ c.
      parse_flags parsers args c >>= λ d. checked_config (with_cursor_path d)
