-- ===== src/Cmd/Stream/Config/Precedence.antt =====
-- Where a configuration of the demo has its values from.
use objwal.Prelude.{◌≡◌, List, Option, none, some, All}
use objwal.Error.{Result, ok, Error}
use objwal.Std.LittleEndian.{Bytes}
use objwal.Cmd.Stream.Config.{StreamConfig}
use objwal.Cmd.Stream.Config.Flags.{Flag, NumberParsers, named_flag, argument_of, split_flag}

module _ {A : Type 0} (view : StreamConfig → A) (parsers : NumberParsers) (name : Bytes) where
  -- The flag leaves what is viewed.
  abbrev pub Leaves : Flag → Type 0
  Leaves f = (v : Bytes) (c d : StreamConfig) → f.assign v c ≡ ok d → view d ≡ view c

  -- No argument is the flag of that name.
  abbrev pub NotGiven : List Bytes → Type 0
  NotGiven args =
      All (λ a. (body : Bytes) → argument_of a ≡ named_flag body → ¬ ((split_flag body).0 ≡ name))
        args

  abbrev Keeping : (StreamConfig → Result StreamConfig) → Type 0
  Keeping more = (c d : StreamConfig) → more c ≡ ok d → view d ≡ view c

  abbrev KeepingNext : Option (Bytes × (StreamConfig → Result StreamConfig)) → Type 0
  KeepingNext none = Unit
  KeepingNext (some (v, more)) = Keeping more
