-- ===== src/Cmd/Stream/Main.antt =====
-- `main` of cmd/stream/main.go: the code that the program exits with. The context that a signal ends
-- is in the two runs.
use objwal.Prelude.{ℕ, bytes_eq, if◌then◌else◌}
use objwal.Error.{Result, ok, err}
use objwal.Cmd.Stream.Config.{StreamConfig, producer_name, consumer_name}

unfoldable pub exit_code : Result (Unit {0}) → ℕ
exit_code (ok _) = 0
exit_code (err e) = 1

module _ {W : Type 0} (produce consume : StreamConfig → W → Result (Unit {0}) × W) where
  unfoldable pub after_run : Result (Unit {0}) × W → ℕ × W
  after_run (x, w) = (exit_code x, w)

  unfoldable pub run_mode : StreamConfig → W → ℕ × W
  run_mode c w =
      if bytes_eq c.mode producer_name
      then after_run (produce c w)
      else if bytes_eq c.mode consumer_name
      then after_run (consume c w)
      else (0, w)

  unfoldable pub stream_main : Result StreamConfig → W → ℕ × W
  stream_main (err e) w = (2, w)
  stream_main (ok c) w = run_mode c w
