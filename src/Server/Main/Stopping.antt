-- ===== src/Server/Main/Stopping.antt =====
-- How the console of a running server is left.
use s.Prelude.{ℕ, ◌≡◌, ◌<◌, true, false, Option, none, some, List, length, arith}
use s.Prelude.Int.{pos}
use s.Clib.{Text, codes, text_eq}
use s.Outcome.{Result, ok}
use s.Server.Messages.{kept_bytes, clean_string}
use s.Server.Messages.Reading.{length-kept_bytes}
use s.Server.Sqlite.{Sqlite}
use s.Server.Options.{Options}
use s.Server.Console.{Ending}
use s.Server.Main.{Input, types, signals, Output, Console}

-- A line that fgets reads into 512 bytes and that is not `stop`, at a time and with a count of
-- clients that the texts of `stat` have room for.
abbrev pub GoesOn : Input → Type 0
GoesOn (types (some line) elapsed (pos count)) =
    (length line < 512)
    × (text_eq (kept_bytes line) (codes "stop") ≡ false)
    × (elapsed < 2147483648)
    × (count < 100)
GoesOn _ = ⊥

-- The end: a signal, or the line `stop`.
abbrev pub Stops : Input → Type 0
Stops signals = Unit
Stops (types (some line) elapsed count) =
    (length line < 512) × (text_eq (kept_bytes line) (codes "stop") ≡ true)
Stops _ = ⊥

-- The console has printed `n` answers and ended so, or, with none, goes on.
record Ends (n : ℕ) (ending : Option Ending) (m : Result Console) : Type 0 where
  printed : List Output
  one_for_each : length printed ≡ n
  result : m ≡ ok (record { outputs = printed; exit = ending })

pub short_clean : (line : Text) → length line < 512 → clean_string line ≡ ok (kept_bytes line)
unfolding clean_string
short_clean line h = ground (arith, length-kept_bytes line)

-- The input has ended: fgets leaves the buffer, at a time and with a count that `stat` has room for.
abbrev pub AtEnd : Input → Type 0
AtEnd (types none elapsed (pos count)) = (elapsed < 2147483648) × (count < 100)
AtEnd _ = ⊥
