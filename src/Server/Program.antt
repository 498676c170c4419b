-- ===== src/Server/Program.antt =====
-- The whole server after its start: the console of main and the signals beside the listener and the
-- sessions, which share the count of clients with the statistics, up to the first shutdown_handler.
pub mod Statistics
use s.Prelude.{ℕ, Bool, Option, none, some, List, [], ◌∷◌, ◌++◌}
use s.Clib.{Text}
use s.Outcome.{Result, ok, err, ◌>>=◌}
use s.Server.Messages.{clean_string}
use s.Server.Sqlite.{Sqlite}
use s.Server.Startup.{Running}
use s.Server.Status.{print_stats}
use s.Server.Console.{Action, action_of, buffer_of, Ending}
use s.Server.Main.{Output, output_of}
use s.Server.Listen.{Params}
use s.Server.System.{System, Act, act, started_system}

-- What happens next: an act of the listener or a session; fgets returns to main, so many seconds
-- after the start; a signal.
pub data Moment : Type 0 where
  acts_on : Act → Moment
  enters : Option Text → ℕ → Moment
  interrupts : Moment

-- `command` is main's buffer, and `exit` what shutdown_handler did, none before it.
pub record Program (q : Sqlite) : Type 0 where
  pub system : System q
  pub command : Text
  pub outputs : List Output
  pub exit : Option Ending

module _ {q : Sqlite} where
  unfoldable pub shows : Output → Program q → Program q
  shows output p = record p { outputs = p.outputs ++ output ∷ [] }

  -- What main does for a line; `stat` reads the count that the system holds.
  abbrev pub replied : Ending → Program q → Option Output → Program q
  replied ending p none = record p { exit = some ending }
  replied ending p (some output) = shows output p

  unfoldable pub reply : ℕ → Ending → ℕ → Action → Program q → Result (Program q)
  reply num_threads ending elapsed a p = do
    output ← output_of num_threads elapsed p.system.listener.c_count a
    ok (replied ending p output)

  unfoldable pub moment : ℕ → ℕ → Ending → Moment → Program q → Result (Program q)
  unfolding reply
  moment num_threads fuel ending (acts_on a) p = do
    s ← act num_threads fuel a p.system
    ok (record p { system = s })
  moment num_threads fuel ending (enters line elapsed) p = do
    command ← clean_string (buffer_of line p.command)
    reply num_threads ending elapsed (action_of command) (record p { command = command })
  moment num_threads fuel ending interrupts p = ok (record p { exit = some ending })

  -- The run is over when shutdown_handler has begun.
  unfoldable pub moments : ℕ → ℕ → Ending → List Moment → Program q → Result (Program q)
  unfolding moment
  moments num_threads fuel ending [] p = ok p
  moments num_threads fuel ending (m ∷ rest) p = elim p.exit [
    | some done ↦ ok p
    | none ↦ do p' ← moment num_threads fuel ending m p; moments num_threads fuel ending rest p'
  ]

  unfoldable pub started_program : Params → Running q → Program q
  started_program params r = record {
    system = started_system params r;
    command = [];
    outputs = [];
    exit = none;
  }
