-- ===== src/Server/Main.antt =====
-- main from the arguments to the exit code: the command line, the start, and the console, whose
-- commands print the statistics or shut the server down. The signals SIGHUP, SIGINT and SIGTERM run
-- the same shutdown_handler. It does not return, since it calls exit unless thpool_destroy waits for
-- ever, so the lines of main behind its loop are not reached.
pub mod Stopping
use s.Prelude.{ℕ, Bool, false, Option, none, some, List, [], ◌∷◌}
use s.Prelude.Int.{ℤ}
use s.Clib.{Text}
use s.Outcome.{Result, ok, ◌>>=◌}
use s.Server.Messages.{clean_string}
use s.Server.Sqlite.{Sqlite}
use s.Server.Options.{Parsed, run_with, exit_failure, defaults, parse_options}
use s.Server.Startup.{Sockets, Running, start_up}
use s.Server.Status.{Stats, print_stats}
use s.Server.Console.{
  Action, clear, help, stat, stop, unknown, action_of, console_help, buffer_of, Ending, shutdown,
}

-- What main waits for: fgets returns, at a time since the start and with a count of clients that a
-- `stat` would show; or a signal arrives.
pub data Input : Type 0 where
  types : Option Text → ℕ → ℤ → Input
  signals : Input

pub data Output : Type 0 where
  cleared : Output
  helped : List Text → Output
  reported : Stats → Output
  complained : Text → Output

-- `exit` is what shutdown_handler did and its exit code, none while main reads lines.
pub record Console : Type 0 where
  pub outputs : List Output
  pub exit : Option Ending

abbrev pub print : Output → Result Console → Result Console
print output rest = do c ← rest; ok (record c { outputs = output ∷ c.outputs })

-- What the console prints for a line, none for `stop`.
unfoldable pub output_of : ℕ → ℕ → ℤ → Action → Result (Option Output)
output_of num_threads elapsed count clear = ok (some cleared)
output_of num_threads elapsed count help = ok (some (helped console_help))
output_of num_threads elapsed count stat = do
  stats ← print_stats elapsed count num_threads
  ok (some (reported stats))
output_of num_threads elapsed count stop = ok none
output_of num_threads elapsed count (unknown command) = ok (some (complained command))

-- `stop` runs shutdown_handler, behind which no line is read.
unfoldable pub answer : Ending → Option Output → Result Console → Result Console
answer ending none rest = ok (record { outputs = []; exit = some ending })
answer ending (some output) rest = print output rest

unfoldable pub run_console : ℕ → Ending → List Input → Text → Result Console
run_console num_threads ending [] buffer = ok (record { outputs = []; exit = none })
run_console num_threads ending (signals ∷ inputs) buffer =
    ok (record { outputs = []; exit = some ending })
run_console num_threads ending (types line elapsed count ∷ inputs) buffer = do
  command ← clean_string (buffer_of line buffer)
  output ← output_of num_threads elapsed count (action_of command)
  answer ending output (run_console num_threads ending inputs command)

-- What the calls of the systems return to main: sqlite3_open, socket and bind, and at the end
-- sqlite3_close and closesocket, and whether thpool_destroy returns.
pub record Outside (q : Sqlite) : Type 0 where
  pub opened : Option q.Db
  pub sockets : Sockets
  pub close_status : ℕ
  pub closes : Bool
  pub joins : Bool

module _ (q : Sqlite) where
  unfoldable pub main_running : Option (Running q) → Outside q → List Input → Result Console
  unfolding run_console
  main_running none out inputs = ok (record { outputs = []; exit = some ([], some false) })
  main_running (some r) out inputs =
      run_console r.num_threads (shutdown out.close_status out.closes out.joins) inputs []

  unfoldable pub main_parsed : Parsed → Outside q → List Input → Result Console
  unfolding main_running
  main_parsed exit_failure out inputs = ok (record { outputs = []; exit = some ([], some false) })
  main_parsed (run_with o) out inputs =
      main_running (start_up q o out.opened out.sockets) out inputs

  unfoldable pub main : List Text → Outside q → List Input → Result Console
  unfolding main_parsed
  main arguments out inputs = do
    parsed ← parse_options arguments defaults
    main_parsed parsed out inputs
