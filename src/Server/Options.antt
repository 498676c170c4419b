-- ===== src/Server/Options.antt =====
-- P2PFileServer.cpp, main: the command line.
pub mod Limits
use s.Prelude.{String, ℕ, Bool, false, ◌||◌, List, [], ◌∷◌, leb, if◌then◌else◌}
use s.Clib.{Text, codes, text_eq, atoi, decimal}
use s.Outcome.{Result, ok, err, bad_format}
use s.Server.Messages.{validate_int}

-- DEFAULT_PORT, QUEUE_LENGTH, NUM_THREADS and MAX_PORT.
abbrev pub default_port : ℕ
default_port = 7777

abbrev pub default_queue_length : ℕ
default_queue_length = 32

abbrev pub default_num_threads : ℕ
default_num_threads = 64

abbrev pub max_port : ℕ
max_port = 10000

pub record Options : Type 0 where
  pub port : Text
  pub queue_length : ℕ
  pub num_threads : ℕ

unfoldable pub defaults : Options
defaults = record {
  port = decimal default_port;
  queue_length = default_queue_length;
  num_threads = default_num_threads;
}

-- The options are read, or exit(-1) ends the program.
pub data Parsed : Type 0 where
  run_with : Options → Parsed
  exit_failure : Parsed

unfoldable pub is_option : String → String → Text → Bool
is_option short long a = text_eq (codes short) a || text_eq (codes long) a

-- A port that is a number from 0 to MAX_PORT.
unfoldable pub good_port : Text → Bool
good_port v = if validate_int v then leb (atoi v) max_port else false

-- A positive number, as for the queue and the threads.
unfoldable pub good_size : Text → Bool
good_size v = if validate_int v then leb 1 (atoi v) else false

-- The loop over the arguments behind the program's name. The help and each complaint about a port
-- print the number DEFAULT_PORT by %s, a fault. A complaint about a size is printed and the loop
-- goes on with the value as the next argument.
unfoldable pub parse_options : List Text → Options → Result Parsed
parse_options [] o = ok (run_with o)
parse_options (a ∷ []) o =
    if is_option "-h" "--help" a
    then err bad_format
    else if is_option "-p" "--port" a
    then err bad_format
    else if is_option "-q" "--queue" a || is_option "-t" "--threads" a
    then ok (run_with o)
    else ok exit_failure
parse_options (a ∷ v ∷ rest) o =
    let with_port = parse_options rest (record o { port = v }) in
    let with_queue = parse_options rest (record o { queue_length = atoi v }) in
    let with_threads = parse_options rest (record o { num_threads = atoi v }) in
    let without_value = parse_options (v ∷ rest) o in
    if is_option "-h" "--help" a
    then err bad_format
    else if is_option "-p" "--port" a
    then (if good_port v then with_port else err bad_format)
    else if is_option "-q" "--queue" a
    then (if good_size v then with_queue else without_value)
    else if is_option "-t" "--threads" a
    then (if good_size v then with_threads else without_value)
    else ok exit_failure
