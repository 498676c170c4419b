-- ===== src/Server/Options/Limits.antt =====
-- The options that the command line can lead to, and what main starts with them.
use s.Prelude.{
  ℕ, ◌≤◌, ◌≡◌, Bool, true, false, Option, none, some, List, [], ◌∷◌, arith, ◌⊎◌, ◌%◌, ◌||◌, ◌==◌,
  if◌then◌else◌,
}
use s.Clib.{Text, atoi, decimal, int_max}
use s.Clib.Decimal.{atoi-decimal, decimal-IsNumber, atoi-le}
use s.Outcome.{Result, ok, err, Holds, Holds-if}
use s.Server.Messages.{validate_int}
use s.Server.Messages.Reading.{validate_int_iff}
use s.Server.Sqlite.{Sqlite, run, sqlite_done}
use s.Server.Options.{
  Options, defaults, Parsed, run_with, exit_failure, is_option, good_port, good_size, parse_options,
}
use s.Server.Startup.{Sockets, Running, bound_port, start_up, bind_and_listen}
use s.Server.Queries.{clear_query}

-- The port is a number from 0 to 10000; the queue and the threads are numbers from 1 to INT_MAX.
pub record InLimits (o : Options) : Type 0 where
  pub port_digits : validate_int o.port ≡ true
  pub port_small : atoi o.port ≤ 10000
  pub queue_positive : 1 ≤ o.queue_length
  pub queue_int : o.queue_length ≤ int_max
  pub threads_positive : 1 ≤ o.num_threads
  pub threads_int : o.num_threads ≤ int_max

abbrev pub Sound : Parsed → Type 0
Sound (run_with o) = InLimits o
Sound exit_failure = Unit

defaults-InLimits : InLimits defaults
defaults-InLimits =
    unfold defaults in
    record {
      port_digits = (validate_int_iff (decimal 7777)).1 (decimal-IsNumber 7777);
      port_small = omega (arith, atoi-decimal 7777 (omega arith));
      queue_positive = omega arith;
      queue_int = omega arith;
      threads_positive = omega arith;
      threads_int = omega arith;
    }

good_port_lem : (v : Text) → good_port v ≡ true → (validate_int v ≡ true) × (atoi v ≤ 10000)
good_port_lem v h = unfold good_port in ground arith

good_size_lem : (v : Text) → good_size v ≡ true → 1 ≤ atoi v
good_size_lem v h = unfold good_size in ground arith

with_port :
    (o : Options) (v : Text) → InLimits o → good_port v ≡ true → InLimits (record o { port = v })
with_port o v l h = record {
  port_digits = (good_port_lem v h).0;
  port_small = (good_port_lem v h).1;
  queue_positive = l.queue_positive;
  queue_int = l.queue_int;
  threads_positive = l.threads_positive;
  threads_int = l.threads_int;
}

with_queue :
    (o : Options) (v : Text)
    → InLimits o
    → good_size v ≡ true
    → InLimits (record o { queue_length = atoi v })
with_queue o v l h = record {
  port_digits = l.port_digits;
  port_small = l.port_small;
  queue_positive = good_size_lem v h;
  queue_int = atoi-le v;
  threads_positive = l.threads_positive;
  threads_int = l.threads_int;
}

with_threads :
    (o : Options) (v : Text)
    → InLimits o
    → good_size v ≡ true
    → InLimits (record o { num_threads = atoi v })
with_threads o v l h = record {
  port_digits = l.port_digits;
  port_small = l.port_small;
  queue_positive = l.queue_positive;
  queue_int = l.queue_int;
  threads_positive = good_size_lem v h;
  threads_int = atoi-le v;
}

last_argument : (a : Text) (o : Options) → InLimits o → Holds Sound (parse_options (a ∷ []) o)
unfolding parse_options
last_argument a o l =
    Holds-if Sound (is_option "-h" "--help" a) _ _ (λ e. tt)
      (λ e.
        Holds-if Sound (is_option "-p" "--port" a) _ _ (λ e. tt)
          (λ e.
            Holds-if Sound (is_option "-q" "--queue" a || is_option "-t" "--threads" a) _ _ (λ e. l)
              (λ e. tt)))

parse_options-Sound :
    (args : List Text) (o : Options) → InLimits o → Holds Sound (parse_options args o)
unfolding parse_options
parse_options-Sound [] o l = l
parse_options-Sound (a ∷ []) o l = last_argument a o l
parse_options-Sound (a ∷ v ∷ rest) o l =
    let again = parse_options-Sound (v ∷ rest) o l in
    let port = λ (h : good_port v ≡ true).
      parse_options-Sound rest (record o { port = v }) (with_port o v l h) in
    let queue = λ (h : good_size v ≡ true).
      parse_options-Sound rest (record o { queue_length = atoi v }) (with_queue o v l h) in
    let threads = λ (h : good_size v ≡ true).
      parse_options-Sound rest (record o { num_threads = atoi v }) (with_threads o v l h) in
    Holds-if Sound (is_option "-h" "--help" a) _ _ (λ e. tt)
      (λ e.
        Holds-if Sound (is_option "-p" "--port" a) _ _
          (λ e. Holds-if Sound (good_port v) _ _ port (λ e. tt))
          (λ e.
            Holds-if Sound (is_option "-q" "--queue" a) _ _
              (λ e. Holds-if Sound (good_size v) _ _ queue (λ e. again))
              (λ e.
                Holds-if Sound (is_option "-t" "--threads" a) _ _
                  (λ e. Holds-if Sound (good_size v) _ _ threads (λ e. again)) (λ e. tt))))

-- What main starts with the options that it reads.
abbrev pub started : (q : Sqlite) → Parsed → Option q.Db → Sockets → Option (Running q)
started q exit_failure opened sockets = none
started q (run_with o) opened sockets = start_up q o opened sockets

-- A port of at most 10000 that bind is asked for and the server is bound to, unless it is 0, a positive
-- queue, and at least one thread.
pub record RunsWithin (q : Sqlite) (r : Running q) : Type 0 where
  pub port_small : r.asked_port ≤ 10000
  pub bound : (r.asked_port ≡ 0) ⊎ (r.port_number ≡ r.asked_port)
  pub has_queue : 1 ≤ r.backlog
  pub has_threads : 1 ≤ r.num_threads

abbrev pub IfRuns : (q : Sqlite) → Option (Running q) → Type 0
IfRuns q none = Unit
IfRuns q (some r) = RunsWithin q r

IfRuns-if :
    (q : Sqlite) (b : Bool) (r s : Option (Running q))
    → IfRuns q r
    → IfRuns q s
    → IfRuns q (if b then r else s)
IfRuns-if q true r s h k = h
IfRuns-if q false r s h k = k

bound_port-asked : (assigned port : ℕ) → (port ≡ 0) ⊎ (bound_port assigned port ≡ port)
bound_port-asked assigned port = unfold bound_port in ground arith

bind_and_listen-IfRuns :
    (q : Sqlite) (o : Options) (sockets : Sockets) (db : q.Db)
    → InLimits o
    → IfRuns q (bind_and_listen q o sockets db)
bind_and_listen-IfRuns q o sockets db l =
    unfold bind_and_listen in
    IfRuns-if q sockets.makes _ none
      (IfRuns-if q sockets.binds _ none
        (record {
          port_small = omega (arith, l.port_small);
          bound = bound_port-asked sockets.assigned (atoi o.port % 65536);
          has_queue = l.queue_positive;
          has_threads = l.threads_positive;
        })
        tt)
      tt

start_up-IfRuns :
    (q : Sqlite) (o : Options) (opened : Option q.Db) (sockets : Sockets)
    → InLimits o
    → IfRuns q (start_up q o opened sockets)
start_up-IfRuns q o none sockets l = unfold start_up in tt
start_up-IfRuns q o (some db) sockets l =
    let after = run q db clear_query in
    unfold start_up in
    IfRuns-if q (after.2 == sqlite_done) (bind_and_listen q o sockets after.0) none
      (bind_and_listen-IfRuns q o sockets after.0 l) tt

-- Whatever the command line is: if its options are read and main gets through its start, the server
-- has asked bind for a port of at most 10000, to which it is bound unless it is 0 (where bind assigns
-- another), and listens with a queue of at least one and at least one thread.
pub started_within_limits :
    (q : Sqlite) (args : List Text) (opened : Option q.Db) (sockets : Sockets)
    → Holds (λ p. IfRuns q (started q p opened sockets)) (parse_options args defaults)
started_within_limits q args opened sockets =
    Holds-weaken (parse_options args defaults) (parse_options-Sound args defaults defaults-InLimits)
  where
    sound_start : (p : Parsed) → Sound p → IfRuns q (started q p opened sockets)
    sound_start (run_with o) l = start_up-IfRuns q o opened sockets l
    sound_start exit_failure l = tt

    Holds-weaken :
        (m : Result Parsed) → Holds Sound m → Holds (λ p. IfRuns q (started q p opened sockets)) m
    Holds-weaken (ok p) h = sound_start p h
    Holds-weaken (err e) h = tt
