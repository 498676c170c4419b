-- ===== src/Server/Startup.antt =====
-- main behind the command line: the database is opened and emptied, the listening socket made, bound
-- and set to listen, and the pool started.
use s.Prelude.{ℕ, ◌%◌, Bool, Option, none, some, ◌==◌, if◌then◌else◌}
use s.Clib.{atoi}
use s.Server.Sqlite.{Sqlite, run, sqlite_done}
use s.Server.Queries.{clear_query}
use s.Server.Options.{Options}

-- Whether socket and bind succeed, and the free port that bind assigns when it is asked for port 0.
pub record Sockets : Type 0 where
  pub makes : Bool
  pub binds : Bool
  pub assigned : ℕ

-- A server that runs: its database, the port that bind was asked for, as a 16-bit number, the port
-- that it is bound to, the length of its queue and the number of its threads.
pub record Running (q : Sqlite) : Type 0 where
  pub db : q.Db
  pub asked_port : ℕ
  pub port_number : ℕ
  pub backlog : ℕ
  pub num_threads : ℕ

unfoldable pub bound_port : ℕ → ℕ → ℕ
bound_port assigned port = if port == 0 then assigned else port

-- `none` where main calls exit(-1). `opened` is what sqlite3_open gives, none for NULL. What listen
-- returns is not looked at.
module _ (q : Sqlite) where
  unfoldable pub bind_and_listen : Options → Sockets → q.Db → Option (Running q)
  bind_and_listen o sockets db =
      if sockets.makes
      then (if sockets.binds
          then some (record {
            db = db;
            asked_port = atoi o.port % 65536;
            port_number = bound_port sockets.assigned (atoi o.port % 65536);
            backlog = o.queue_length;
            num_threads = o.num_threads;
          })
          else none)
      else none

  unfoldable pub start_up : Options → Option q.Db → Sockets → Option (Running q)
  unfolding bind_and_listen
  start_up o none sockets = none
  start_up o (some db) sockets =
      let (db', stmt, status) = run q db clear_query in
      if status == sqlite_done then bind_and_listen o sockets db' else none
