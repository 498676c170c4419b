-- ===== src/Tests/Systems.antt =====
-- The theorems about the running server, from main's start to its end.
use s.Server.System.Starvation.{IsSilent, waits, Reach-Starved}
use s.Prelude.{◌≤◌, ◌≡◌, refl, true, false, some, List, [], ◌∷◌, length, All, arith}
use s.Prelude.Int.{pos, ◌+ℤ◌}
use s.Clib.{
  codes, text_eq, token, strtok, token_of, after_token, skip_spaces, atoi, starts_with, isdigit,
  c_string, decimal,
}
use s.Net.{arrived, with_nul}
use s.Outcome.{Holds, sprintf, ok}
use s.Server.Messages.{read_line, recv_msg, kept_bytes, is_kept, clean_string, validate_int}
use s.Server.Sqlite.{sqlite_ok}
use s.Server.Queries.{insert_query, leave_query}
use s.Server.Commands.{command_of, parse_add}
use s.Server.Replies.{accept_line, ok_line, unknown_line, overload_line}
use s.Server.Session.{
  send_msg, client_count, greet, handle, handle_add, add_file, add_answer, buffer_after, leave,
  leave_answer,
}
use s.Server.Session.Table.{Row, without_peer}
use s.Server.Session.Stages.{serving, greeting_stage, serving_stage, read_step}
use s.Server.Options.{defaults, parse_options, run_with}
use s.Server.Startup.{Sockets, Running, bound_port, start_up, bind_and_listen}
use s.Server.Listen.{Params, admit, happens, listen_once, start_job, nearly_full, hundredths}
use s.Server.System.{
  System, Act, connects, begins, receives, departs, act, acts, begin, receive, depart, depart_from,
  departed, started_system, Reach, start, acts-Reach,
}
use s.Server.System.Counting.{Balanced, Reach-Balanced}
use s.Server.System.Ownership.{PlainAct, Owned}
use s.Server.System.Lifetime.{started-Owned, started_rests}
use s.Server.Index.Projection.{effects, own, started-own}
use s.Server.Index.{publish, count, index_of, apply_asked}
use s.Server.Index.History.{apply_all, requests, started-requests}
use s.Server.Index.Asking.{granted}
use s.Server.Index.Refinement.{asked_by, act-apply}
use s.Server.Main.{Outside}
use s.Tests.Memory.{memory, memory_table, step, upto, past, inserted_row, deleted}

abbrev pub client : Params
client = record { fd = 5; ipaddr = codes "10.0.0.7" }

abbrev pub nobody : Params
nobody = record { fd = 0; ipaddr = [] }

abbrev pub both : Sockets
both = record { makes = true; binds = true; assigned = 49152 }

abbrev pub running : Running memory
running = record { db = []; asked_port = 7777; port_number = 7777; backlog = 32; num_threads = 64 }

abbrev idle_system : System memory
idle_system = started_system nobody running

-- A client connects, says CONNECT and adds a file.
abbrev sharing : List Act
sharing =
    connects (some client)
    ∷ begins []
    ∷ receives 0 (arrived (with_nul (codes "CONNECT")))
    ∷ receives 0 (arrived (with_nul (codes "ADD a b 7")))
    ∷ []

-- And quits.
abbrev quitting : List Act
quitting = receives 0 (arrived (with_nul (codes "QUIT"))) ∷ departs 0 true ∷ []

abbrev added : Row
added = record { filename = codes "a"; filehash = codes "b"; f_size = 7; peeraddr = client.ipaddr }

abbrev busy_system : System memory
busy_system = record {
  listener = record {
    c_count = pos 1;
    params = client;
    queued = 0;
    started = client ∷ [];
    sent = [];
    stopped = false;
  };
  db = added ∷ [];
  sessions =
      record {
        fd = 5;
        peeraddr = client.ipaddr;
        stage = serving;
        sent = accept_line ∷ ok_line ∷ [];
      }
      ∷ [];
  returned = [];
}

abbrev left_system : System memory
left_system = record {
  listener = record {
    c_count = pos 0;
    params = client;
    queued = 0;
    started = client ∷ [];
    sent = [];
    stopped = false;
  };
  db = [];
  sessions = [];
  returned = (client.ipaddr, true) ∷ [];
}

pub running-starts : start_up memory defaults (some []) both ≡ some running
unfolding start_up bind_and_listen bound_port defaults atoi decimal step deleted
running-starts = refl

sharing-acts : acts 64 9 sharing idle_system ≡ ok busy_system
unfolding acts act begin receive depart depart_from departed started_system read_step handle
    handle_add add_file add_answer happens listen_once admit nearly_full hundredths start_job
    greeting_stage serving_stage send_msg client_count greet buffer_after leave leave_answer
    read_line recv_msg kept_bytes is_kept clean_string command_of parse_add validate_int
    insert_query leave_query token strtok token_of after_token skip_spaces atoi starts_with isdigit
    c_string text_eq sprintf step upto past inserted_row deleted decimal ◌+ℤ◌
sharing-acts = refl

quitting-acts : acts 64 9 quitting busy_system ≡ ok left_system
unfolding acts act receive depart depart_from departed read_step handle serving_stage send_msg
    client_count buffer_after leave leave_answer read_line recv_msg kept_bytes is_kept clean_string
    command_of leave_query starts_with c_string text_eq sprintf step upto past deleted without_peer
    ◌+ℤ◌
quitting-acts = refl

sharing-plain : All PlainAct sharing
sharing-plain = grind arith

quitting-plain : All PlainAct quitting
quitting-plain = grind arith

shared : Reach 64 9 PlainAct idle_system busy_system
shared = acts-Reach sharing idle_system busy_system start sharing-plain sharing-acts

quit : Reach 64 9 PlainAct idle_system left_system
quit = acts-Reach quitting busy_system left_system shared quitting-plain quitting-acts

idle_system-Balanced : Balanced 64 idle_system
unfolding started_system
idle_system-Balanced = record { count = refl; threads = omega arith; jobs = refl }

Reach-Balanced_example : Balanced 64 busy_system
Reach-Balanced_example = Reach-Balanced 64 shared idle_system-Balanced

started-Owned_example : Balanced 64 busy_system × Owned memory_table busy_system
started-Owned_example =
    started-Owned memory_table defaults (some []) both running running-starts nobody 9 busy_system
      shared

started_rests_example :
    (left_system.listener.c_count ≡ pos 0) × (memory_table.rows left_system.db ≡ [])
started_rests_example =
    started_rests memory_table defaults (some []) both running running-starts nobody 9 left_system
      quit refl refl (refl, tt)

busy_system-Owned : Owned memory_table busy_system
busy_system-Owned =
    (started-Owned memory_table defaults (some []) both running running-starts nobody 9 busy_system
      shared).1

act-apply_example :
    Holds
      (λ v.
        index_of (memory_table.rows v.db)
        ≡ apply_asked
            (granted memory busy_system.db
              (asked_by (receives 0 (arrived (with_nul (codes "DELETE a b")))) busy_system))
            (index_of (added ∷ [])))
      (act 64 9 (receives 0 (arrived (with_nul (codes "DELETE a b")))) busy_system)
act-apply_example =
    act-apply memory_table 64 9 (receives 0 (arrived (with_nul (codes "DELETE a b")))) busy_system
      (grind arith) busy_system-Owned

started-requests_example :
    index_of (added ∷ []) ≡ apply_all (requests 64 9 sharing idle_system) (index_of [])
started-requests_example =
    started-requests memory_table defaults (some []) both running running-starts nobody 9 sharing
      busy_system sharing-plain sharing-acts

sharing-requests : requests 64 9 sharing idle_system ≡ publish added ∷ []
unfolding acts act begin receive depart depart_from departed started_system read_step handle
    handle_add add_file add_answer happens listen_once admit nearly_full hundredths start_job
    greeting_stage serving_stage send_msg client_count greet buffer_after leave leave_answer
    read_line recv_msg kept_bytes is_kept clean_string command_of parse_add validate_int
    insert_query leave_query token strtok token_of after_token skip_spaces atoi starts_with isdigit
    c_string text_eq sprintf step upto past inserted_row deleted decimal ◌+ℤ◌
sharing-requests = refl

started-own_example :
    count added (added ∷ [])
    ≡ effects (own client.ipaddr (requests 64 9 sharing idle_system)) added 0
started-own_example =
    started-own memory_table defaults (some []) both running running-starts nobody 9 sharing
      busy_system sharing-plain sharing-acts added

abbrev pub outside : Outside memory
outside = record {
  opened = some [];
  sockets = both;
  close_status = sqlite_ok;
  closes = true;
  joins = true;
}

pub no_options : parse_options [] defaults ≡ ok (run_with defaults)
unfolding parse_options
no_options = refl

-- A server with one thread, whose client has closed its connection.
abbrev full_system : System memory
full_system = record busy_system { db = [] }

abbrev still_full_system : System memory
still_full_system = record full_system {
  listener = record full_system.listener {
    params = nobody;
    queued = 1;
    c_count = pos 2;
    sent = (0, overload_line) ∷ [];
  };
  sessions =
      record {
        fd = 5;
        peeraddr = client.ipaddr;
        stage = serving;
        sent = accept_line ∷ ok_line ∷ unknown_line ∷ [];
      }
      ∷ [];
}

abbrev silence : List Act
silence = receives 0 (arrived []) ∷ connects (some nobody) ∷ begins [] ∷ departs 0 true ∷ []

silence-acts : acts 1 9 silence full_system ≡ ok still_full_system
unfolding acts act receive begin depart depart_from read_step handle serving_stage send_msg
    buffer_after read_line recv_msg kept_bytes clean_string command_of starts_with c_string text_eq
    happens listen_once admit nearly_full hundredths ◌+ℤ◌
silence-acts = refl

Reach-Starved_example :
    (still_full_system.listener.started ≡ full_system.listener.started)
    × (1 ≤ length still_full_system.sessions)
    × All (λ x. waits x.stage ≡ true) still_full_system.sessions
Reach-Starved_example =
    Reach-Starved
      (acts-Reach {num_threads = 1} {fuel = 9} {Allowed = IsSilent} silence full_system
        still_full_system start (tt, (tt, (tt, (tt, tt)))) silence-acts)
      (omega arith) (refl, tt)
