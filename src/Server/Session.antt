-- ===== src/Server/Session.antt =====
-- p2p: the session of one client, from its handshake to its farewell. What it prints on the
-- server's console is left out. The session reads one line for each result of recv; where the list
-- of results ends, it waits.
pub mod Table
pub mod Words
pub mod Others
pub mod Isolation
pub mod Turns
pub mod Departure
pub mod Adding
pub mod Deleting
pub mod Listing
pub mod Stages
pub mod Counting
pub mod Ending
pub mod Lengths
pub mod Fitting
use s.Prelude.{
  ℕ, zero, suc, Bool, true, false, ◌||◌, Option, none, some, List, [], ◌∷◌, ◌++◌, ◌==◌,
  if◌then◌else◌,
}
use s.Prelude.Int.{ℤ, negsuc, ◌+ℤ◌}
use s.Clib.{Text, codes, text_eq, token, decimal}
use s.Outcome.{Result, ok, err, endless, sprintf, ◌>>=◌}
use s.Server.Messages.{Received, read_line}
use s.Server.Sqlite.{Sqlite, run, sqlite_error, sqlite_constraint, sqlite_done}
use s.Server.Queries.{insert_query, delete_query, list_query, request_query, leave_query}
use s.Server.Commands.{
  AddWords, parse_add, parse_delete, parse_request, Command, add, delete, list, quit, request,
  unknown, command_of,
}
use s.Server.Replies.{
  accept_line, ok_line, list_end, goodbye_line, add_exists, add_failed, add_format, delete_failed,
  delete_format, list_failed, request_failed, request_format, unknown_line,
}

-- What a session sees and changes: the database, the number of clients, what it has sent on its
-- socket, and whether it has closed it.
pub record World (q : Sqlite) : Type 0 where
  pub db : q.Db
  pub c_count : ℤ
  pub sent : List Text
  pub closed : Bool

-- client_count, which also returns the new count.
unfoldable pub client_count : {q : Sqlite} → ℤ → World q → World q × ℤ
unfolding ◌+ℤ◌
client_count change w = let count = w.c_count +ℤ change in (record w { c_count = count }, count)

-- send_msg; no caller looks at what send returns.
unfoldable pub send_msg : {q : Sqlite} → Text → World q → World q
send_msg message w = record w { sent = w.sent ++ message ∷ [] }

module _ (q : Sqlite) where
  open q use {Db, Stmt, step, column_text, column_int, errmsg}

  -- After the step of the INSERT.
  unfoldable pub add_answer : ℕ → World q → Result (World q)
  unfolding send_msg
  add_answer status w =
      if status == sqlite_done
      then ok (send_msg ok_line w)
      else if status == sqlite_constraint
      then ok (send_msg add_exists w)
      else (do out ← sprintf 512 (add_failed (errmsg w.db)); ok (send_msg out w))

  unfoldable pub add_file : Text → AddWords → World q → Result (World q)
  unfolding add_answer
  add_file peeraddr words w = do
    query ← sprintf 256 (insert_query words.filename words.filehash words.f_size peeraddr)
    let (db, stmt, status) = run q w.db query
    add_answer status (record w { db = db })

  unfoldable pub handle_add : Text → Option AddWords → World q → Result (World q)
  unfolding add_file send_msg
  handle_add peeraddr none w = ok (send_msg add_format w)
  handle_add peeraddr (some words) w = add_file peeraddr words w

  -- After the step of the DELETE: the success is reported in either case.
  unfoldable pub delete_answer : ℕ → World q → World q
  unfolding send_msg
  delete_answer status w =
      send_msg ok_line (if status == sqlite_done then w else send_msg delete_failed w)

  unfoldable pub handle_delete : Text → Option (Text × Text) → World q → Result (World q)
  unfolding delete_answer send_msg
  handle_delete peeraddr none w = ok (send_msg delete_format w)
  handle_delete peeraddr (some (filename, filehash)) w = do
    query ← sprintf 256 (delete_query filename filehash peeraddr)
    let (db, stmt, status) = run q w.db query
    ok (delete_answer status (record w { db = db }))

  -- A loop over the rows of a statement, which sends a line for each. `failure` is sent after a
  -- step that returns SQLITE_ERROR, and the loop goes on. The fuel counts the steps.
  unfoldable pub send_rows : ℕ → (Stmt → Text) → Text → Stmt → World q → Result (World q)
  unfolding send_msg
  send_rows zero line failure stmt w = err endless
  send_rows (suc fuel) line failure stmt w =
      let (db, stmt', status) = step w.db stmt in
      let w' : World q = record w { db = db } in
      let after_error = send_rows fuel line failure stmt' (send_msg failure w') in
      let after_row = (do
        out ← sprintf 512 (line stmt')
        send_rows fuel line failure stmt' (send_msg out w')) in
      if status == sqlite_done
      then ok w'
      else if status == sqlite_error
      then after_error
      else after_row

  -- "%s %d" of the name and the size.
  unfoldable pub list_line : Stmt → Text
  list_line stmt = column_text stmt 0 ++ (codes " " ++ decimal (column_int stmt 1))

  unfoldable pub handle_list : ℕ → World q → Result (World q)
  unfolding send_msg
  handle_list fuel w = do
    w' ← send_rows fuel list_line list_failed (q.prepare w.db list_query) w
    ok (send_msg list_end w')

  -- "%s %s %ld" of the name, the peer and the size.
  unfoldable pub request_line : Stmt → Text
  request_line stmt =
      column_text stmt 0
      ++ (codes " " ++ (column_text stmt 1 ++ (codes " " ++ decimal (column_int stmt 2))))

  unfoldable pub handle_request : ℕ → Option Text → World q → Result (World q)
  unfolding send_msg
  handle_request fuel none w = ok (send_msg request_format w)
  handle_request fuel (some filename) w = do
    query ← sprintf 256 (request_query filename)
    w' ← send_rows fuel request_line request_failed (q.prepare w.db query) w
    ok (send_msg ok_line w')

  -- One line of the second loop. `line` is handled in the buffer in place.
  unfoldable pub handle : ℕ → Text → Command → Text → World q → Result (World q)
  unfolding handle_add handle_delete handle_list handle_request send_msg
  handle fuel peeraddr add line w = handle_add peeraddr (parse_add line) w
  handle fuel peeraddr delete line w = handle_delete peeraddr (parse_delete line) w
  handle fuel peeraddr list line w = handle_list fuel w
  handle fuel peeraddr quit line w = ok w
  handle fuel peeraddr request line w = handle_request fuel (parse_request line) w
  handle fuel peeraddr unknown line w = ok (send_msg unknown_line w)

  -- What is left in the buffer: strtok has put a NUL behind the first word of some commands.
  unfoldable pub buffer_after : Command → Text → Text
  buffer_after add line = token line
  buffer_after delete line = token line
  buffer_after request line = token line
  buffer_after list line = line
  buffer_after quit line = line
  buffer_after unknown line = line

  -- Where a loop of the session stands: it has ended, with the results of recv that are left and
  -- the buffer, or it waits in recv.
  pub data Progress : Type 0 where
    passed : List Received → Text → World q → Progress
    waiting : World q → Progress

  -- The first loop, up to CONNECT or QUIT.
  unfoldable pub greet : Text → World q → World q
  unfolding send_msg
  greet line w = if text_eq line (codes "CONNECT") then send_msg accept_line w else w

  unfoldable pub handshake : List Received → Text → World q → Result Progress
  unfolding greet
  handshake [] buffer w =
      if text_eq buffer (codes "CONNECT") || text_eq buffer (codes "QUIT")
      then ok (passed [] buffer w)
      else ok (waiting w)
  handshake (r ∷ rs) buffer w =
      let again = (do line ← read_line r; handshake rs line (greet line w)) in
      if text_eq buffer (codes "CONNECT") || text_eq buffer (codes "QUIT")
      then ok (passed (r ∷ rs) buffer w)
      else again

  -- The second loop, up to QUIT.
  unfoldable pub serve : ℕ → Text → List Received → Text → World q → Result Progress
  serve fuel peeraddr [] buffer w =
      if text_eq buffer (codes "QUIT") then ok (passed [] buffer w) else ok (waiting w)
  serve fuel peeraddr (r ∷ rs) buffer w =
      let again = (do
        line ← read_line r
        w' ← handle fuel peeraddr (command_of line) line w
        serve fuel peeraddr rs (buffer_after (command_of line) line) w') in
      if text_eq buffer (codes "QUIT") then ok (passed (r ∷ rs) buffer w) else again

  pub data Outcome : Type 0 where
    ended : World q → Bool → Outcome
    still_waiting : World q → Outcome

  -- The end of the session: the farewell, the count, the client's files and the socket. `closes`
  -- is whether closesocket succeeds; the Bool of the outcome is whether p2p returns 0.
  unfoldable pub leave_answer : Bool → ℕ → World q → Outcome
  leave_answer closes status w =
      if status == sqlite_done
      then (if closes then ended (record w { closed = true }) true else ended w false)
      else ended w false

  unfoldable pub leave : Text → Bool → World q → Result Outcome
  unfolding send_msg client_count leave_answer
  leave peeraddr closes w = do
    let w' = (client_count (negsuc 0) (send_msg goodbye_line w)).0
    query ← sprintf 256 (leave_query peeraddr)
    let (db, stmt, status) = run q w'.db query
    ok (leave_answer closes status (record w' { db = db }))

  unfoldable pub leave_after : Text → Bool → Progress → Result Outcome
  unfolding leave
  leave_after peeraddr closes (passed rs buffer w) = leave peeraddr closes w
  leave_after peeraddr closes (waiting w) = ok (still_waiting w)

  unfoldable pub serve_after : ℕ → Text → Progress → Result Progress
  unfolding serve
  serve_after fuel peeraddr (passed rs buffer w) = serve fuel peeraddr rs buffer w
  serve_after fuel peeraddr (waiting w) = ok (waiting w)

  -- The whole of p2p. `buffer` is what the uninitialised array holds at first.
  unfoldable pub p2p : ℕ → Text → Bool → List Received → Text → World q → Result Outcome
  unfolding handshake serve_after leave_after
  p2p fuel peeraddr closes rs buffer w = do
    greeted ← handshake rs buffer w
    served ← serve_after fuel peeraddr greeted
    leave_after peeraddr closes served
