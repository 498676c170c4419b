-- ===== src/Server/Session/Counting.antt =====
-- What handling a line does to the number of clients.
use s.Prelude.{if◌then◌else◌, ℕ, zero, suc, ◌≡◌, Bool, true, false, Option, none, some, ◌==◌}
use s.Prelude.Int.{ℤ}
use s.Clib.{Text}
use s.Outcome.{Holds, Holds-bind, Holds-if, Holds-sprintf}
use s.Server.Sqlite.{Sqlite, run, sqlite_done, sqlite_error, sqlite_constraint}
use s.Server.Queries.{insert_query, delete_query, request_query}
use s.Server.Commands.{
  AddWords, parse_add, parse_delete, parse_request, Command, add, delete, list, quit, request,
  unknown,
}
use s.Server.Replies.{add_failed, ok_line, delete_failed, request_failed, list_failed}
use s.Server.Session.{
  World, send_msg, add_answer, add_file, handle_add, delete_answer, handle_delete, send_rows,
  list_line, handle_list, request_line, handle_request, handle,
}

module _ (q : Sqlite) (c : ℤ) where
  abbrev Counts : World q → Type 0
  Counts w = w.c_count ≡ c

  add_answer-Counts : (status : ℕ) (w : World q) → Counts w → Holds Counts (add_answer q status w)
  unfolding add_answer
  add_answer-Counts status w k =
      Holds-if _ (status == sqlite_done) _ _ (λ e. k)
        λ e.
          Holds-if _ (status == sqlite_constraint) _ _ (λ e'. k)
            λ e'. Holds-sprintf _ 512 (add_failed (q.errmsg w.db)) _ k

  handle_add-Counts :
      (peer : Text) (words : Option AddWords) (w : World q)
      → Counts w
      → Holds Counts (handle_add q peer words w)
  unfolding handle_add add_file
  handle_add-Counts peer none w k = k
  handle_add-Counts peer (some words) w k =
      let query = insert_query words.filename words.filehash words.f_size peer in
      Holds-sprintf _ 256 query _
        (add_answer-Counts (run q w.db query).2 (record w { db = (run q w.db query).0 }) k)

  delete_answer-Counts :
      (b : Bool) (w : World q)
      → Counts w
      → Counts (send_msg ok_line (if b then w else send_msg delete_failed w))
  unfolding send_msg
  delete_answer-Counts true w k = k
  delete_answer-Counts false w k = k

  handle_delete-Counts :
      (peer : Text) (words : Option (Text × Text)) (w : World q)
      → Counts w
      → Holds Counts (handle_delete q peer words w)
  unfolding handle_delete delete_answer
  handle_delete-Counts peer none w k = k
  handle_delete-Counts peer (some (name, hash)) w k =
      let query = delete_query name hash peer in
      Holds-sprintf _ 256 query _ (
        delete_answer-Counts ((run q w.db query).2 == sqlite_done)
          (record w { db = (run q w.db query).0 }) k)

  send_rows-Counts :
      (fuel : ℕ) (line : q.Stmt → Text) (failure : Text) (stmt : q.Stmt) (w : World q)
      → Counts w
      → Holds Counts (send_rows q fuel line failure stmt w)
  unfolding send_rows
  send_rows-Counts zero line failure stmt w k = tt
  send_rows-Counts (suc fuel) line failure stmt w k =
      let stepped = q.step w.db stmt in
      Holds-if _ (stepped.2 == sqlite_done) _ _ (λ e. k)
        λ e.
          Holds-if _ (stepped.2 == sqlite_error) _ _
            (λ e'. send_rows-Counts fuel line failure stepped.1 _ k)
            λ e'.
              Holds-sprintf _ 512 (line stepped.1) _
                (send_rows-Counts fuel line failure stepped.1 _ k)

  handle_request-Counts :
      (fuel : ℕ) (name : Option Text) (w : World q)
      → Counts w
      → Holds Counts (handle_request q fuel name w)
  unfolding handle_request
  handle_request-Counts fuel none w k = k
  handle_request-Counts fuel (some name) w k = Holds-sprintf _ 256 (request_query name) _ (
      Holds-bind Counts Counts _ _ (send_rows-Counts fuel (request_line q) request_failed _ w k)
        (λ v kept. kept))

  -- No command changes the number of clients.
  pub handle-Counts :
      (fuel : ℕ) (peer : Text) (command : Command) (line : Text) (w : World q)
      → w.c_count ≡ c
      → Holds (λ w'. w'.c_count ≡ c) (handle q fuel peer command line w)
  unfolding handle handle_list
  handle-Counts fuel peer add line w k = handle_add-Counts peer (parse_add line) w k
  handle-Counts fuel peer delete line w k = handle_delete-Counts peer (parse_delete line) w k
  handle-Counts fuel peer list line w k =
      Holds-bind Counts Counts _ _ (send_rows-Counts fuel (list_line q) list_failed _ w k)
        (λ v kept. kept)
  handle-Counts fuel peer quit line w k = k
  handle-Counts fuel peer request line w k = handle_request-Counts fuel (parse_request line) w k
  handle-Counts fuel peer unknown line w k = k
