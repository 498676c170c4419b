-- ===== src/Server/Session/Fitting.antt =====
-- Which lines a session handles without a fault: how long its statements and answers get.
use s.Prelude.{
  ℕ, Bool, ◌+◌, ◌≤◌, ◌<◌, refl, inl, inr, List, length, arith, ◌==◌, Bool-cases, Option-cases,
}
use s.Clib.{Text, c_string}
use s.Clib.Strings.{Avoids}
use s.Outcome.{Succeeds, Succeeds-sprintf}
use s.Server.Sqlite.{Sqlite, run, sqlite_done, sqlite_constraint}
use s.Server.Messages.{arrived, kept_bytes}
use s.Server.Messages.Reading.{length-kept_bytes}
use s.Server.Queries.{insert_query, request_query, list_query, leave_query}
use s.Server.Queries.Lengths.{
  length-insert_query, length-delete_query, length-request_query, length-leave_query,
}
use s.Server.Commands.{
  parse_add, parse_delete, parse_request, Command, command_of, add, delete, list, quit, request,
  unknown,
}
use s.Server.Replies.{add_failed, list_failed, request_failed}
use s.Server.Session.{
  World, add_answer, add_file, handle_add, handle_delete, list_line, request_line, handle_list,
  handle_request, handle, leave,
}
use s.Server.Session.Stages.{Stage, greeting, serving, leaving, read_step}
use s.Server.Session.Words.{parse_request-Avoids, read_line-Avoids}
use s.Server.Session.Listing.{Selects, send_rows-Selects}
use s.Server.Session.Lengths.{
  parse_add-short, parse_delete-short, parse_request-short, read_line-kept,
}

-- The statement comes to its end before the fuel does, by lines that fit the buffer.
abbrev pub Lists : (q : Sqlite) → ℕ → (q.Stmt → Text) → q.Db → q.Stmt → Type 0
Lists q fuel line db stmt = (ls : List Text) × (length ls < fuel) × Selects q line db stmt ls

-- SQLite's statements for LIST and, for a name without a quote, REQUEST come to their ends.
pub record Answers (q : Sqlite) (fuel : ℕ) (db : q.Db) : Type 0 where
  pub listed : Lists q fuel (list_line q) db (q.prepare db list_query)
  pub found :
      (name : Text)
      → Avoids 39 name
      → Lists q fuel (request_line q) db (q.prepare db (request_query name))

module _ (q : Sqlite) (messages : (db : q.Db) → length (add_failed (q.errmsg db)) < 512)
    (peer : Text) where
  add_answer-Succeeds : (status : ℕ) (w : World q) → Succeeds (add_answer q status w)
  unfolding add_answer
  add_answer-Succeeds status w = elim (Bool-cases (status == sqlite_done)) [
    | inl e ↦ rw e (_, refl)
    | inr e ↦ rw e (elim (Bool-cases (status == sqlite_constraint)) [
      | inl e' ↦ rw e' (_, refl)
      | inr e' ↦ rw e' (Succeeds-sprintf 512 _ _ (messages w.db) (_, refl))
    ])
  ]

  handle_add-Succeeds :
      (line : Text) (w : World q)
      → length line + length peer ≤ 160
      → Succeeds (handle_add q peer (parse_add line) w)
  unfolding handle_add add_file
  handle_add-Succeeds line w short = elim (Option-cases (parse_add line)) [
    | inl bad ↦ rw bad (_, refl)
    | inr (words, e) ↦
        let fits = parse_add-short line words e in
        let long = length-insert_query words.filename words.filehash words.f_size peer in
        let query = insert_query words.filename words.filehash words.f_size peer in
        let (db, stmt, status) = run q w.db query in
        rw e (
          Succeeds-sprintf 256 query _ (omega (arith, long, fits.0, fits.1))
            (add_answer-Succeeds status (record w { db = db })))
  ]

  handle_delete-Succeeds :
      (line : Text) (w : World q)
      → length line + length peer ≤ 160
      → Succeeds (handle_delete q peer (parse_delete line) w)
  unfolding handle_delete
  handle_delete-Succeeds line w short = elim (Option-cases (parse_delete line)) [
    | inl bad ↦ rw bad (_, refl)
    | inr ((name, hash), e) ↦
        let fits = parse_delete-short line name hash e in
        let long = length-delete_query name hash peer in
        rw e (Succeeds-sprintf 256 _ _ (omega (arith, long, fits)) (_, refl))
  ]

  handle_request-Succeeds :
      (fuel : ℕ) (line : Text) (w : World q)
      → length line + length peer ≤ 160
      → Avoids 39 line
      → Answers q fuel w.db
      → Succeeds (handle_request q fuel (parse_request line) w)
  unfolding handle_request
  handle_request-Succeeds fuel line w short plain answers =
      elim (Option-cases (parse_request line)) [
        | inl bad ↦ rw bad (_, refl)
        | inr (name, e) ↦
            let fits = parse_request-short line name e in
            let long = length-request_query name in
            let (ls, enough, sel) =
              answers.found name (parse_request-Avoids 39 line name plain e) in
            let rows = send_rows-Selects q fuel (request_line q) request_failed _ ls w enough sel in
            rw e (Succeeds-sprintf 256 _ _ (omega (arith, long, fits)) (rw rows.1 (_, refl)))
      ]

  -- Whatever a line is, it is handled without a fault: no buffer is written over, and the loops over
  -- rows end. The line holds no quote, it and the client's address have at most 160 bytes together,
  -- SQLite's error messages fit the answer, and its statements for LIST and REQUEST come to an end,
  -- by lines that fit the buffer.
  pub handle-Succeeds :
      (fuel : ℕ) (line : Text) (command : Command) (w : World q)
      → length line + length peer ≤ 160
      → Avoids 39 line
      → Answers q fuel w.db
      → Succeeds (handle q fuel peer command line w)
  unfolding handle handle_list
  handle-Succeeds fuel line add w short plain answers = handle_add-Succeeds line w short
  handle-Succeeds fuel line delete w short plain answers = handle_delete-Succeeds line w short
  handle-Succeeds fuel line list w short plain answers =
      let (ls, enough, sel) = answers.listed in
      let rows = send_rows-Selects q fuel (list_line q) list_failed _ ls w enough sel in
      rw rows.1 (_, refl)
  handle-Succeeds fuel line quit w short plain answers = (_, refl)
  handle-Succeeds fuel line request w short plain answers =
      handle_request-Succeeds fuel line w short plain answers
  handle-Succeeds fuel line unknown w short plain answers = (_, refl)

  pub read_step-Succeeds :
      (fuel : ℕ) (stage : Stage) (bytes : Text) (w : World q)
      → length (c_string bytes) + length peer ≤ 160
      → Avoids 39 bytes
      → Answers q fuel w.db
      → Succeeds (read_step q fuel peer stage (arrived bytes) w)
  unfolding read_step
  read_step-Succeeds fuel greeting bytes w short plain answers =
      rw (read_line-kept bytes (omega arith)) (_, refl)
  read_step-Succeeds fuel serving bytes w short plain answers =
      let line = kept_bytes (c_string bytes) in
      let shorter = length-kept_bytes (c_string bytes) in
      let read = read_line-kept bytes (omega arith) in
      let handled =
        handle-Succeeds fuel line (command_of line) w (omega (arith, shorter))
          (read_line-Avoids 39 (arrived bytes) line plain read) answers in
      rw read (rw handled.1 (_, refl))
  read_step-Succeeds fuel leaving bytes w short plain answers = (_, refl)

  pub leave-Succeeds :
      (closes : Bool) (w : World q) → length peer ≤ 160 → Succeeds (leave q peer closes w)
  unfolding leave
  leave-Succeeds closes w short =
      Succeeds-sprintf 256 (leave_query peer) _ (omega (arith, length-leave_query peer)) (_, refl)
