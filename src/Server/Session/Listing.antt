-- ===== src/Server/Session/Listing.antt =====
-- LIST and REQUEST: the lines that are sent for the rows of a statement.
use s.Prelude.{
  ℕ, zero, suc, ◌<◌, ◌≡◌, ◌∙◌, refl, ap, some, List, [], ◌∷◌, ◌++◌, length, arith, append-nil,
  append_assoc,
}
use s.Clib.{Text, codes, starts_with, text_eq}
use s.Clib.Strings.{IsWord, strtok_blank, strtok_last}
use s.Outcome.{ok, err, endless, sprintf}
use s.Peer.Client.{request_text}
use s.Server.Sqlite.{Sqlite, sqlite_done, sqlite_row, sqlite_error}
use s.Server.Queries.{list_query, request_query}
use s.Server.Commands.{parse_request, command_of}
use s.Server.Replies.{ok_line, list_end, list_failed, request_failed}
use s.Server.Session.{
  World, send_msg, send_rows, list_line, handle_list, request_line, handle_request, handle,
}

module _ (q : Sqlite) where
  -- The statement has rows whose lines are these, and then is done. Each line fits its buffer.
  abbrev pub Selects : (q.Stmt → Text) → q.Db → q.Stmt → List Text → Type 0
  Selects line db stmt [] = (q.step db stmt).2 ≡ sqlite_done
  Selects line db stmt (l ∷ ls) =
      ((q.step db stmt).2 ≡ sqlite_row)
      × (line (q.step db stmt).1 ≡ l)
      × (length l < 512)
      × Selects line (q.step db stmt).0 (q.step db stmt).1 ls

  pub send_rows-Selects :
      (fuel : ℕ) (line : q.Stmt → Text) (failure : Text) (stmt : q.Stmt) (ls : List Text)
      (w : World q)
      → length ls < fuel
      → Selects line w.db stmt ls
      → (w' : World q) × (send_rows q fuel line failure stmt w ≡ ok w') × (w'.sent ≡ w.sent ++ ls)
  unfolding send_rows send_msg sprintf
  send_rows-Selects zero line failure stmt ls w h sel = absurd (omega arith)
  send_rows-Selects (suc fuel) line failure stmt [] w h sel =
      (record w { db = (q.step w.db stmt).0 }, rw sel, rw append-nil)
  send_rows-Selects (suc fuel) line failure stmt (l ∷ ls) w h sel =
      let stepped = q.step w.db stmt in
      let w1 : World q = record w { db = stepped.0; sent = w.sent ++ l ∷ [] } in
      let rest = send_rows-Selects fuel line failure stepped.1 ls w1 (omega arith) sel.3 in
      (rest.0, rw (sel.0, sel.1) (ground (arith, rest.1)), rest.2 ∙ append_assoc w.sent (l ∷ []) ls)

  -- LIST is answered by the lines of the statement's rows, in order, and then OK, given one step
  -- more of fuel than there are rows, and lines that fit their buffer.
  pub list_answers :
      (fuel : ℕ) (peer : Text) (ls : List Text) (w : World q)
      → length ls < fuel
      → Selects (list_line q) w.db (q.prepare w.db list_query) ls
      → (w' : World q) × (handle q fuel peer (command_of (codes "LIST")) (codes "LIST") w ≡ ok w')
        × (w'.sent ≡ w.sent ++ (ls ++ list_end ∷ []))
  unfolding handle handle_list command_of starts_with text_eq send_msg
  list_answers fuel peer ls w h sel =
      let rows = send_rows-Selects fuel (list_line q) list_failed _ ls w h sel in
      (
        send_msg list_end rows.0,
        rw rows.1,
        ap (λ m. m ++ list_end ∷ []) rows.2 ∙ append_assoc w.sent ls (list_end ∷ []),
      )

  parse_request-request_text :
      (name : Text) → IsWord name → parse_request (request_text name) ≡ some name
  unfolding parse_request request_text
  parse_request-request_text name h =
      rw (strtok_blank (codes "REQUEST") name (λ e. cc, omega arith), strtok_last name h)

  -- The text that a peer sends to ask for a file by a word is answered by the lines of the rows
  -- that SQLite selects for the word, in order, and then OK, given one step more of fuel than
  -- there are rows, if the statement and the lines fit their buffers.
  pub request_answers :
      (fuel : ℕ) (peer name : Text) (ls : List Text) (w : World q)
      → IsWord name
      → length (request_query name) < 256
      → length ls < fuel
      → Selects (request_line q) w.db (q.prepare w.db (request_query name)) ls
      → (w' : World q) × (handle q fuel peer (command_of (request_text name)) (request_text name) w
          ≡ ok w')
        × (w'.sent ≡ w.sent ++ (ls ++ ok_line ∷ []))
  unfolding handle handle_request command_of starts_with text_eq sprintf send_msg request_text
  request_answers fuel peer name ls w hn fits h sel =
      let rows = send_rows-Selects fuel (request_line q) request_failed _ ls w h sel in
      (
        send_msg ok_line rows.0,
        rw (parse_request-request_text name hn) (ground (arith, rows.1)),
        ap (λ m. m ++ ok_line ∷ []) rows.2 ∙ append_assoc w.sent ls (ok_line ∷ []),
      )

  -- If a statement is broken, so that each step returns SQLITE_ERROR and leaves it broken, the loop
  -- over its rows never ends: no fuel is enough.
  pub send_rows_endless :
      (IsBroken : q.Stmt → Type 0)
      → ((db : q.Db) (st : q.Stmt)
          → IsBroken st
          → ((q.step db st).2 ≡ sqlite_error) × IsBroken (q.step db st).1)
      → (fuel : ℕ) (line : q.Stmt → Text) (failure : Text) (stmt : q.Stmt) (w : World q)
      → IsBroken stmt
      → send_rows q fuel line failure stmt w ≡ err endless
  unfolding send_rows
  send_rows_endless IsBroken stays zero line failure stmt w b = refl
  send_rows_endless IsBroken stays (suc fuel) line failure stmt w b =
      let next = stays w.db stmt b in
      rw next.0 (send_rows_endless IsBroken stays fuel line failure _ _ next.1)
