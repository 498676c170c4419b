-- ===== src/Server/Session/Isolation.antt =====
-- What a session that is sent no quote does to the rows of other clients.
use s.Prelude.{ℕ, ◌≡◌, refl, Bool, true, false, inl, inr, some, ◌==◌, Option-cases, if◌then◌else◌}
use s.Clib.{Text}
use s.Clib.Strings.{Avoids}
use s.Outcome.{Holds, Holds-bind, Holds-sprintf}
use s.Server.Sqlite.{Sqlite, run, sqlite_done}
use s.Server.Queries.{insert_query, delete_query, request_query}
use s.Server.Commands.{
  AddWords, parse_add, parse_delete, parse_request, Command, add, delete, list, quit, request,
  unknown, command_of,
}
use s.Server.Replies.{ok_line, list_end, delete_failed, request_failed, list_failed}
use s.Server.Session.{
  World, send_msg, add_file, handle_add, delete_answer, handle_delete, list_line, handle_list,
  request_line, handle_request, handle,
}
use s.Server.Session.Table.{FilesTable, without_peer}
use s.Server.Session.Words.{parse_add-Avoids, parse_delete-Avoids, parse_request-Avoids}
use s.Server.Session.Others.{
  KeepsOthers, KeepsOthers-refl, Holds-trans, sent_KeepsOthers, then_send, add_answer-KeepsOthers,
  send_rows-KeepsOthers, insert_others, delete_others,
}

module _ (q : Sqlite) (t : FilesTable q) (peer : Text) (plain : Avoids 39 peer) where
  add_file-KeepsOthers :
      (words : AddWords) (w : World q)
      → Avoids 39 words.filename
      → Avoids 39 words.filehash
      → Holds (KeepsOthers q t peer w) (add_file q peer words w)
  unfolding add_file
  add_file-KeepsOthers words w hn hh =
      let query = insert_query words.filename words.filehash words.f_size peer in
      let same =
        insert_others q t peer plain w.db words.filename words.filehash words.f_size hn hh in
      let stored : World q = record w { db = (run q w.db query).0 } in
      Holds-sprintf _ 256 query _ (
        Holds-trans q t peer _ (sent_KeepsOthers q t peer w (run q w.db query).0 w.sent same)
          (add_answer-KeepsOthers q t peer (run q w.db query).2 stored))

  handle_add-KeepsOthers :
      (line : Text) (w : World q)
      → Avoids 39 line
      → Holds (KeepsOthers q t peer w) (handle_add q peer (parse_add line) w)
  unfolding handle_add
  handle_add-KeepsOthers line w h = elim (Option-cases (parse_add line)) [
    | inl bad ↦ rw bad (sent_KeepsOthers q t peer w w.db _ refl)
    | inr (words, e) ↦
        let plain_words = parse_add-Avoids 39 line words h e in
        rw e (add_file-KeepsOthers words w plain_words.0 plain_words.1)
  ]

  delete_file-KeepsOthers :
      (name hash : Text) (w : World q)
      → Avoids 39 name
      → Avoids 39 hash
      → Holds (KeepsOthers q t peer w) (handle_delete q peer (some (name, hash)) w)
  unfolding handle_delete delete_answer
  delete_file-KeepsOthers name hash w hn hh =
      let query = delete_query name hash peer in
      let same = delete_others q t peer plain w.db name hash hn hh in
      Holds-sprintf _ 256 query _ (answered ((run q w.db query).2 == sqlite_done) _ same)
    where
      answered :
          (b : Bool) (db : q.Db)
          → without_peer peer (t.rows db) ≡ without_peer peer (t.rows w.db)
          → KeepsOthers q t peer w (
              send_msg ok_line
                (if b then record w { db = db } else send_msg delete_failed (record w { db = db })))
      answered true db e = sent_KeepsOthers q t peer w _ _ e
      answered false db e = sent_KeepsOthers q t peer w _ _ e

  handle_delete-KeepsOthers :
      (line : Text) (w : World q)
      → Avoids 39 line
      → Holds (KeepsOthers q t peer w) (handle_delete q peer (parse_delete line) w)
  handle_delete-KeepsOthers line w h = elim (Option-cases (parse_delete line)) [
    | inl bad ↦ rw bad (unfold handle_delete in sent_KeepsOthers q t peer w w.db _ refl)
    | inr ((name, hash), e) ↦
        let plain_words = parse_delete-Avoids 39 line name hash h e in
        rw e (delete_file-KeepsOthers name hash w plain_words.0 plain_words.1)
  ]

  handle_request-KeepsOthers :
      (fuel : ℕ) (line : Text) (w : World q)
      → Avoids 39 line
      → Holds (KeepsOthers q t peer w) (handle_request q fuel (parse_request line) w)
  unfolding handle_request
  handle_request-KeepsOthers fuel line w h = elim (Option-cases (parse_request line)) [
    | inl bad ↦ rw bad (sent_KeepsOthers q t peer w w.db _ refl)
    | inr (name, e) ↦
        let sel = t.select_request w.db name (parse_request-Avoids 39 line name h e) in
        rw e (
          Holds-sprintf _ 256 (request_query name) _ (
            Holds-bind _ _ _ _
              (send_rows-KeepsOthers q t peer fuel (request_line q) request_failed _ w w sel
                (KeepsOthers-refl q t peer w))
              (then_send q t peer w ok_line)))
  ]

  handle_list-KeepsOthers :
      (fuel : ℕ) (w : World q) → Holds (KeepsOthers q t peer w) (handle_list q fuel w)
  unfolding handle_list
  handle_list-KeepsOthers fuel w =
      Holds-bind _ _ _ _
        (send_rows-KeepsOthers q t peer fuel (list_line q) list_failed _ w w (t.select_list w.db)
          (KeepsOthers-refl q t peer w))
        (then_send q t peer w list_end)

  -- Whatever the line, as long as it holds no quote, handling it leaves the rows of the other
  -- peers, the count of clients and the socket as they were.
  pub handle-KeepsOthers :
      (fuel : ℕ) (line : Text) (w : World q)
      → Avoids 39 line
      → Holds (KeepsOthers q t peer w) (handle q fuel peer (command_of line) line w)
  handle-KeepsOthers fuel line w h = by_command (command_of line)
    where
      by_command : (c : Command) → Holds (KeepsOthers q t peer w) (handle q fuel peer c line w)
      by_command add = unfold handle in handle_add-KeepsOthers line w h
      by_command delete = unfold handle in handle_delete-KeepsOthers line w h
      by_command list = unfold handle in handle_list-KeepsOthers fuel w
      by_command quit = unfold handle in KeepsOthers-refl q t peer w
      by_command request = unfold handle in handle_request-KeepsOthers fuel line w h
      by_command unknown = unfold handle in sent_KeepsOthers q t peer w w.db _ refl
