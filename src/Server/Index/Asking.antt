-- ===== src/Server/Index/Asking.antt =====
-- What a client asks for by its lines, and what becomes of the table.
use s.Server.Replies.{add_failed, list_failed, request_failed}
use s.Prelude.{
  zero, suc, ℕ, ◌≡◌, ◌∙◌, refl, sym, subst, inl, inr, Option, none, some, arith, ◌==◌, ==_iff,
  Bool-cases, Option-cases, if◌then◌else◌,
}
use s.Clib.{Text}
use s.Clib.Strings.{Avoids}
use s.Outcome.{Holds, Holds-bind, Holds-if, Holds-sprintf, Holds-weaken}
use s.Server.Sqlite.{Sqlite, run, sqlite_done, sqlite_constraint, sqlite_error}
use s.Server.Queries.{insert_query, delete_query, request_query, leave_query}
use s.Server.Commands.{
  AddWords, parse_add, parse_delete, parse_request, Command, add, delete, list, quit, request,
  unknown, ◌>>=◌,
}
use s.Server.Session.{
  World, send_msg, add_answer, add_file, handle_add, delete_answer, handle_delete, send_rows,
  list_line, request_line, handle_list, handle_request, handle,
}
use s.Server.Session.Table.{FilesTable}
use s.Server.Session.Words.{parse_add-Avoids, parse_delete-Avoids, parse_request-Avoids}
use s.Server.Index.{Op, publish, withdraw, retire, changed_by}

-- The words of ADD, published by a peer.
abbrev pub published : Text → AddWords → Op
published peer words = publish (record {
  filename = words.filename;
  filehash = words.filehash;
  f_size = words.f_size;
  peeraddr = peer;
})

-- What a client asks for by a line, if it asks for a change.
abbrev pub asked : Text → Command → Text → Option Op
asked peer add line = do words ← parse_add line; some (published peer words)
asked peer delete line = do (name, hash) ← parse_delete line; some (withdraw name hash peer)
asked peer list line = none
asked peer quit line = none
asked peer request line = none
asked peer unknown line = none

-- The statement that a change is made by.
abbrev pub statement_of : Op → Text
statement_of (publish r) = insert_query r.filename r.filehash r.f_size r.peeraddr
statement_of (withdraw name hash peer) = delete_query name hash peer
statement_of (retire peer) = leave_query peer

-- What is asked for, if SQLite reports its statement as done on this database; else nothing.
abbrev pub granted : (q : Sqlite) → q.Db → Option Op → Option Op
granted q db none = none
granted q db (some op) = if (run q db (statement_of op)).2 == sqlite_done then some op else none

module _ {q : Sqlite} (t : FilesTable q) where
  -- The table changes by what is granted.
  abbrev pub Follows : Option Op → q.Db → q.Db → Type 0
  Follows o db db' = t.rows db' ≡ changed_by (granted q db o) (t.rows db)

  add_answer-db : (status : ℕ) (w : World q) → Holds (λ w'. w'.db ≡ w.db) (add_answer q status w)
  unfolding add_answer send_msg
  add_answer-db status w =
      Holds-if _ (status == sqlite_done) _ _ (λ e. refl)
        λ e.
          Holds-if _ (status == sqlite_constraint) _ _ (λ e'. refl)
            λ e'. Holds-sprintf _ 512 (add_failed (q.errmsg w.db)) _ refl

  delete_answer-db : (status : ℕ) (w : World q) → (delete_answer q status w).db ≡ w.db
  unfolding delete_answer send_msg
  delete_answer-db status w = elim (Bool-cases (status == sqlite_done)) [
    | inl e ↦ rw e refl
    | inr e ↦ rw e refl
  ]

  send_rows-rows :
      (fuel : ℕ) (line : q.Stmt → Text) (failure : Text) (stmt : q.Stmt) (u w : World q)
      → t.IsSelect stmt
      → t.rows w.db ≡ t.rows u.db
      → Holds (λ w'. t.rows w'.db ≡ t.rows u.db) (send_rows q fuel line failure stmt w)
  unfolding send_rows send_msg
  send_rows-rows zero line failure stmt u w sel k = tt
  send_rows-rows (suc fuel) line failure stmt u w sel k =
      let stepped = q.step w.db stmt in
      let kept = t.select_step w.db stmt sel in
      let same = kept.0 ∙ k in
      Holds-if _ (stepped.2 == sqlite_done) _ _ (λ e. same)
        λ e.
          Holds-if _ (stepped.2 == sqlite_error) _ _
            (λ e'. send_rows-rows fuel line failure stepped.1 u _ kept.1 same)
            λ e'.
              Holds-sprintf _ 512 (line stepped.1) _
                (send_rows-rows fuel line failure stepped.1 u _ kept.1 same)

module _ {q : Sqlite} (t : FilesTable q) (peer : Text) (plain : Avoids 39 peer) where
  inserted :
      (db : q.Db) (name hash : Text) (n : ℕ)
      → Avoids 39 name
      → Avoids 39 hash
      → Follows t
          (some
            (publish (record { filename = name; filehash = hash; f_size = n; peeraddr = peer })))
          db
          (run q db (insert_query name hash n peer)).0
  inserted db name hash n hn hh =
      elim (Bool-cases ((run q db (insert_query name hash n peer)).2 == sqlite_done)) [
        | inl e ↦ rw e (t.insert_done db name hash n peer hn hh plain ((==_iff _ _).0 e))
        | inr e ↦ rw e (t.insert_failed db name hash n peer hn hh plain (λ d. ground arith))
      ]

  deleted :
      (db : q.Db) (name hash : Text)
      → Avoids 39 name
      → Avoids 39 hash
      → Follows t (some (withdraw name hash peer)) db (run q db (delete_query name hash peer)).0
  deleted db name hash hn hh =
      elim (Bool-cases ((run q db (delete_query name hash peer)).2 == sqlite_done)) [
        | inl e ↦ rw e (t.delete_done db name hash peer hn hh plain ((==_iff _ _).0 e))
        | inr e ↦ rw e (t.delete_failed db name hash peer hn hh plain (λ d. ground arith))
      ]

  handle_add-Follows :
      (line : Text) (w : World q)
      → Avoids 39 line
      → Holds
          (λ w'. Follows t (asked peer add line) w.db w'.db)
          (handle_add q peer (parse_add line) w)
  unfolding handle_add add_file
  handle_add-Follows line w h = elim (Option-cases (parse_add line)) [
    | inl bad ↦ rw bad (unfold send_msg in refl)
    | inr (words, e) ↦
        let plain_words = parse_add-Avoids 39 line words h e in
        let done =
          inserted w.db words.filename words.filehash words.f_size plain_words.0 plain_words.1 in
        rw e (
          let query = insert_query words.filename words.filehash words.f_size peer in
          Holds-sprintf _ 256 query _ (
            Holds-weaken (λ w'. w'.db ≡ (run q w.db query).0) _ _
              (add_answer-db t (run q w.db query).2 (record w { db = (run q w.db query).0 }))
              (λ w' same. subst (Follows t (some (published peer words)) w.db) (sym same) done)))
  ]

  handle_delete-Follows :
      (line : Text) (w : World q)
      → Avoids 39 line
      → Holds
          (λ w'. Follows t (asked peer delete line) w.db w'.db)
          (handle_delete q peer (parse_delete line) w)
  unfolding handle_delete
  handle_delete-Follows line w h = elim (Option-cases (parse_delete line)) [
    | inl bad ↦ rw bad (unfold send_msg in refl)
    | inr ((name, hash), e) ↦
        let plain_words = parse_delete-Avoids 39 line name hash h e in
        let query = delete_query name hash peer in
        rw e (
          Holds-sprintf _ 256 query _ (
            subst (Follows t (some (withdraw name hash peer)) w.db)
              (sym
                (delete_answer-db t (run q w.db query).2 (record w { db = (run q w.db query).0 })))
              (deleted w.db name hash plain_words.0 plain_words.1)))
  ]

  -- A line without a quote changes the table as its client asks and SQLite grants.
  pub handle-Follows :
      (fuel : ℕ) (command : Command) (line : Text) (w : World q)
      → Avoids 39 line
      → Holds
          (λ w'. Follows t (asked peer command line) w.db w'.db)
          (handle q fuel peer command line w)
  unfolding handle handle_list handle_request send_msg
  handle-Follows fuel add line w h = handle_add-Follows line w h
  handle-Follows fuel delete line w h = handle_delete-Follows line w h
  handle-Follows fuel list line w h =
      Holds-bind (λ w'. t.rows w'.db ≡ t.rows w.db) _ _ _
        (send_rows-rows t fuel (list_line q) list_failed _ w w (t.select_list w.db) refl)
        (λ w' e. e)
  handle-Follows fuel quit line w h = refl
  handle-Follows fuel request line w h = elim (Option-cases (parse_request line)) [
    | inl bad ↦ rw bad refl
    | inr (name, e) ↦
        let sel = t.select_request w.db name (parse_request-Avoids 39 line name h e) in
        rw e (
          Holds-sprintf _ 256 (request_query name) _ (
            Holds-bind (λ w'. t.rows w'.db ≡ t.rows w.db) _ _ _
              (send_rows-rows t fuel (request_line q) request_failed _ w w sel refl) (λ w' e'. e')))
  ]
  handle-Follows fuel unknown line w h = refl
