-- ===== src/Server/Session/Table.antt =====
-- What the session relies on of SQLite's table `files`: the rows that a database holds, and what
-- the server's statements do to them when their words hold no quote.
use s.Prelude.{ℕ, ◌≡◌, ◌≢◌, refl, ◌&&◌, List, [], ◌∷◌, ◌++◌, arith, if◌then◌else◌}
use s.Clib.{Text, text_eq}
use s.Clib.Strings.{Avoids, text_eq_self}
use s.Server.Sqlite.{Sqlite, run, sqlite_done}
use s.Server.Queries.{
  insert_query, delete_query, list_query, request_query, leave_query, clear_query,
}

pub record Row : Type 0 where
  pub filename : Text
  pub filehash : Text
  pub f_size : ℕ
  pub peeraddr : Text

-- DELETE of one file of a peer: every row with these three columns goes.
unfoldable pub without_file : Text → Text → Text → List Row → List Row
without_file name hash peer [] = []
without_file name hash peer (r ∷ rows) =
    let rest = without_file name hash peer rows in
    if text_eq r.filename name && (text_eq r.filehash hash && text_eq r.peeraddr peer)
    then rest
    else r ∷ rest

-- DELETE of all files of a peer: what is left are the other peers' rows.
unfoldable pub without_peer : Text → List Row → List Row
without_peer peer [] = []
without_peer peer (r ∷ rows) =
    let rest = without_peer peer rows in if text_eq r.peeraddr peer then rest else r ∷ rest

-- The documented behaviour of the statements. `IsSelect` holds of a prepared SELECT, whose steps
-- change no row.
pub record FilesTable (q : Sqlite) : Type 1 where
  pub rows : q.Db → List Row
  pub insert_done :
      (db : q.Db) (name hash : Text) (n : ℕ) (peer : Text)
      → Avoids 39 name
      → Avoids 39 hash
      → Avoids 39 peer
      → (run q db (insert_query name hash n peer)).2 ≡ sqlite_done
      → rows (run q db (insert_query name hash n peer)).0
        ≡ rows db ++ record { filename = name; filehash = hash; f_size = n; peeraddr = peer } ∷ []
  pub insert_failed :
      (db : q.Db) (name hash : Text) (n : ℕ) (peer : Text)
      → Avoids 39 name
      → Avoids 39 hash
      → Avoids 39 peer
      → (run q db (insert_query name hash n peer)).2 ≢ sqlite_done
      → rows (run q db (insert_query name hash n peer)).0 ≡ rows db
  pub delete_done :
      (db : q.Db) (name hash peer : Text)
      → Avoids 39 name
      → Avoids 39 hash
      → Avoids 39 peer
      → (run q db (delete_query name hash peer)).2 ≡ sqlite_done
      → rows (run q db (delete_query name hash peer)).0 ≡ without_file name hash peer (rows db)
  pub delete_failed :
      (db : q.Db) (name hash peer : Text)
      → Avoids 39 name
      → Avoids 39 hash
      → Avoids 39 peer
      → (run q db (delete_query name hash peer)).2 ≢ sqlite_done
      → rows (run q db (delete_query name hash peer)).0 ≡ rows db
  pub leave_done :
      (db : q.Db) (peer : Text)
      → Avoids 39 peer
      → (run q db (leave_query peer)).2 ≡ sqlite_done
      → rows (run q db (leave_query peer)).0 ≡ without_peer peer (rows db)
  pub leave_failed :
      (db : q.Db) (peer : Text)
      → Avoids 39 peer
      → (run q db (leave_query peer)).2 ≢ sqlite_done
      → rows (run q db (leave_query peer)).0 ≡ rows db
  pub clear_done :
      (db : q.Db) → (run q db clear_query).2 ≡ sqlite_done → rows (run q db clear_query).0 ≡ []
  pub IsSelect : q.Stmt → Type 0
  pub select_list : (db : q.Db) → IsSelect (q.prepare db list_query)
  pub select_request :
      (db : q.Db) (name : Text) → Avoids 39 name → IsSelect (q.prepare db (request_query name))
  pub select_step :
      (db : q.Db) (stmt : q.Stmt)
      → IsSelect stmt
      → (rows (q.step db stmt).0 ≡ rows db) × IsSelect (q.step db stmt).1

-- Another peer's rows do not see what is done to a peer's own.
pub without_peer-append_own :
    (peer : Text) (rows : List Row) (r : Row)
    → r.peeraddr ≡ peer
    → without_peer peer (rows ++ r ∷ []) ≡ without_peer peer rows
unfolding without_peer
without_peer-append_own peer [] r e = rw (e, text_eq_self peer)
without_peer-append_own peer (x ∷ rows) r e = ground (arith, without_peer-append_own peer rows r e)

pub without_peer-without_file :
    (name hash peer : Text) (rows : List Row)
    → without_peer peer (without_file name hash peer rows) ≡ without_peer peer rows
unfolding without_peer without_file
without_peer-without_file name hash peer [] = refl
without_peer-without_file name hash peer (r ∷ rows) =
    ground (arith, without_peer-without_file name hash peer rows)

pub without_peer_twice :
    (peer : Text) (rows : List Row)
    → without_peer peer (without_peer peer rows) ≡ without_peer peer rows
unfolding without_peer
without_peer_twice peer [] = refl
without_peer_twice peer (r ∷ rows) = ground (arith, without_peer_twice peer rows)
