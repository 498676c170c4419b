-- ===== src/Server/Session/Deleting.antt =====
-- DELETE, from the text that a peer sends to the table, and its answers.
use s.Prelude.{
  ℕ, ◌<◌, ◌≡◌, ◌≢◌, ◌⊎◌, refl, inl, inr, some, [], ◌∷◌, ◌++◌, length, arith, ◌==◌, Bool-cases,
}
use s.Clib.{Text, codes, starts_with}
use s.Clib.Strings.{Avoids, IsWord, strtok_blank, strtok_last}
use s.Outcome.{ok, sprintf}
use s.Peer.Client.{delete_text}
use s.Server.Sqlite.{Sqlite, run, sqlite_done}
use s.Server.Queries.{delete_query}
use s.Server.Commands.{parse_delete, command_of, delete}
use s.Server.Replies.{ok_line, delete_failed}
use s.Server.Session.{World, send_msg, delete_answer, handle_delete, handle}
use s.Server.Session.Table.{FilesTable, without_file}

parse_delete-delete_text :
    (path hash : Text)
    → IsWord path
    → IsWord hash
    → parse_delete (delete_text path hash) ≡ some (path, hash)
unfolding parse_delete delete_text
parse_delete-delete_text path hash hp hh = rw (
  strtok_blank (codes "DELETE") (path ++ (codes " " ++ hash)) (λ e. cc, omega arith),
  strtok_blank path hash hp,
  strtok_last hash hh,
)

command_of-delete_text : (path hash : Text) → command_of (delete_text path hash) ≡ delete
unfolding command_of delete_text starts_with
command_of-delete_text path hash = refl

module _ (q : Sqlite) (t : FilesTable q) (peer : Text) (plain : Avoids 39 peer) where
  -- The text that a peer sends to withdraw a file is answered in every case by OK as the last
  -- message, if the words hold no blank and no quote and the statement fits its buffer. If SQLite
  -- reports that the statement is done, that is the only answer, and of the table all rows with the
  -- path, the hash and the peer's address are gone and no other; else an error is sent before, and
  -- the table is as it was.
  pub delete_reaches_table :
      (fuel : ℕ) (path hash : Text) (w : World q)
      → IsWord path
      → IsWord hash
      → Avoids 39 path
      → Avoids 39 hash
      → length (delete_query path hash peer) < 256
      → (w' : World q) × (handle q fuel peer
            (command_of (delete_text path hash))
            (delete_text path hash)
            w
          ≡ ok w')
        × ((((run q w.db (delete_query path hash peer)).2 ≡ sqlite_done)
              × (w'.sent ≡ w.sent ++ ok_line ∷ [])
              × (t.rows w'.db ≡ without_file path hash peer (t.rows w.db)))
            ⊎ (((run q w.db (delete_query path hash peer)).2 ≢ sqlite_done)
                × (w'.sent ≡ (w.sent ++ delete_failed ∷ []) ++ ok_line ∷ [])
                × (t.rows w'.db ≡ t.rows w.db)))
  unfolding handle handle_delete delete_answer sprintf send_msg
  delete_reaches_table fuel path hash w hp hh qp qh fits =
      let stepped = run q w.db (delete_query path hash peer) in
      (
        delete_answer q stepped.2 (record w { db = stepped.0 }),
        rw (command_of-delete_text path hash, parse_delete-delete_text path hash hp hh)
            (ground arith),
        elim (Bool-cases (stepped.2 == sqlite_done)) [
          | inl done ↦ rw done (
              inl
                (ground arith, refl, t.delete_done w.db path hash peer qp qh plain (ground arith)))
          | inr fails ↦ rw fails (
              inr (
                λ d. ground arith,
                refl,
                t.delete_failed w.db path hash peer qp qh plain (λ d. ground arith),
              ))
        ],
      )
