-- ===== src/Server/Session/Adding.antt =====
-- ADD, from the text that a peer sends to the row in the table.
use s.Prelude.{
  ℕ, ◌≤◌, ◌<◌, ◌≡◌, ◌⊎◌, refl, true, inl, inr, some, [], ◌∷◌, ◌++◌, length, arith, ◌==◌, Bool-cases,
}
use s.Clib.{Text, codes, starts_with, decimal, int_max}
use s.Clib.Strings.{Avoids, IsWord, strtok_blank, strtok_last}
use s.Clib.Decimal.{IsNumber-Avoids, decimal-IsNumber, decimal-ne-nil, atoi-decimal}
use s.Outcome.{ok, sprintf, Holds, Holds-if, Holds-sprintf}
use s.Peer.Client.{add_text}
use s.Server.Messages.Reading.{validate_int_iff}
use s.Server.Sqlite.{Sqlite, run, sqlite_done, sqlite_constraint}
use s.Server.Queries.{insert_query}
use s.Server.Commands.{AddWords, parse_add, command_of, add}
use s.Server.Replies.{ok_line, add_exists, add_failed}
use s.Server.Session.{World, send_msg, add_answer, add_file, handle_add, handle}
use s.Server.Session.Table.{Row, FilesTable}

-- A word may hold digits only if they are no blanks: the printed size is a word.
decimal-IsWord : (n : ℕ) → IsWord (decimal n)
decimal-IsWord n =
    (decimal-ne-nil n, IsNumber-Avoids 32 (decimal n) (omega arith) (decimal-IsNumber n))

-- The server takes the text of addFile apart into the same path, hash and size.
pub parse_add-add_text :
    (path hash : Text) (n : ℕ)
    → IsWord path
    → IsWord hash
    → n ≤ int_max
    → parse_add (add_text path hash n)
      ≡ some (record { filename = path; filehash = hash; f_size = n })
unfolding parse_add add_text
parse_add-add_text path hash n hp hh small = rw (
  strtok_blank (codes "ADD") (path ++ (codes " " ++ (hash ++ (codes " " ++ decimal n))))
      (λ e. cc, omega arith),
  strtok_blank path (hash ++ (codes " " ++ decimal n)) hp,
  strtok_blank hash (decimal n) hh,
  strtok_last (decimal n) (decimal-IsWord n),
  (validate_int_iff (decimal n)).1 (decimal-IsNumber n),
  atoi-decimal n small,
)

command_of-add_text : (path hash : Text) (n : ℕ) → command_of (add_text path hash n) ≡ add
unfolding command_of add_text starts_with
command_of-add_text path hash n = refl

module _ (q : Sqlite) (t : FilesTable q) (peer : Text) (plain : Avoids 39 peer) where
  abbrev query_of : AddWords → Text
  query_of words = insert_query words.filename words.filehash words.f_size peer

  abbrev row_of : AddWords → Row
  row_of words = record {
    filename = words.filename;
    filehash = words.filehash;
    f_size = words.f_size;
    peeraddr = peer;
  }

  -- The text that a peer sends for a file is stored as the row with that path, hash and size and
  -- the peer's address, and answered by OK, if SQLite reports that the statement is done, the words
  -- hold no blank and no quote, and the statement fits its buffer.
  pub add_reaches_table :
      (fuel : ℕ) (path hash : Text) (n : ℕ) (w : World q)
      → IsWord path
      → IsWord hash
      → n ≤ int_max
      → Avoids 39 path
      → Avoids 39 hash
      → length (insert_query path hash n peer) < 256
      → (run q w.db (insert_query path hash n peer)).2 ≡ sqlite_done
      → (w' : World q) × (handle q fuel peer
            (command_of (add_text path hash n))
            (add_text path hash n)
            w
          ≡ ok w')
        × (t.rows w'.db
            ≡ t.rows w.db
              ++ record { filename = path; filehash = hash; f_size = n; peeraddr = peer } ∷ [])
        × (w'.sent ≡ w.sent ++ ok_line ∷ [])
  unfolding handle handle_add add_file add_answer sprintf send_msg
  add_reaches_table fuel path hash n w hp hh small qp qh fits done = (
    record w { db = (run q w.db (insert_query path hash n peer)).0; sent = w.sent ++ ok_line ∷ [] },
    rw (command_of-add_text path hash n, parse_add-add_text path hash n hp hh small) (ground arith),
    t.insert_done w.db path hash n peer qp qh plain done,
    refl,
  )

  -- A client is told OK exactly when its file is in the table: after OK the row is there, behind the
  -- old ones, and after any other answer, which begins with ERROR, the rows are as before.
  pub add_file-answers :
      (words : AddWords) (w : World q)
      → Avoids 39 words.filename
      → Avoids 39 words.filehash
      → Holds
          (λ w'.
            ((w'.sent ≡ w.sent ++ ok_line ∷ []) × (t.rows w'.db ≡ t.rows w.db ++ row_of words ∷ []))
            ⊎ ((m : Text) × (w'.sent ≡ w.sent ++ m ∷ [])
                × (starts_with m (codes "ERROR") ≡ true)
                × (t.rows w'.db ≡ t.rows w.db)))
          (add_file q peer words w)
  unfolding add_file add_answer send_msg
  add_file-answers words w qn qh =
      Holds-sprintf _ 256 (query_of words) _
        (elim (Bool-cases ((run q w.db (query_of words)).2 == sqlite_done)) [
          | inl done ↦ rw done (
              inl (
                refl,
                t.insert_done w.db words.filename words.filehash words.f_size peer qn qh plain
                    (ground arith),
              ))
          | inr fails ↦
              let same =
                t.insert_failed w.db words.filename words.filehash words.f_size peer qn qh plain
                  (λ d. ground arith) in
              rw fails (
                Holds-if _ ((run q w.db (query_of words)).2 == sqlite_constraint) _ _
                  (λ e. inr (add_exists, refl, unfold add_exists starts_with in refl, same))
                  λ e.
                    Holds-sprintf _ 512 (add_failed (q.errmsg (run q w.db (query_of words)).0)) _
                      (inr (_, refl, unfold add_failed starts_with in refl, same)))
        ])
