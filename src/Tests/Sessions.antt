-- ===== src/Tests/Sessions.antt =====
-- The theorems about sessions, on a table in memory.
use s.Prelude.{◌≡◌, ◌≢◌, ◌⊎◌, refl, true, false, List, [], ◌∷◌, replicate, arith}
use s.Prelude.Int.{pos}
use s.Clib.{Text, codes, text_eq, starts_with}
use s.Clib.Strings.{Avoids}
use s.Net.{Received, arrived, with_nul}
use s.Outcome.{Holds, ok}
use s.Peer.Client.{delete_text}
use s.Server.Sqlite.{run, sqlite_done}
use s.Server.Queries.{delete_query}
use s.Server.Commands.{AddWords, command_of}
use s.Server.Replies.{ok_line, unknown_line, delete_failed}
use s.Server.Session.{World, handle, serve, p2p, waiting, add_file}
use s.Server.Session.Table.{Row, without_file}
use s.Server.Session.Others.{KeepsOthers}
use s.Server.Session.Isolation.{handle-KeepsOthers}
use s.Server.Session.Departure.{Left, p2p-Left}
use s.Server.Session.Adding.{add_file-answers}
use s.Server.Session.Deleting.{delete_reaches_table}
use s.Server.Session.Ending.{serve-silent}
use s.Tests.Memory.{memory, memory_table}

abbrev home : Text
home = codes "10.0.0.7"

abbrev song : Row
song = record {
  filename = codes "E:/a.mp3";
  filehash = codes "98284D42";
  f_size = 4096;
  peeraddr = codes "10.0.0.9";
}

abbrev before : World memory
before = record { db = song ∷ []; c_count = pos 1; sent = []; closed = false }

-- CONNECT, one ADD and QUIT, each in one piece with its NUL.
abbrev script : List Received
script =
    arrived (with_nul (codes "CONNECT"))
    ∷ arrived (with_nul (codes "ADD a b 7"))
    ∷ arrived (with_nul (codes "QUIT"))
    ∷ []

home-plain : Avoids 39 home
home-plain = grind arith

p2p-Left_example :
    Holds (Left memory memory_table home before) (p2p memory 10 home true script [] before)
p2p-Left_example =
    p2p-Left memory memory_table home home-plain 10 true script [] before (grind arith)

handle-KeepsOthers_example :
    Holds
      (KeepsOthers memory memory_table home before)
      (handle memory 10 home (command_of (codes "DELETE a b")) (codes "DELETE a b") before)
handle-KeepsOthers_example =
    handle-KeepsOthers memory memory_table home home-plain 10 (codes "DELETE a b") before
      (grind arith)

serve-silent_example :
    serve memory 10 home (replicate 3 (arrived [])) (codes "CONNECT") before
    ≡ ok (waiting (record before { sent = replicate 3 unknown_line }))
serve-silent_example =
    serve-silent memory 10 home 3 (codes "CONNECT") before (unfold text_eq in refl)

abbrev words : AddWords
words = record { filename = codes "a"; filehash = codes "B4"; f_size = 7 }

add_file-answers_example :
    Holds
      (λ w'.
        ((w'.sent ≡ ok_line ∷ [])
          × (memory_table.rows w'.db
              ≡ song
                ∷ record {
                  filename = codes "a";
                  filehash = codes "B4";
                  f_size = 7;
                  peeraddr = home;
                }
                ∷ []))
        ⊎ ((m : Text) × (w'.sent ≡ m ∷ [])
            × (starts_with m (codes "ERROR") ≡ true)
            × (memory_table.rows w'.db ≡ song ∷ [])))
      (add_file memory home words before)
add_file-answers_example =
    add_file-answers memory memory_table home home-plain words before (grind arith) (grind arith)

delete_reaches_table_example :
    (w' : World memory) × (handle memory 10 home
        (command_of (delete_text (codes "a") (codes "B4")))
        (delete_text (codes "a") (codes "B4"))
        before
      ≡ ok w')
    × ((((run memory before.db (delete_query (codes "a") (codes "B4") home)).2 ≡ sqlite_done)
          × (w'.sent ≡ ok_line ∷ [])
          × (memory_table.rows w'.db ≡ without_file (codes "a") (codes "B4") home (song ∷ [])))
        ⊎ (((run memory before.db (delete_query (codes "a") (codes "B4") home)).2 ≢ sqlite_done)
            × (w'.sent ≡ delete_failed ∷ ok_line ∷ [])
            × (memory_table.rows w'.db ≡ song ∷ [])))
delete_reaches_table_example =
    delete_reaches_table memory memory_table home home-plain 10 (codes "a") (codes "B4") before
      (λ e. cc, grind arith) (λ e. cc, grind arith) (grind arith) (grind arith)
      (unfold delete_query in omega arith)
