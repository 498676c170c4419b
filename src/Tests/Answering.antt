-- ===== src/Tests/Answering.antt =====
-- The table in memory answers LIST and REQUEST: what is assumed of SQLite's answers can be met.
use s.Prelude.{
  ℕ, ◌<◌, ◌≡◌, refl, none, some, Option, List, [], ◌∷◌, length, length-append, get_or, All, arith,
}
use s.Clib.{Text}
use s.Server.Queries.{list_query, request_query}
use s.Server.Replies.{add_failed}
use s.Server.Session.{list_line, request_line}
use s.Server.Session.Table.{Row}
use s.Server.Session.Listing.{Selects}
use s.Server.Session.Fitting.{Answers}
use s.Server.Index.Sizes.{IsShort}
use s.Tests.Memory.{Statement, memory, step, column_text, column_int}

abbrev at_row : Text → Row → List Row → Statement
at_row query r rest = record { query = query; pending = rest; current = some r }

abbrev lines_of : (Statement → Text) → Text → List Row → List Text
lines_of line query [] = []
lines_of line query (r ∷ rest) = line (at_row query r rest) ∷ lines_of line query rest

length-lines_of :
    (line : Statement → Text) (query : Text) (rows : List Row)
    → length (lines_of line query rows) ≡ length rows
length-lines_of line query [] = refl
length-lines_of line query (r ∷ rest) = omega (arith, length-lines_of line query rest)

-- A query that begins with S goes through the rows.
memory-Selects :
    (line : Statement → Text) (query : Text) (db rows : List Row) (current : Option Row)
    → get_or query 0 0 ≡ 83
    → ((r : Row) (rest : List Row) → IsShort r → length (line (at_row query r rest)) < 512)
    → All IsShort rows
    → Selects memory line db
        (record { query = query; pending = rows; current = current })
        (lines_of line query rows)
unfolding step
memory-Selects line query db [] current e fits h = rw e refl
memory-Selects line query db (r ∷ rest) current e fits h =
    rw e (refl, refl, fits r rest h.0, memory-Selects line query db rest (some r) e fits h.1)

list_line-short :
    (query : Text) (r : Row) (rest : List Row)
    → IsShort r
    → length (list_line memory (at_row query r rest)) < 512
unfolding list_line column_text column_int
list_line-short query r rest h = grind (arith, length-append)

request_line-short :
    (query : Text) (r : Row) (rest : List Row)
    → IsShort r
    → length (request_line memory (at_row query r rest)) < 512
unfolding request_line column_text column_int
request_line-short query r rest h = grind (arith, length-append)

pub memory-Answers :
    (fuel : ℕ) (db : List Row) → All IsShort db → length db < fuel → Answers memory fuel db
memory-Answers fuel db h few = record {
  listed = (
    lines_of (list_line memory) list_query db,
    omega (arith, length-lines_of (list_line memory) list_query db),
    memory-Selects (list_line memory) list_query db db none refl (list_line-short list_query) h,
  );
  found = λ name plain. (
    lines_of (request_line memory) (request_query name) db,
    omega (arith, length-lines_of (request_line memory) (request_query name) db),
    memory-Selects (request_line memory) (request_query name) db db none
        (unfold request_query in refl) (request_line-short (request_query name)) h,
  );
}

pub memory_messages : (db : List Row) → length (add_failed (memory.errmsg db)) < 512
memory_messages db = unfold add_failed in omega arith
