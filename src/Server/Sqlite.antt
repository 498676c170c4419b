-- ===== src/Server/Sqlite.antt =====
-- What the server calls of SQLite, which is linked as a library: a database, prepared statements
-- and their steps. A statement that was finalized is dropped.
use s.Prelude.{ℕ}
use s.Clib.{Text}

-- Result codes that the server tests for.
abbrev pub sqlite_ok : ℕ
sqlite_ok = 0

abbrev pub sqlite_error : ℕ
sqlite_error = 1

abbrev pub sqlite_constraint : ℕ
sqlite_constraint = 19

abbrev pub sqlite_row : ℕ
sqlite_row = 100

abbrev pub sqlite_done : ℕ
sqlite_done = 101

-- `column_text` is what %s prints of a column, and `column_int` the column as an int.
pub record Sqlite : Type 1 where
  pub Db : Type 0
  pub Stmt : Type 0
  pub prepare : Db → Text → Stmt
  pub step : Db → Stmt → Db × Stmt × ℕ
  pub column_text : Stmt → ℕ → Text
  pub column_int : Stmt → ℕ → ℕ
  pub errmsg : Db → Text

module _ (q : Sqlite) where
  open q use {Db, Stmt, prepare, step}

  -- The first step of a query: the database after it, the statement, and the code.
  abbrev pub run : Db → Text → Db × Stmt × ℕ
  run db query = step db (prepare db query)
