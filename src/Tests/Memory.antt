-- ===== src/Tests/Memory.antt =====
-- A table in memory that reads the server's statements between their quotes: the assumptions on
-- SQLite can be met.
use s.Prelude.{
  ℕ, ap, ◌≡◌, refl, Option, none, some, List, [], ◌∷◌, ◌++◌, get_or, arith, ◌==◌, if◌then◌else◌,
}
use s.Clib.{Text, codes, decimal, digits_value}
use s.Clib.Strings.{Avoids}
use s.Clib.Decimal.{IsNumber-Avoids, decimal-IsNumber, digits_value-decimal_self}
use s.Server.Sqlite.{Sqlite, run, sqlite_done, sqlite_row}
use s.Server.Queries.{
  insert_query, delete_query, list_query, request_query, leave_query, clear_query,
}
use s.Server.Session.Table.{Row, FilesTable, without_file, without_peer}

-- The text up to a quote, and the text behind it.
unfoldable pub upto : Text → Text
upto [] = []
upto (c ∷ t) = let rest = upto t in if c == 39 then [] else c ∷ rest

unfoldable pub past : Text → Text
past [] = []
past (c ∷ t) = let rest = past t in if c == 39 then t else rest

upto_quote : (w rest : Text) → Avoids 39 w → upto (w ++ 39 ∷ rest) ≡ w
unfolding upto
upto_quote [] rest h = refl
upto_quote (c ∷ w) rest h = ground (arith, upto_quote w rest h.1)

past_quote : (w rest : Text) → Avoids 39 w → past (w ++ 39 ∷ rest) ≡ rest
unfolding past
past_quote [] rest h = refl
past_quote (c ∷ w) rest h = ground (arith, past_quote w rest h.1)

-- A prepared statement: its text, the rows that are left, and the row that it stands at.
pub record Statement : Type 0 where
  pub query : Text
  pub pending : List Row
  pub current : Option Row

unfoldable pub inserted_row : Text → Row
unfolding upto past
inserted_row query =
    let name = past query in
    let hash = past (past name) in
    let size = past (past hash) in
    let peer = past (past size) in
    record {
      filename = upto name;
      filehash = upto hash;
      f_size = digits_value 0 (upto size);
      peeraddr = upto peer;
    }

unfoldable pub deleted : Text → List Row → List Row
unfolding upto past
deleted query rows =
    let first = past query in
    let second = past (past first) in
    if get_or query 24 0 == 102
    then without_file (upto first) (upto second) (upto (past (past second))) rows
    else if get_or query 24 0 == 112
    then without_peer (upto first) rows
    else []

step_select : Statement → List Row → List Row × Statement × ℕ
step_select st rows = elim st.pending [
  | [] ↦ (rows, st, sqlite_done)
  | r ∷ rest ↦ (rows, record st { pending = rest; current = some r }, sqlite_row)
]

unfoldable pub step : List Row → Statement → List Row × Statement × ℕ
unfolding inserted_row deleted step_select
step rows st =
    let kind = get_or st.query 0 0 in
    if kind == b'I'
    then (rows ++ inserted_row st.query ∷ [], st, sqlite_done)
    else if kind == b'D'
    then (deleted st.query rows, st, sqlite_done)
    else step_select st rows

unfoldable pub column_text : Statement → ℕ → Text
column_text st k = elim st.current [
  | none ↦ []
  | some r ↦ if k == 0 then r.filename else r.peeraddr
]

unfoldable pub column_int : Statement → ℕ → ℕ
column_int st k = elim st.current [ none ↦ 0 | some r ↦ r.f_size ]

abbrev pub memory : Sqlite
memory = record {
  Db = List Row;
  Stmt = Statement;
  prepare = λ rows query. record { query = query; pending = rows; current = none };
  step = step;
  column_text = column_text;
  column_int = column_int;
  errmsg = λ rows. [];
}

insert_reads :
    (name hash : Text) (n : ℕ) (peer : Text)
    → Avoids 39 name
    → Avoids 39 hash
    → Avoids 39 peer
    → inserted_row (insert_query name hash n peer)
      ≡ record { filename = name; filehash = hash; f_size = n; peeraddr = peer }
unfolding inserted_row insert_query
insert_reads name hash n peer hn hh hp =
    let r3 = codes ")" in
    let r2 = codes ", '" ++ (peer ++ 39 ∷ r3) in
    let r1 = codes ",'" ++ (decimal n ++ 39 ∷ r2) in
    let r0 = codes ", '" ++ (hash ++ 39 ∷ r1) in
    let hd = IsNumber-Avoids 39 (decimal n) (omega arith) (decimal-IsNumber n) in
    simp (
      upto_quote name r0 hn,
      past_quote name r0 hn,
      upto_quote hash r1 hh,
      past_quote hash r1 hh,
      upto_quote (decimal n) r2 hd,
      past_quote (decimal n) r2 hd,
      upto_quote peer r3 hp,
      digits_value-decimal_self n,
    )

delete_reads :
    (name hash peer : Text) (rows : List Row)
    → Avoids 39 name
    → Avoids 39 hash
    → Avoids 39 peer
    → deleted (delete_query name hash peer) rows ≡ without_file name hash peer rows
unfolding deleted delete_query
delete_reads name hash peer rows hn hh hp =
    let r1 = codes " AND peeraddr = '" ++ (peer ++ 39 ∷ []) in
    let r0 = codes " AND filehash = '" ++ (hash ++ 39 ∷ r1) in
    simp (
      upto_quote name r0 hn,
      past_quote name r0 hn,
      upto_quote hash r1 hh,
      past_quote hash r1 hh,
      upto_quote peer [] hp,
    )

leave_reads :
    (peer : Text) (rows : List Row)
    → Avoids 39 peer
    → deleted (leave_query peer) rows ≡ without_peer peer rows
unfolding deleted leave_query
leave_reads peer rows hp = simp (upto_quote peer [] hp)

pub IsReading : Statement → Type 0
IsReading st = get_or st.query 0 0 ≡ b'S'

pub IsReading-steps :
    (rows : List Row) (st : Statement)
    → IsReading st
    → ((step rows st).0 ≡ rows) × IsReading (step rows st).1
unfolding IsReading step
IsReading-steps rows st e = ground (arith, e)

pub memory_insert :
    (db : List Row) (name hash : Text) (n : ℕ) (peer : Text)
    → Avoids 39 name
    → Avoids 39 hash
    → Avoids 39 peer
    → (run memory db (insert_query name hash n peer)).0
      ≡ db ++ record { filename = name; filehash = hash; f_size = n; peeraddr = peer } ∷ []
unfolding step insert_query
memory_insert db name hash n peer hn hh hp =
    ap (λ r. db ++ r ∷ []) (unfold insert_query in insert_reads name hash n peer hn hh hp)

pub memory_delete :
    (db : List Row) (name hash peer : Text)
    → Avoids 39 name
    → Avoids 39 hash
    → Avoids 39 peer
    → (run memory db (delete_query name hash peer)).0 ≡ without_file name hash peer db
unfolding step delete_query
memory_delete db name hash peer hn hh hp =
    unfold delete_query in delete_reads name hash peer db hn hh hp

pub memory_leave :
    (db : List Row) (peer : Text)
    → Avoids 39 peer
    → (run memory db (leave_query peer)).0 ≡ without_peer peer db
unfolding step leave_query
memory_leave db peer hp = unfold leave_query in leave_reads peer db hp

pub memory_clear : (db : List Row) → (run memory db clear_query).0 ≡ []
unfolding step deleted
memory_clear db = refl

-- Every change of the table in memory is done.
pub always_done_insert :
    (db : List Row) (name hash : Text) (n : ℕ) (peer : Text)
    → (run memory db (insert_query name hash n peer)).2 ≡ sqlite_done
unfolding step insert_query
always_done_insert db name hash n peer = refl

pub always_done_delete :
    (db : List Row) (name hash peer : Text)
    → (run memory db (delete_query name hash peer)).2 ≡ sqlite_done
unfolding step delete_query
always_done_delete db name hash peer = refl

pub always_done_leave :
    (db : List Row) (peer : Text) → (run memory db (leave_query peer)).2 ≡ sqlite_done
unfolding step leave_query
always_done_leave db peer = refl

pub select_list-IsReading : (db : List Row) → IsReading (memory.prepare db list_query)
unfolding IsReading
select_list-IsReading db = refl

pub select_request-IsReading :
    (db : List Row) (name : Text) → IsReading (memory.prepare db (request_query name))
unfolding IsReading request_query
select_request-IsReading db name = refl

abbrev pub memory_table : FilesTable memory
memory_table = record {
  rows = λ db. db;
  insert_done = λ db name hash n peer hn hh hp e. memory_insert db name hash n peer hn hh hp;
  insert_failed =
      λ db name hash n peer hn hh hp e. absurd (e (always_done_insert db name hash n peer));
  delete_done = λ db name hash peer hn hh hp e. memory_delete db name hash peer hn hh hp;
  delete_failed = λ db name hash peer hn hh hp e. absurd (e (always_done_delete db name hash peer));
  leave_done = λ db peer hp e. memory_leave db peer hp;
  leave_failed = λ db peer hp e. absurd (e (always_done_leave db peer));
  clear_done = λ db e. memory_clear db;
  IsSelect = IsReading;
  select_list = λ db. select_list-IsReading db;
  select_request = λ db name h. select_request-IsReading db name;
  select_step = IsReading-steps;
}
