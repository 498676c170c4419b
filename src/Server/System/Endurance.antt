-- ===== src/Server/System/Endurance.antt =====
-- Whole runs of the server that no fault ends.
use s.Prelude.{ℕ, ◌≤◌, length, All}
use s.Clib.{Text}
use s.Server.Sqlite.{Sqlite}
use s.Server.Options.{Options}
use s.Server.Session.Table.{FilesTable}
use s.Server.System.{System}
use s.Server.System.Addresses.{Addresses}
use s.Server.System.Ownership.{Owned}
use s.Server.Index.Sizes.{IsShort}

abbrev IsShortAddress : Text → Type 0
IsShortAddress a = length a ≤ 15

module _ {q : Sqlite} (t : FilesTable q) where
  -- At most `k` rows, whose lines fit, and short addresses without a quote.
  record Modest (k : ℕ) (s : System q) : Type 0 where
    rows : All IsShort (t.rows s.db)
    few : length (t.rows s.db) ≤ k
    addresses : Addresses IsShortAddress s
    owned : Owned t s
