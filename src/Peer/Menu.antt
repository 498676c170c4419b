-- ===== src/Peer/Menu.antt =====
-- P2PPeer.cpp, main: the menu, which lets the user in and out and passes on what is asked of the
-- client. The server of the peer runs beside it, from `psConnection` on.
pub mod Protocol
pub mod Login
use s.Prelude.{
  ℕ, Bool, true, false, Option, none, some, List, [], ◌∷◌, ◌++◌, length, ltb, ◌==◌, if◌then◌else◌,
}
use s.Clib.{Text}
use s.Outcome.{Result, ok, err, overflow, ◌>>=◌}
use s.Peer.Files.{max_file_len}

-- The calls of the client's methods. Their results are not looked at.
pub data Call : Type 0 where
  connect list quit : Call
  add delete get : Text → Call

-- `good` is the state of `cin`: a read that fails leaves `op` at 0, and every later read fails.
pub record Menu : Type 0 where
  pub logged : Bool
  pub flag : Bool
  pub good : Bool
  pub calls : List Call

abbrev pub start : Menu
start = record { logged = false; flag = true; good = true; calls = [] }

unfoldable pub called : Call → Menu → Menu
called c m = record m { calls = m.calls ++ c ∷ [] }

-- `cin >> path` into a buffer of MAX_FILE_LEN bytes.
unfoldable pub read_path : Text → (Text → Call) → Menu → Result Menu
unfolding called
read_path word c m = if ltb (length word) max_file_len then ok (called (c word) m) else err overflow

unfoldable pub with_path : Text → (Text → Call) → Menu → Result Menu
with_path word c m = if m.logged then read_path word c m else ok m

-- The switch; `word` is what the user types next where a case reads a path.
unfoldable pub choose : ℕ → Text → Menu → Result Menu
choose op word m =
    if op == 1
    then ok (if m.logged then m else record (called connect m) { logged = true })
    else if op == 2
    then with_path word add m
    else if op == 3
    then with_path word delete m
    else if op == 4
    then ok (if m.logged then called list m else m)
    else if op == 5
    then with_path word get m
    else if op == 6
    then ok (if m.logged then record (called quit m) { logged = false; flag = true } else m)
    else if op == 7
    then ok (
        if m.logged
        then record (called quit m) { logged = false; flag = false }
        else record m { flag = false })
    else ok m

-- What the user types at the menu: a number, or what is no number.
unfoldable pub typed : Option ℕ → Text → Menu → Result Menu
typed none word m = ok (record m { good = false })
typed (some op) word m = if m.good then choose op word m else ok m

-- `while (flag)` over what the user types; where that ends, the menu waits.
unfoldable pub menu : List (Option ℕ × Text) → Menu → Result Menu
menu [] m = ok m
menu ((op, word) ∷ inputs) m =
    let next = (do m' ← typed op word m; menu inputs m') in if m.flag then next else ok m
