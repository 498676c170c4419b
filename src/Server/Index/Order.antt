-- ===== src/Server/Index/Order.antt =====
-- The order in which the lines of several clients are handled.
use s.Prelude.{ℕ, ◌≡◌, ◌≢◌, ◌∙◌, refl, sym, ap, Option, none, some, List, [], ◌∷◌, ◌++◌, All}
use s.Clib.{Text}
use s.Clib.Strings.{Avoids}
use s.Outcome.{ok, Holds, Holds-weaken, Holds-eq-ok, >>=-eq-ok}
use s.Server.Sqlite.{Sqlite}
use s.Server.Commands.{
  Command, parse_add, parse_delete, command_of, add, delete, list, quit, request, unknown,
  >>=-eq-some,
}
use s.Server.Session.{World, handle}
use s.Server.Session.Table.{FilesTable}
use s.Server.Session.Turns.{Turn, turns}
use s.Server.Index.{
  Op, owner, withdraw, changed_by, Index, index_of, apply_asked, apply_asked-index_of, apply_comm,
}
use s.Server.Index.Asking.{published, asked, granted, Follows, handle-Follows}

-- A client asks for changes of its own files only.
asked-owner :
    (peer : Text) (c : Command) (line : Text) (op : Op)
    → asked peer c line ≡ some op
    → owner op ≡ peer
asked-owner peer add line op e =
    let parsed = >>=-eq-some (parse_add line) _ e in
    let it : published peer parsed.0 ≡ op = cc in ap owner (sym it)
asked-owner peer delete line op e =
    let parsed = >>=-eq-some (parse_delete line) _ e in
    let it : withdraw parsed.0.0 parsed.0.1 peer ≡ op = cc in ap owner (sym it)
asked-owner peer list line op e = cc
asked-owner peer quit line op e = cc
asked-owner peer request line op e = cc
asked-owner peer unknown line op e = cc

abbrev asked_by_turn : Turn → Option Op
asked_by_turn t = asked t.peeraddr (command_of t.line) t.line

abbrev apply_turns : List Turn → Index → Index
apply_turns [] index = index
apply_turns (t ∷ ts) index = apply_turns ts (apply_asked (asked_by_turn t) index)

-- A turn without a quote, in its line and its address.
abbrev PlainTurn : Turn → Type 0
PlainTurn t = Avoids 39 t.peeraddr × Avoids 39 t.line

All-swap :
    (before : List Turn) (a b : Turn) (after : List Turn)
    → All PlainTurn (before ++ a ∷ b ∷ after)
    → All PlainTurn (before ++ b ∷ a ∷ after)
All-swap [] a b after h = (h.1.0, (h.0, h.1.1))
All-swap (t ∷ before) a b after h = (h.0, All-swap before a b after h.1)

swap_asked :
    (a b : Option Op) (index : Index)
    → ((x y : Op) → a ≡ some x → b ≡ some y → owner x ≢ owner y)
    → apply_asked b (apply_asked a index) ≡ apply_asked a (apply_asked b index)
swap_asked none none index h = refl
swap_asked none (some y) index h = refl
swap_asked (some x) none index h = refl
swap_asked (some x) (some y) index h = sym (apply_comm x y (h x y refl refl) index)

swap_turns :
    (before : List Turn) (a b : Turn) (after : List Turn) (index : Index)
    → a.peeraddr ≢ b.peeraddr
    → apply_turns (before ++ a ∷ b ∷ after) index ≡ apply_turns (before ++ b ∷ a ∷ after) index
swap_turns [] a b after index differ = ap (apply_turns after) (
    swap_asked (asked_by_turn a) (asked_by_turn b) index (λ x y e f g. differ (
      sym (asked-owner a.peeraddr (command_of a.line) a.line x e)
      ∙ g
      ∙ asked-owner b.peeraddr (command_of b.line) b.line y f)))
swap_turns (t ∷ before) a b after index differ = swap_turns before a b after _ differ

-- SQLite grants what each turn asks for, on the database that the turn finds.
abbrev pub AllGranted : (q : Sqlite) → ℕ → List Turn → World q → Type 0
AllGranted q fuel [] w = Unit
AllGranted q fuel (x ∷ xs) w =
    (granted q w.db (asked_by_turn x) ≡ asked_by_turn x)
    × Holds (AllGranted q fuel xs) (handle q fuel x.peeraddr (command_of x.line) x.line w)

module _ {q : Sqlite} (t : FilesTable q) where
  turn-index :
      (fuel : ℕ) (x : Turn) (w : World q)
      → PlainTurn x
      → granted q w.db (asked_by_turn x) ≡ asked_by_turn x
      → Holds
          (λ v. index_of (t.rows v.db) ≡ apply_asked (asked_by_turn x) (index_of (t.rows w.db)))
          (handle q fuel x.peeraddr (command_of x.line) x.line w)
  turn-index fuel x w plain grants =
      Holds-weaken (λ w'. Follows t (asked_by_turn x) w.db w'.db) _ _
        (handle-Follows t x.peeraddr plain.0 fuel (command_of x.line) x.line w plain.1)
        (λ v f.
          ap index_of (f ∙ ap (λ o. changed_by o (t.rows w.db)) grants)
          ∙ sym (apply_asked-index_of (asked_by_turn x) (t.rows w.db)))

  turns-index :
      (fuel : ℕ) (xs : List Turn) (w v : World q)
      → All PlainTurn xs
      → AllGranted q fuel xs w
      → turns q fuel xs w ≡ ok v
      → index_of (t.rows v.db) ≡ apply_turns xs (index_of (t.rows w.db))
  unfolding turns
  turns-index fuel [] w v plain grants e = cc
  turns-index fuel (x ∷ xs) w v plain grants e =
      let handled = handle q fuel x.peeraddr (command_of x.line) x.line w in
      let (u, first, rest) = >>=-eq-ok handled (turns q fuel xs) v e in
      turns-index fuel xs u v plain.1 (Holds-eq-ok _ handled u grants.1 first) rest
      ∙ ap (apply_turns xs) (Holds-eq-ok _ handled u (turn-index fuel x w plain.0 grants.0) first)

  -- Two lines of clients with different addresses, handled one after the other among any others, may
  -- change places: the index at the end is the same, though the order of the rows may not be. The
  -- lines and the addresses hold no quote, SQLite reports the statement of each turn as done in both
  -- orders, and no fault occurs.
  pub turns-swap :
      (fuel : ℕ) (before : List Turn) (a b : Turn) (after : List Turn) (w v v' : World q)
      → All (λ x. Avoids 39 x.peeraddr × Avoids 39 x.line) (before ++ a ∷ b ∷ after)
      → a.peeraddr ≢ b.peeraddr
      → AllGranted q fuel (before ++ a ∷ b ∷ after) w
      → AllGranted q fuel (before ++ b ∷ a ∷ after) w
      → turns q fuel (before ++ a ∷ b ∷ after) w ≡ ok v
      → turns q fuel (before ++ b ∷ a ∷ after) w ≡ ok v'
      → index_of (t.rows v.db) ≡ index_of (t.rows v'.db)
  turns-swap fuel before a b after w v v' plain differ grants grants' e e' =
      turns-index fuel (before ++ a ∷ b ∷ after) w v plain grants e
      ∙ swap_turns before a b after (index_of (t.rows w.db)) differ
      ∙ sym (
          turns-index fuel (before ++ b ∷ a ∷ after) w v' (All-swap before a b after plain) grants'
            e')
