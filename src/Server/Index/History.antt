-- ===== src/Server/Index/History.antt =====
-- What the clients have asked for in a whole run of the server, and the index at its end.
use s.Prelude.{ℕ, ◌≡◌, ◌∙◌, refl, sym, ap, Option, none, some, List, [], ◌∷◌, All}
use s.Outcome.{Result, ok, err, >>=-eq-ok, Holds-eq-ok}
use s.Server.Sqlite.{Sqlite}
use s.Server.Options.{Options}
use s.Server.Startup.{Sockets, Running, start_up}
use s.Server.Session.Table.{FilesTable}
use s.Server.Listen.{Params}
use s.Server.System.{System, Act, act, acts, start, later, started_system}
use s.Server.System.Ownership.{PlainAct, Owned}
use s.Server.System.Ownership.Runs.{Reach-Owned}
use s.Server.System.Lifetime.{start_up-rows, started_system-Owned}
use s.Server.Index.{Op, Index, index_of, apply, apply_asked}
use s.Server.Index.Asking.{granted}
use s.Server.Index.Refinement.{asked_by, act-apply}

abbrev kept : Option Op → List Op → List Op
kept none ops = ops
kept (some op) ops = op ∷ ops

abbrev pub apply_all : List Op → Index → Index
apply_all [] index = index
apply_all (op ∷ ops) index = apply_all ops (apply op index)

apply_all-kept :
    (o : Option Op) (ops : List Op) (index : Index)
    → apply_all (kept o ops) index ≡ apply_all ops (apply_asked o index)
apply_all-kept none ops index = refl
apply_all-kept (some op) ops index = refl

module _ {q : Sqlite} where
  abbrev after_act : Result (System q) → (System q → List Op) → List Op
  after_act (ok s) f = f s
  after_act (err e) f = []

  -- The requests of the clients in a list of acts, in order: those that SQLite grants.
  abbrev pub requests : ℕ → ℕ → List Act → System q → List Op
  requests n fuel [] s = []
  requests n fuel (a ∷ rest) s =
      kept (granted q s.db (asked_by a s))
        (after_act (act n fuel a s) (λ s'. requests n fuel rest s'))

module _ {q : Sqlite} (t : FilesTable q) (n fuel : ℕ) where
  abbrev IsIndex : Index → System q → Type 0
  IsIndex index s = index_of (t.rows s.db) ≡ index

  act-IsIndex :
      (a : Act) (s u : System q)
      → PlainAct a
      → Owned t s
      → act n fuel a s ≡ ok u
      → IsIndex (apply_asked (granted q s.db (asked_by a s)) (index_of (t.rows s.db))) u
  act-IsIndex a s u plain owned e =
      Holds-eq-ok _ (act n fuel a s) u (act-apply t n fuel a s plain owned) e

  acts-IsIndex :
      (run : List Act) (s v : System q)
      → All PlainAct run
      → Owned t s
      → acts n fuel run s ≡ ok v
      → IsIndex (apply_all (requests n fuel run s) (index_of (t.rows s.db))) v
  unfolding acts
  acts-IsIndex [] s v plain owned e = cc
  acts-IsIndex (a ∷ run) s v plain owned e =
      let (u, first, rest) = >>=-eq-ok (act n fuel a s) (acts n fuel run) v e in
      let owned_then = Reach-Owned t (later start a plain.0 first) owned in
      acts-IsIndex run u v plain.1 owned_then rest
      ∙ ap (apply_all (requests n fuel run u)) (act-IsIndex a s u plain.0 owned first)
      ∙ sym (
          apply_all-kept (granted q s.db (asked_by a s)) (requests n fuel run u)
            (index_of (t.rows s.db)))
      ∙ ap
          (λ m.
            apply_all (kept (granted q s.db (asked_by a s)) (after_act m (requests n fuel run)))
              (index_of (t.rows s.db)))
          (sym first)

module _ {q : Sqlite} (t : FilesTable q) where
  -- From main's start on, after any acts in any order, the index of the table is what the clients'
  -- requests, in their order, make of the empty one, each request counting whose statement SQLite
  -- reports as done when it is made. No quote arrives in an address or in what clients send, and no
  -- fault occurs.
  pub started-requests :
      (o : Options) (opened : Option q.Db) (sockets : Sockets) (r : Running q)
      → start_up q o opened sockets ≡ some r
      → (params : Params) (fuel : ℕ) (run : List Act) (v : System q) → All PlainAct run
      → acts r.num_threads fuel run (started_system params r) ≡ ok v
      → index_of (t.rows v.db)
        ≡ apply_all (requests r.num_threads fuel run (started_system params r)) (index_of [])
  started-requests o opened sockets r up params fuel run v plain e =
      let empty = start_up-rows t o opened sockets r up in
      acts-IsIndex t r.num_threads fuel run (started_system params r) v plain
        (started_system-Owned t params r empty) e
      ∙ ap
          (λ rows.
            apply_all (requests r.num_threads fuel run (started_system params r)) (index_of rows))
          (unfold started_system in empty)
