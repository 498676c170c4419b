-- ===== src/Server/Index/Projection.antt =====
-- What the table lists for one client, by the client's own requests.
use native.Mathlib.Decide.{ℕ_discrete}
use mathlib.Core.Quot
use mathlib.Core.Quot.{Quot-set}
use s.Prelude.{
  ℕ, ◌≡◌, ◌∙◌, refl, ap, Bool-cases, inl, inr, Option, List, [], ◌∷◌, All, some, if◌then◌else◌,
}
use s.Clib.{Text, text_eq}
use s.Outcome.{ok}
use s.Server.Sqlite.{Sqlite}
use s.Server.Options.{Options}
use s.Server.Startup.{Sockets, Running, start_up}
use s.Server.Session.Table.{Row, FilesTable}
use s.Server.Listen.{Params}
use s.Server.System.{System, Act, acts, started_system}
use s.Server.System.Ownership.{PlainAct}
use s.Server.Index.{Index, Op, owner, count, index_of, apply, effect, effect-foreign, count-changed}
use s.Server.Index.History.{apply_all, requests, started-requests}

number-set : IsSet ℕ
number-set = hlevel ℕ_discrete

-- How often an index lists a row.
listed : Row → Index → ℕ
listed r = Quot.lift number-set (count r) (λ xs ys same. same r)

listed-apply :
    (op : Op) (r : Row) (index : Index) → listed r (apply op index) ≡ effect op r (listed r index)
unfolding listed apply
listed-apply op r = Quot.ind (λ i. number-set _ _) (λ rows. count-changed op r rows)

-- What operations in turn make of the number of times that a row is listed.
abbrev pub effects : List Op → Row → ℕ → ℕ
effects [] r n = n
effects (op ∷ ops) r n = effects ops r (effect op r n)

listed-apply_all :
    (ops : List Op) (r : Row) (index : Index)
    → listed r (apply_all ops index) ≡ effects ops r (listed r index)
listed-apply_all [] r index = refl
listed-apply_all (op ∷ ops) r index =
    listed-apply_all ops r (apply op index) ∙ ap (effects ops r) (listed-apply op r index)

-- The operations of one client.
abbrev pub own : Text → List Op → List Op
own peer [] = []
own peer (op ∷ ops) = let rest = own peer ops in if text_eq peer (owner op) then op ∷ rest else rest

effects-own : (ops : List Op) (r : Row) (n : ℕ) → effects ops r n ≡ effects (own r.peeraddr ops) r n
effects-own [] r n = refl
effects-own (op ∷ ops) r n = elim (Bool-cases (text_eq r.peeraddr (owner op))) [
  | inl e ↦ rw e (effects-own ops r (effect op r n))
  | inr e ↦ rw e (ap (effects ops r) (effect-foreign op r n e) ∙ effects-own ops r n)
]

module _ {q : Sqlite} (t : FilesTable q) where
  -- From main's start on, after any acts in any order, how often the table lists a row is what the
  -- requests of the row's own client, alone and in their order, make of no row at all, each request
  -- counting whose statement SQLite reports as done when it is made. No quote arrives in an address
  -- or in what clients send, and no fault occurs.
  pub started-own :
      (o : Options) (opened : Option q.Db) (sockets : Sockets) (r : Running q)
      → start_up q o opened sockets ≡ some r
      → (params : Params) (fuel : ℕ) (run : List Act) (v : System q) → All PlainAct run
      → acts r.num_threads fuel run (started_system params r) ≡ ok v
      → (x : Row)
      → count x (t.rows v.db)
        ≡ effects (own x.peeraddr (requests r.num_threads fuel run (started_system params r))) x 0
  unfolding listed
  started-own o opened sockets r up params fuel run v plain e x =
      let ops = requests r.num_threads fuel run (started_system params r) in
      ap (listed x) (started-requests t o opened sockets r up params fuel run v plain e)
      ∙ listed-apply_all ops x (index_of [])
      ∙ effects-own ops x 0
