-- ===== src/Server/System/Ownership/Runs.antt =====
-- Every run of the server, and the owners of the rows.
use s.Clib.Strings.{Avoids}
use s.Prelude.{ℕ, none, some, inl, inr, get_elem?, Option-cases}
use s.Outcome.{Holds, Holds-of_eq, Holds-eq-ok}
use s.Server.Sqlite.{Sqlite}
use s.Server.Session.Table.{FilesTable}
use s.Server.System.{
  System, Act, connects, begins, receives, departs, receive, depart, act, Reach, start, later,
}
use s.Server.System.Ownership.{PlainAct, OwnsRows, Owned, begin-OwnsRows}
use s.Server.System.Addresses.{Arrives, act-Addresses}
use s.Server.System.Ownership.Reading.{receive-OwnsRows}
use s.Server.System.Ownership.Leaving.{depart-OwnsRows}

plain_address : (a : Act) → PlainAct a → Arrives (Avoids 39) a
plain_address (connects none) plain = tt
plain_address (connects (some client)) plain = plain
plain_address (begins buffer) plain = tt
plain_address (receives i r) plain = tt
plain_address (departs i closes) plain = tt

module _ {q : Sqlite} (t : FilesTable q) where
  act-OwnsRows :
      (n fuel : ℕ) (a : Act) (s : System q)
      → PlainAct a
      → Owned t s
      → Holds (OwnsRows t) (act n fuel a s)
  unfolding act depart
  act-OwnsRows n fuel (connects client) s plain h = h.rows
  act-OwnsRows n fuel (begins buffer) s plain h = begin-OwnsRows t n buffer s h.rows
  act-OwnsRows n fuel (receives i r) s plain h = elim (Option-cases (get_elem? s.sessions i)) [
    | inl e ↦ rw e (unfold receive in h.rows)
    | inr (x, e) ↦ rw e (receive-OwnsRows t fuel i x r s e plain h)
  ]
  act-OwnsRows n fuel (departs i closes) s plain h = elim (Option-cases (get_elem? s.sessions i)) [
    | inl e ↦ rw e h.rows
    | inr (x, e) ↦ rw e (depart-OwnsRows t i x.stage x closes s e h)
  ]

  pub act-Owned :
      (n fuel : ℕ) (a : Act) (s : System q)
      → PlainAct a
      → Owned t s
      → Holds (Owned t) (act n fuel a s)
  act-Owned n fuel a s plain h = Holds-of_eq (Owned t) (act n fuel a s) (λ v e. record {
    rows = Holds-eq-ok (OwnsRows t) _ v (act-OwnsRows n fuel a s plain h) e;
    plain =
        Holds-eq-ok _ _ v (act-Addresses (Avoids 39) n fuel a s (plain_address a plain) h.plain) e;
  })

  -- Whatever happens, in whatever order, as long as no quote arrives: every row of the table has
  -- the address of a session at work or of one that returned -1, if that holds at first.
  pub Reach-Owned :
      {n fuel : ℕ} {s u : System q} → Reach n fuel PlainAct s u → Owned t s → Owned t u
  Reach-Owned start h = h
  Reach-Owned (later before a plain e) h =
      Holds-eq-ok (Owned t) _ _ (act-Owned _ _ a _ plain (Reach-Owned before h)) e
