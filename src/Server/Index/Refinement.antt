-- ===== src/Server/Index/Refinement.antt =====
-- The running server against the index that it promises.
use s.Prelude.{
  ℕ, ◌≡◌, ◌∙◌, refl, sym, ap, subst, Bool, true, false, inl, inr, Option, none, some, get_elem?,
  All-get, arith, ◌==◌, ==_iff, Bool-cases, Option-cases, if◌then◌else◌,
}
use s.Clib.{Text}
use s.Clib.Strings.{Avoids}
use s.Outcome.{
  Result, ok, err, Holds, Holds-bind, Holds-then, Holds-known, Holds-sprintf, Holds-weaken,
}
use s.Server.Messages.{Received, read_line}
use s.Server.Sqlite.{Sqlite, run, sqlite_done}
use s.Server.Queries.{leave_query}
use s.Server.Commands.{command_of}
use s.Server.Session.{
  World, send_msg, greet, leave, client_count, leave_answer, Outcome, ended, still_waiting,
}
use s.Server.Session.Table.{FilesTable}
use s.Server.Session.Words.{NeverReceives, read_line-Avoids}
use s.Server.Session.Stages.{Stage, greeting, serving, leaving, read_step}
use s.Server.System.{
  Session, System, Act, connects, begins, receives, departs, world_of, begin, receive, departed,
  depart_from, depart, act,
}
use s.Server.System.Ownership.{PlainAct, Owned}
use s.Server.Index.{Op, retire, index_of, apply_asked, apply_asked-index_of}
use s.Server.Index.Asking.{asked, granted, Follows, handle-Follows}

-- What an act asks of the index: a session that serves asks by the line that it reads, and one that
-- has read QUIT retires its client.
abbrev pub asked_by_line : Text → Result Text → Option Op
asked_by_line peer (ok line) = asked peer (command_of line) line
asked_by_line peer (err e) = none

abbrev pub asked_by_read : Stage → Text → Received → Option Op
asked_by_read greeting peer r = none
asked_by_read serving peer r = asked_by_line peer (read_line r)
asked_by_read leaving peer r = none

abbrev pub asked_by_end : Stage → Text → Option Op
asked_by_end greeting peer = none
asked_by_end serving peer = none
asked_by_end leaving peer = some (retire peer)

abbrev pub of_session : Option Session → (Session → Option Op) → Option Op
of_session none f = none
of_session (some x) f = f x

abbrev pub asked_by : {q : Sqlite} → Act → System q → Option Op
asked_by (connects client) s = none
asked_by (begins buffer) s = none
asked_by (receives i r) s =
    of_session (get_elem? s.sessions i) (λ x. asked_by_read x.stage x.peeraddr r)
asked_by (departs i closes) s =
    of_session (get_elem? s.sessions i) (λ x. asked_by_end x.stage x.peeraddr)

module _ {q : Sqlite} (t : FilesTable q) where
  read_step-Follows :
      (fuel : ℕ) (peer : Text) (stage : Stage) (r : Received) (w : World q)
      → Avoids 39 peer
      → NeverReceives 39 r
      → Holds
          (λ next. Follows t (asked_by_read stage peer r) w.db next.1.db)
          (read_step q fuel peer stage r w)
  unfolding read_step
  read_step-Follows fuel peer greeting r w plain h =
      Holds-then _ (read_line r) _ (λ line. unfold greet send_msg in ground arith)
  read_step-Follows fuel peer serving r w plain h = Holds-known _ (read_line r) _ (λ line e.
      Holds-bind (λ w'. Follows t (asked peer (command_of line) line) w.db w'.db) _ _ _
        (handle-Follows t peer plain fuel (command_of line) line w (read_line-Avoids 39 r line h e))
        (λ w' follows. subst (λ m. Follows t (asked_by_line peer m) w.db w'.db) (sym e) follows))
  read_step-Follows fuel peer leaving r w plain h = refl

  abbrev Retires : Text → World q → Outcome q → Type 0
  Retires peer w (ended v success) = Follows t (some (retire peer)) w.db v.db
  Retires peer w (still_waiting v) = ⊥

  leave-Retires :
      (peer : Text) (closes : Bool) (w : World q)
      → Avoids 39 peer
      → Holds (Retires peer w) (leave q peer closes w)
  unfolding leave client_count send_msg leave_answer
  leave-Retires peer closes w plain =
      let query = leave_query peer in
      Holds-sprintf _ 256 query _ (elim (Bool-cases ((run q w.db query).2 == sqlite_done)) [
        | inl e ↦ rw e (by_socket closes _ (rw e (t.leave_done w.db peer plain ((==_iff _ _).0 e))))
        | inr e ↦ rw e (rw e (t.leave_failed w.db peer plain (λ d. ground arith)))
      ])
    where
      by_socket :
          (b : Bool) (v : World q)
          → Follows t (some (retire peer)) w.db v.db
          → Retires peer w (if b then ended (record v { closed = true }) true else ended v false)
      by_socket true v h = h
      by_socket false v h = h

  receive-Follows :
      (fuel i : ℕ) (x : Session) (r : Received) (s : System q)
      → Avoids 39 x.peeraddr
      → NeverReceives 39 r
      → Holds
          (λ v. Follows t (asked_by_read x.stage x.peeraddr r) s.db v.db)
          (receive fuel i (some x) r s)
  unfolding receive
  receive-Follows fuel i x r s plain h =
      Holds-bind
        (λ (next : Stage × World q). Follows t (asked_by_read x.stage x.peeraddr r) s.db next.1.db)
        (λ v. Follows t (asked_by_read x.stage x.peeraddr r) s.db v.db) _ _
        (read_step-Follows fuel x.peeraddr x.stage r (world_of s x) plain h)
        (λ next follows. follows)

  depart-Follows :
      (i : ℕ) (stage : Stage) (x : Session) (closes : Bool) (s : System q)
      → Avoids 39 x.peeraddr
      → Holds
          (λ v. Follows t (asked_by_end stage x.peeraddr) s.db v.db)
          (depart_from i stage x closes s)
  unfolding depart_from departed
  depart-Follows i greeting x closes s plain = refl
  depart-Follows i serving x closes s plain = refl
  depart-Follows i leaving x closes s plain =
      Holds-bind (Retires x.peeraddr (world_of s x))
        (λ v. Follows t (some (retire x.peeraddr)) s.db v.db) _ _
        (leave-Retires x.peeraddr closes (world_of s x) plain) after
    where
      after :
          (o : Outcome q)
          → Retires x.peeraddr (world_of s x) o
          → Follows t (some (retire x.peeraddr)) s.db (departed i x o s).db
      after (ended w success) h = h
      after (still_waiting w) h = absurd h

  pub act-Follows :
      (n fuel : ℕ) (a : Act) (s : System q)
      → PlainAct a
      → Owned t s
      → Holds (λ v. Follows t (asked_by a s) s.db v.db) (act n fuel a s)
  unfolding act depart begin
  act-Follows n fuel (connects client) s plain h = refl
  act-Follows n fuel (begins buffer) s plain h = ground arith
  act-Follows n fuel (receives i r) s plain h = elim (Option-cases (get_elem? s.sessions i)) [
    | inl e ↦ rw e (unfold receive in refl)
    | inr (x, e) ↦
        rw e (receive-Follows fuel i x r s (All-get _ s.sessions i x e h.plain.sessions) plain)
  ]
  act-Follows n fuel (departs i closes) s plain h = elim (Option-cases (get_elem? s.sessions i)) [
    | inl e ↦ rw e refl
    | inr (x, e) ↦
        rw e (depart-Follows i x.stage x closes s (All-get _ s.sessions i x e h.plain.sessions))
  ]

  -- The running server refines the index: without a quote from a client, an act changes the index as
  -- its client asks by it, if it asks for anything and SQLite, on the database as it is, reports that
  -- very statement as done; else the index is as before.
  pub act-apply :
      (n fuel : ℕ) (a : Act) (s : System q)
      → PlainAct a
      → Owned t s
      → Holds
          (λ v.
            index_of (t.rows v.db)
            ≡ apply_asked (granted q s.db (asked_by a s)) (index_of (t.rows s.db)))
          (act n fuel a s)
  act-apply n fuel a s plain h =
      Holds-weaken (λ v. Follows t (asked_by a s) s.db v.db) _ _ (act-Follows n fuel a s plain h)
        (λ v f.
          ap index_of f ∙ sym (apply_asked-index_of (granted q s.db (asked_by a s)) (t.rows s.db)))
