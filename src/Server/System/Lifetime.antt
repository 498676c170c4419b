-- ===== src/Server/System/Lifetime.antt =====
-- The server from main's start on.
use s.Prelude.{
  ℕ, ◌≡◌, ◌∙◌, refl, ap, Bool, true, false, inl, inr, Option, none, some, List, [], ◌∷◌, All, arith,
  Bool-cases, ◌==◌, ==_iff,
}
use s.Prelude.Int.{pos}
use s.Clib.{Text}
use s.Server.Sqlite.{Sqlite, run, sqlite_done}
use s.Server.Queries.{clear_query}
use s.Server.Options.{Options}
use s.Server.Startup.{Sockets, Running, start_up, bind_and_listen}
use s.Server.Session.Table.{Row, FilesTable}
use s.Server.Listen.{Params}
use s.Server.System.{System, Reach, started_system}
use s.Server.System.Known.{is_known, was_left}
use s.Server.System.Counting.{Balanced, Reach-Balanced, started_system-Balanced}
use s.Clib.Strings.{Avoids}
use s.Server.System.Addresses.{started_system-Addresses}
use s.Server.System.Ownership.{PlainAct, Owned}
use s.Server.System.Ownership.Runs.{Reach-Owned}

module _ {q : Sqlite} (t : FilesTable q) where
  bind_and_listen-db :
      (o : Options) (sockets : Sockets) (db : q.Db) (r : Running q)
      → bind_and_listen q o sockets db ≡ some r
      → r.db ≡ db
  unfolding bind_and_listen
  bind_and_listen-db o sockets db r e = ground arith

  -- A server that runs has begun with an empty table.
  pub start_up-rows :
      (o : Options) (opened : Option q.Db) (sockets : Sockets) (r : Running q)
      → start_up q o opened sockets ≡ some r
      → t.rows r.db ≡ []
  unfolding start_up
  start_up-rows o none sockets r e = cc
  start_up-rows o (some db) sockets r e =
      elim (Bool-cases ((run q db clear_query).2 == sqlite_done)) [
        | inl done ↦
            let kept = bind_and_listen-db o sockets _ r (rw done at e) in
            ap t.rows kept ∙ t.clear_done db ((==_iff _ _).0 done)
        | inr fails ↦ absurd (let no_start = rw fails at e in ground (arith, no_start))
      ]

  pub started_system-Owned :
      (params : Params) (r : Running q) → t.rows r.db ≡ [] → Owned t (started_system params r)
  unfolding started_system
  started_system-Owned params r e = record {
    rows = rw e tt;
    plain = started_system-Addresses (Avoids 39) params r;
  }

module _ {q : Sqlite} (t : FilesTable q) (o : Options) (opened : Option q.Db) (sockets : Sockets)
    (r : Running q) (up : start_up q o opened sockets ≡ some r) (params : Params) (fuel : ℕ) where
  -- From main's start on, whatever happens in whatever order, as long as no quote arrives: the
  -- count of clients is the number of jobs that wait and of sessions at work, which are no more
  -- than the threads, and each row of the table has the address of a session at work or of one that
  -- returned -1.
  pub started-Owned :
      (u : System q)
      → Reach r.num_threads fuel PlainAct (started_system params r) u
      → Balanced r.num_threads u × Owned t u
  started-Owned u reached = (
    Reach-Balanced r.num_threads reached (started_system-Balanced r.num_threads params r),
    Reach-Owned t reached (started_system-Owned t params r (start_up-rows t o opened sockets r up)),
  )

  nobody_left :
      (returned : List (Text × Bool)) (peer : Text)
      → All (λ p. p.1 ≡ true) returned
      → was_left peer returned ≡ false
  nobody_left [] peer h = refl
  nobody_left ((a, b) ∷ rest) peer h = ground (arith, h.0, nobody_left rest peer h.1)

  no_row :
      (rows : List Row) (known : Text → Bool)
      → ((peer : Text) → known peer ≡ false)
      → All (λ r'. known r'.peeraddr ≡ true) rows
      → rows ≡ []
  no_row [] known none_known h = refl
  no_row (x ∷ rows) known none_known h = absurd (ground (arith, h.0, none_known x.peeraddr))

  -- When no job waits, no session is at work, and every session has returned 0, no client is
  -- counted and the table is empty, if no quote has arrived since main's start.
  pub started_rests :
      (u : System q)
      → Reach r.num_threads fuel PlainAct (started_system params r) u
      → u.listener.queued ≡ 0
      → u.sessions ≡ []
      → All (λ p. p.1 ≡ true) u.returned
      → (u.listener.c_count ≡ pos 0) × (t.rows u.db ≡ [])
  started_rests u reached no_jobs no_sessions well =
      let h = started-Owned u reached in
      (
        rw (h.0.count, no_jobs, no_sessions) refl,
        no_row (t.rows u.db) (is_known u)
            (λ peer. rw (no_sessions, nobody_left u.returned peer well) refl) h.1.rows,
      )
