-- ===== src/Server/System/Counting.antt =====
-- The number of clients, the jobs that wait, and the threads that are busy.
use s.Prelude.{
  ℕ, zero, suc, ◌+◌, ◌≤◌, ◌≡◌, ◌∙◌, refl, sym, ap, subst, Bool, true, false, inl, inr, ◌&&◌, Option,
  none, some, List, [], ◌∷◌, ◌++◌, length, get_elem?, length-set, length-append, ltb, arith,
  Bool-cases, Option-cases, ◌==◌, if◌then◌else◌,
}
use s.Prelude.Int.{ℤ, pos, negsuc, ◌+ℤ◌, int_laws}
use s.Clib.{Text}
use s.Outcome.{Holds, Holds-bind, Holds-eq-ok, Holds-sprintf, Holds-then}
use s.Server.Messages.{Received, read_line}
use s.Server.Sqlite.{Sqlite, run, sqlite_done}
use s.Server.Commands.{command_of}
use s.Server.Queries.{leave_query}
use s.Server.Startup.{Running}
use s.Server.Session.{
  World, greet, Outcome, ended, still_waiting, client_count, leave_answer, leave, send_msg,
}
use s.Server.Session.Stages.{Stage, greeting, serving, leaving, read_step}
use s.Server.Session.Counting.{handle-Counts}
use s.Server.Listen.{Params, Listener, accepts, happens, listen_once, start_job}
use s.Server.Listen.Handing.{listen_once_lem}
use s.Server.System.{
  Session, System, Act, connects, begins, receives, departs, without_session, world_of, begin,
  receive, departed, depart_from, depart, act, Reach, start, later, started_system,
}

-- With `k` sessions at work the listener counts them and the jobs that wait, and `j` jobs have begun.
record Tally (k j : ℕ) (l : Listener) : Type 0 where
  count : l.c_count ≡ pos (l.queued + k)
  jobs : length l.started ≡ j

count_up : (c : ℤ) (n k : ℕ) → c ≡ pos (n + k) → c +ℤ pos 1 ≡ pos (n + 1 + k)
count_up c n k e = rw e (omega int_laws)

count_down : (c : ℤ) (n k : ℕ) → c ≡ pos (n + suc k) → c +ℤ negsuc 0 ≡ pos (n + k)
count_down c n k e = rw e (omega int_laws)

accept-Tally :
    (n k j : ℕ) (client : Option Params) (l : Listener)
    → Tally k j l
    → Tally k j (happens n (accepts client) l)
unfolding happens
accept-Tally n k j client l h = by_stopped l.stopped
  where
    accepted : (c : Option Params) → Tally k j (listen_once n c l)
    accepted none = unfold listen_once in record { count = h.count; jobs = h.jobs }
    accepted (some c) =
        subst (Tally k j) (sym (listen_once_lem n c l))
          (record { count = count_up l.c_count l.queued k h.count; jobs = h.jobs })

    by_stopped : (b : Bool) → Tally k j (if b then l else listen_once n client l)
    by_stopped true = h
    by_stopped false = accepted client

length-without_session :
    (xs : List Session) (i : ℕ) (x : Session)
    → get_elem? xs i ≡ some x
    → length xs ≡ suc (length (without_session i xs))
length-without_session [] i x e = cc
length-without_session (y ∷ xs) zero x e = refl
length-without_session (y ∷ xs) (suc i) x e = ap suc (length-without_session xs i x e)

module _ {q : Sqlite} (n : ℕ) where
  -- The count is the number of waiting jobs and of sessions; no more sessions than threads are at
  -- work; every job that began is a session at work or has returned.
  pub record Balanced (s : System q) : Type 0 where
    pub count : s.listener.c_count ≡ pos (s.listener.queued + length s.sessions)
    pub threads : length s.sessions ≤ n
    pub jobs : length s.listener.started ≡ length s.sessions + length s.returned

  begun :
      (x : Session) (s : System q)
      → (ltb 0 s.listener.queued && ltb (length s.sessions) n) ≡ true
      → Balanced s
      → Balanced (record s { listener = start_job s.listener; sessions = s.sessions ++ x ∷ [] })
  unfolding start_job
  begun x s e h =
      let more = length-append s.sessions (x ∷ []) in
      let jobs = length-append s.listener.started (s.listener.params ∷ []) in
      record {
        count = h.count ∙ ap pos (ground (arith, more));
        threads = ground (arith, more, h.threads);
        jobs = omega (arith, more, jobs, h.jobs);
      }

  begin-Balanced : (buffer : Text) (s : System q) → Balanced s → Balanced (begin n buffer s)
  unfolding begin
  begin-Balanced buffer s h =
      elim (Bool-cases (ltb 0 s.listener.queued && ltb (length s.sessions) n)) [
        | inl e ↦ rw e (begun _ s e h)
        | inr e ↦ rw e h
      ]

  read_step-count :
      (fuel : ℕ) (peer : Text) (stage : Stage) (r : Received) (w : World q)
      → Holds (λ next. next.1.c_count ≡ w.c_count) (read_step q fuel peer stage r w)
  unfolding read_step
  read_step-count fuel peer greeting r w =
      Holds-then _ (read_line r) _ (λ line. unfold greet send_msg in ground arith)
  read_step-count fuel peer serving r w = Holds-then _ (read_line r) _ (λ line.
      Holds-bind (λ w'. w'.c_count ≡ w.c_count) _ _ _
        (handle-Counts q w.c_count fuel peer (command_of line) line w refl) (λ w' e. e))
  read_step-count fuel peer leaving r w = refl

  receive-Balanced :
      (fuel i : ℕ) (o : Option Session) (r : Received) (s : System q)
      → Balanced s
      → Holds Balanced (receive fuel i o r s)
  unfolding receive
  receive-Balanced fuel i none r s h = h
  receive-Balanced fuel i (some x) r s h =
      Holds-bind (λ next. next.1.c_count ≡ s.listener.c_count) Balanced _ _
        (read_step-count fuel x.peeraddr x.stage r (world_of s x))
        (λ next e.
          let same = length-set s.sessions i (record x { stage = next.0; sent = next.1.sent }) in
          record {
            count = e ∙ h.count ∙ ap pos (omega (arith, same));
            threads = omega (arith, same, h.threads);
            jobs = h.jobs ∙ omega (arith, same);
          })

  abbrev CountedOff : World q → Outcome q → Type 0
  CountedOff w (ended v success) = v.c_count ≡ w.c_count +ℤ negsuc 0
  CountedOff w (still_waiting v) = Unit

  leave-CountedOff :
      (peer : Text) (closes : Bool) (w : World q) → Holds (CountedOff w) (leave q peer closes w)
  unfolding leave client_count send_msg leave_answer
  leave-CountedOff peer closes w =
      Holds-sprintf _ 256 (leave_query peer) _
        (by_answers ((run q w.db (leave_query peer)).2 == sqlite_done) closes _ refl)
    where
      by_answers :
          (b c : Bool) (v : World q)
          → v.c_count ≡ w.c_count +ℤ negsuc 0
          → CountedOff w (
              if b
              then (if c then ended (record v { closed = true }) true else ended v false)
              else ended v false)
      by_answers true true v e = e
      by_answers true false v e = e
      by_answers false c v e = e

  depart-Balanced :
      (i : ℕ) (stage : Stage) (x : Session) (closes : Bool) (s : System q)
      → get_elem? s.sessions i ≡ some x
      → Balanced s
      → Holds Balanced (depart_from i stage x closes s)
  unfolding depart_from departed
  depart-Balanced i greeting x closes s e h = h
  depart-Balanced i serving x closes s e h = h
  depart-Balanced i leaving x closes s e h =
      Holds-bind (CountedOff (world_of s x)) Balanced _ _
        (leave-CountedOff x.peeraddr closes (world_of s x)) after
    where
      after : (o : Outcome q) → CountedOff (world_of s x) o → Balanced (departed i x o s)
      after (ended w success) c =
          let fewer = length-without_session s.sessions i x e in
          let more = length-append s.returned ((x.peeraddr, success) ∷ []) in
          record {
            count =
                c
                ∙ count_down s.listener.c_count s.listener.queued
                    (length (without_session i s.sessions))
                    (h.count ∙ ap (λ k. pos (s.listener.queued + k)) fewer);
            threads = omega (arith, fewer, h.threads);
            jobs = h.jobs ∙ omega (arith, fewer, more);
          }
      after (still_waiting w) c = h

  act-Balanced : (fuel : ℕ) (a : Act) (s : System q) → Balanced s → Holds Balanced (act n fuel a s)
  unfolding act depart
  act-Balanced fuel (connects client) s h =
      let t = accept-Tally n _ _ client s.listener (record { count = h.count; jobs = h.jobs }) in
      record { count = t.count; threads = h.threads; jobs = t.jobs }
  act-Balanced fuel (begins buffer) s h = begin-Balanced buffer s h
  act-Balanced fuel (receives i r) s h = receive-Balanced fuel i (get_elem? s.sessions i) r s h
  act-Balanced fuel (departs i closes) s h = elim (Option-cases (get_elem? s.sessions i)) [
    | inl e ↦ rw e h
    | inr (x, e) ↦ rw e (depart-Balanced i x.stage x closes s e h)
  ]

  -- Whatever happens, in whatever order, the count of clients is the number of jobs that wait and
  -- of sessions at work, there is a thread for each session, and each job that began is a session
  -- at work or one that has returned, if that holds of the server at first.
  pub Reach-Balanced :
      {fuel : ℕ} {Allowed : Act → Type 0} {s u : System q}
      → Reach n fuel Allowed s u
      → Balanced s
      → Balanced u
  Reach-Balanced start h = h
  Reach-Balanced (later before a allowed e) h =
      Holds-eq-ok Balanced _ _ (act-Balanced _ a _ (Reach-Balanced before h)) e

pub started_system-Balanced :
    {q : Sqlite} (n : ℕ) (params : Params) (r : Running q) → Balanced n (started_system params r)
unfolding started_system
started_system-Balanced n params r = record { count = refl; threads = omega arith; jobs = refl }
