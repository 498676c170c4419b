-- ===== src/Server/System.antt =====
-- The whole server while it runs: the listener, the jobs that wait, and the sessions that the
-- threads of the pool serve, over one database and one count of clients. What happens is a list of
-- acts in any order; the locks and the scheduler are libraries, and an act is one call of recv with
-- the handling of what it brings.
pub mod Counting
pub mod Known
pub mod Addresses
pub mod Ownership
pub mod Lifetime
pub mod Starvation
pub mod Faultless
pub mod Endurance
use s.Prelude.{
  ℕ, suc, zero, Bool, false, ◌&&◌, ◌≡◌, Option, none, some, List, [], ◌∷◌, ◌++◌, length, get_elem?,
  All, subst, set, ltb, if◌then◌else◌,
}
use s.Prelude.Int.{pos}
use s.Clib.{Text}
use s.Outcome.{Result, ok, ◌>>=◌, >>=-eq-ok}
use s.Server.Messages.{Received}
use s.Server.Sqlite.{Sqlite}
use s.Server.Startup.{Running}
use s.Server.Session.{World, Outcome, ended, still_waiting, leave}
use s.Server.Session.Stages.{Stage, greeting, serving, leaving, greeting_stage, read_step}
use s.Server.Listen.{Params, Listener, start_job, accepts, happens}

-- A thread's copy of p2p's own variables.
pub record Session : Type 0 where
  pub fd : ℕ
  pub peeraddr : Text
  pub stage : Stage
  pub sent : List Text

-- `returned` lists, with its address, whether p2p returned 0.
pub record System (q : Sqlite) : Type 0 where
  pub listener : Listener
  pub db : q.Db
  pub sessions : List Session
  pub returned : List (Text × Bool)

-- accept returns; a free thread begins a job, with what its buffer holds at first; the i-th session
-- receives; the i-th session, which has read QUIT, departs, with what closesocket does.
pub data Act : Type 0 where
  connects : Option Params → Act
  begins : Text → Act
  receives : ℕ → Received → Act
  departs : ℕ → Bool → Act

abbrev pub without_session : ℕ → List Session → List Session
without_session i [] = []
without_session zero (x ∷ xs) = xs
without_session (suc i) (x ∷ xs) = x ∷ without_session i xs

module _ {q : Sqlite} where
  -- What a session sees of the system.
  abbrev pub world_of : System q → Session → World q
  world_of s x = record { db = s.db; c_count = s.listener.c_count; sent = x.sent; closed = false }

  -- The shared variables, after a session has changed them.
  abbrev pub shared : World q → System q → System q
  shared w s = record s { listener = record s.listener { c_count = w.c_count }; db = w.db }

  unfoldable pub begin : ℕ → Text → System q → System q
  unfolding start_job
  begin num_threads buffer s =
      let x : Session = record {
        fd = s.listener.params.fd;
        peeraddr = s.listener.params.ipaddr;
        stage = greeting_stage buffer;
        sent = [];
      } in
      if ltb 0 s.listener.queued && ltb (length s.sessions) num_threads
      then record s { listener = start_job s.listener; sessions = s.sessions ++ x ∷ [] }
      else s

  unfoldable pub receive : ℕ → ℕ → Option Session → Received → System q → Result (System q)
  receive fuel i none r s = ok s
  receive fuel i (some x) r s = do
    next ← read_step q fuel x.peeraddr x.stage r (world_of s x)
    let (stage, w) = next
    let s' = shared w s
    ok (record s' { sessions = set s.sessions i (record x { stage = stage; sent = w.sent }) })

  unfoldable pub departed : ℕ → Session → Outcome q → System q → System q
  departed i x (ended w success) s =
      let s' = shared w s in
      record s' {
        sessions = without_session i s.sessions;
        returned = s.returned ++ (x.peeraddr, success) ∷ [];
      }
  departed i x (still_waiting w) s = s

  -- Only a session that has read QUIT gets to its end.
  unfoldable pub depart_from : ℕ → Stage → Session → Bool → System q → Result (System q)
  unfolding departed
  depart_from i greeting x closes s = ok s
  depart_from i serving x closes s = ok s
  depart_from i leaving x closes s = do
    outcome ← leave q x.peeraddr closes (world_of s x)
    ok (departed i x outcome s)

  unfoldable pub depart : ℕ → Option Session → Bool → System q → Result (System q)
  unfolding depart_from
  depart i none closes s = ok s
  depart i (some x) closes s = depart_from i x.stage x closes s

  unfoldable pub act : ℕ → ℕ → Act → System q → Result (System q)
  unfolding begin receive depart
  act num_threads fuel (connects client) s =
      ok (record s { listener = happens num_threads (accepts client) s.listener })
  act num_threads fuel (begins buffer) s = ok (begin num_threads buffer s)
  act num_threads fuel (receives i r) s = receive fuel i (get_elem? s.sessions i) r s
  act num_threads fuel (departs i closes) s = depart i (get_elem? s.sessions i) closes s

  unfoldable pub acts : ℕ → ℕ → List Act → System q → Result (System q)
  unfolding act
  acts num_threads fuel [] s = ok s
  acts num_threads fuel (a ∷ rest) s = do
    s' ← act num_threads fuel a s
    acts num_threads fuel rest s'

  -- A server as main starts it; `params` is what the listener's local variable holds at first.
  unfoldable pub started_system : Params → Running q → System q
  started_system params r = record {
    listener = record {
      c_count = pos 0;
      params = params;
      queued = 0;
      started = [];
      sent = [];
      stopped = false;
    };
    db = r.db;
    sessions = [];
    returned = [];
  }

  -- The systems that acts lead to, each of a kind that `Allowed` names.
  pub data Reach (num_threads fuel : ℕ) (Allowed : Act → Type 0) (s : System q)
      : System q → Type 0 where
    start : Reach num_threads fuel Allowed s s
    later :
        {u v : System q}
        → Reach num_threads fuel Allowed s u
        → (a : Act) → Allowed a
        → act num_threads fuel a u ≡ ok v
        → Reach num_threads fuel Allowed s v

  -- A list of acts leads to what it results in.
  pub acts-Reach :
      {num_threads fuel : ℕ} {Allowed : Act → Type 0} {s : System q}
      → (run : List Act) (u v : System q) → Reach num_threads fuel Allowed s u
      → All Allowed run
      → acts num_threads fuel run u ≡ ok v
      → Reach num_threads fuel Allowed s v
  unfolding acts
  acts-Reach {num_threads} {fuel} {Allowed} {s} [] u v before allowed e =
      let it : u ≡ v = cc in subst (Reach num_threads fuel Allowed s) it before
  acts-Reach {num_threads} {fuel} {Allowed} {s} (a ∷ run) u v before allowed e =
      let first = >>=-eq-ok (act num_threads fuel a u) (acts num_threads fuel run) v e in
      acts-Reach run first.0 v (later before a allowed.0 first.1) allowed.1 first.2
