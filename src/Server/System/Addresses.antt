-- ===== src/Server/System/Addresses.antt =====
-- The addresses that a running server keeps: of the client to serve next, and of the sessions.
use s.Prelude.{
  ℕ, ◌<◌, ◌≡◌, refl, sym, subst, Bool, true, false, ◌&&◌, inl, inr, Option, none, some, length, ltb,
  get_elem?, All, All-set, All-get, All-append, Bool-cases, Option-cases, arith, if◌then◌else◌,
}
use s.Clib.{Text}
use s.Outcome.{Holds, Holds-then}
use s.Server.Messages.{Received}
use s.Server.Sqlite.{Sqlite}
use s.Server.Session.{Outcome, ended, still_waiting, leave}
use s.Server.Session.Stages.{Stage, greeting, serving, leaving, read_step}
use s.Server.Listen.{Params, Listener, accepts, happens, listen_once, start_job}
use s.Server.Listen.Handing.{listen_once_lem}
use s.Server.Startup.{Running}
use s.Server.System.{
  started_system, Session, System, Act, connects, begins, receives, departs, world_of, begin,
  receive, departed, depart_from, depart, act,
}
use s.Server.System.Known.{All-without_session}

-- What holds of the address of a client that connects.
abbrev pub Arrives {κ} : (Text → Type κ) → Act → Type κ
Arrives P (connects none) = Unit
Arrives P (connects (some client)) = P client.ipaddr
Arrives P (begins buffer) = Unit
Arrives P (receives i r) = Unit
Arrives P (departs i closes) = Unit

module _ (P : Text → Type 0) where
  abbrev Waits : Listener → Type 0
  Waits l = 0 < l.queued → P l.params.ipaddr

  accept-Waits :
      (n : ℕ) (client : Option Params) (l : Listener)
      → Arrives P (connects client)
      → Waits l
      → Waits (happens n (accepts client) l)
  unfolding happens
  accept-Waits n client l p h = by_stopped l.stopped
    where
      accepted : (c : Option Params) → Arrives P (connects c) → Waits (listen_once n c l)
      accepted none p = unfold listen_once in h
      accepted (some c) p = subst Waits (sym (listen_once_lem n c l)) (λ k. p)

      by_stopped : (b : Bool) → Waits (if b then l else listen_once n client l)
      by_stopped true = h
      by_stopped false = accepted client p

module _ {q : Sqlite} (P : Text → Type 0) where
  -- Of each address that a session has, or that a job will find.
  pub record Addresses (s : System q) : Type 0 where
    pub params : 0 < s.listener.queued → P s.listener.params.ipaddr
    pub sessions : All (λ x. P x.peeraddr) s.sessions

  begin-Addresses :
      (n : ℕ) (buffer : Text) (s : System q) → Addresses s → Addresses (begin n buffer s)
  unfolding begin start_job
  begin-Addresses n buffer s h =
      elim (Bool-cases (ltb 0 s.listener.queued && ltb (length s.sessions) n)) [
        | inl e ↦
            let waits = h.params (ground (arith, e)) in
            rw e (record {
              params = λ k. waits;
              sessions = All-append _ s.sessions _ h.sessions waits;
            })
        | inr e ↦ rw e h
      ]

  receive-Addresses :
      (fuel i : ℕ) (o : Option Session) (r : Received) (s : System q)
      → get_elem? s.sessions i ≡ o
      → Addresses s
      → Holds Addresses (receive fuel i o r s)
  unfolding receive
  receive-Addresses fuel i none r s e h = h
  receive-Addresses fuel i (some x) r s e h =
      Holds-then Addresses (read_step q fuel x.peeraddr x.stage r (world_of s x)) _ (λ next.
        record {
          params = h.params;
          sessions = All-set _ s.sessions i _ (All-get _ s.sessions i x e h.sessions) h.sessions;
        })

  depart-Addresses :
      (i : ℕ) (stage : Stage) (x : Session) (closes : Bool) (s : System q)
      → Addresses s
      → Holds Addresses (depart_from i stage x closes s)
  unfolding depart_from departed
  depart-Addresses i greeting x closes s h = h
  depart-Addresses i serving x closes s h = h
  depart-Addresses i leaving x closes s h =
      Holds-then Addresses (leave q x.peeraddr closes (world_of s x)) _ after
    where
      after : (o : Outcome q) → Addresses (departed i x o s)
      after (ended w success) = record {
        params = h.params;
        sessions = All-without_session _ s.sessions i h.sessions;
      }
      after (still_waiting w) = h

  -- What holds of the address of each client that connects holds of all that the server keeps.
  pub act-Addresses :
      (n fuel : ℕ) (a : Act) (s : System q)
      → Arrives P a
      → Addresses s
      → Holds Addresses (act n fuel a s)
  unfolding act depart
  act-Addresses n fuel (connects client) s p h = record {
    params = accept-Waits P n client s.listener p h.params;
    sessions = h.sessions;
  }
  act-Addresses n fuel (begins buffer) s p h = begin-Addresses n buffer s h
  act-Addresses n fuel (receives i r) s p h =
      receive-Addresses fuel i (get_elem? s.sessions i) r s refl h
  act-Addresses n fuel (departs i closes) s p h = elim (Option-cases (get_elem? s.sessions i)) [
    | inl e ↦ rw e h
    | inr (x, e) ↦ rw e (depart-Addresses i x.stage x closes s h)
  ]

  -- A server that has just started keeps no address.
  pub started_system-Addresses :
      (params : Params) (r : Running q) → Addresses (started_system params r)
  unfolding started_system
  started_system-Addresses params r = record {
    params = λ k. absurd (omega (arith, k));
    sessions = tt;
  }
