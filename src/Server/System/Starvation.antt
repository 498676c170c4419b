-- ===== src/Server/System/Starvation.antt =====
-- A server all of whose threads serve clients that have closed their connections without QUIT.
use s.Prelude.{
  ℕ, ◌≤◌, ◌≡◌, ◌∙◌, refl, ap, Bool, true, false, ◌&&◌, inl, inr, Option, none, some, List, [], ◌∷◌,
  length, length-set, get_elem?, ltb, All, All-set, All-get, arith, Option-cases, if◌then◌else◌,
}
use s.Clib.{Text, c_string, text_eq, starts_with}
use s.Net.{arrived, failed}
use s.Outcome.{Holds, Holds-bind, Holds-eq-ok}
use s.Server.Messages.{read_line, recv_msg, clean_string, kept_bytes}
use s.Server.Sqlite.{Sqlite}
use s.Server.Commands.{command_of}
use s.Server.Session.{World, handle, buffer_after}
use s.Server.Session.Stages.{
  Stage, greeting, serving, leaving, greeting_stage, serving_stage, read_step,
}
use s.Server.Listen.{Params, Listener, accepts, happens, listen_once}
use s.Server.Listen.Handing.{listen_once_lem}
use s.Server.System.{
  Session, System, Act, connects, begins, receives, departs, world_of, begin, receive, depart_from,
  depart, act, Reach, start, later,
}

-- The session waits for its client.
abbrev pub waits : Stage → Bool
waits greeting = true
waits serving = true
waits leaving = false

-- Whatever arrives is the end of a stream.
abbrev pub IsSilent : Act → Type 0
IsSilent (connects client) = Unit
IsSilent (begins buffer) = Unit
IsSilent (receives i failed) = ⊥
IsSilent (receives i (arrived [])) = Unit
IsSilent (receives i (arrived (b ∷ bytes))) = ⊥
IsSilent (departs i closes) = Unit

-- Accepting begins no job.
accept-started :
    (n : ℕ) (client : Option Params) (l : Listener)
    → (happens n (accepts client) l).started ≡ l.started
unfolding happens
accept-started n client l = by_stopped l.stopped
  where
    accepted : (c : Option Params) → (listen_once n c l).started ≡ l.started
    accepted none = unfold listen_once in refl
    accepted (some c) = ap (λ (k : Listener). k.started) (listen_once_lem n c l)

    by_stopped : (b : Bool) → (if b then l else listen_once n client l).started ≡ l.started
    by_stopped true = refl
    by_stopped false = accepted client

module _ {q : Sqlite} (n : ℕ) (begun : List Params) where
  -- All threads are at work for clients that are waited for; `begun` are the jobs that have begun.
  record Starved (s : System q) : Type 0 where
    full : n ≤ length s.sessions
    waiting : All (λ x. waits x.stage ≡ true) s.sessions
    jobs : s.listener.started ≡ begun

  read_step-waits :
      (fuel : ℕ) (peer : Text) (stage : Stage) (w : World q)
      → waits stage ≡ true
      → Holds (λ next. waits next.0 ≡ true) (read_step q fuel peer stage (arrived []) w)
  unfolding read_step read_line recv_msg clean_string kept_bytes c_string greeting_stage
      serving_stage command_of buffer_after handle text_eq starts_with
  read_step-waits fuel peer greeting w h = refl
  read_step-waits fuel peer serving w h = refl
  read_step-waits fuel peer leaving w h = cc

  receive-Starved :
      (fuel i : ℕ) (o : Option Session) (s : System q)
      → get_elem? s.sessions i ≡ o
      → Starved s
      → Holds Starved (receive fuel i o (arrived []) s)
  unfolding receive
  receive-Starved fuel i none s e h = h
  receive-Starved fuel i (some x) s e h =
      Holds-bind {A = Stage × World q} (λ next. waits next.0 ≡ true) Starved _ _
        (read_step-waits fuel x.peeraddr x.stage (world_of s x)
          (All-get _ s.sessions i x e h.waiting))
        (λ next w. record {
          full = omega (
            arith,
            h.full,
            length-set s.sessions i (record x { stage = next.0; sent = next.1.sent }),
          );
          waiting =
              All-set _ s.sessions i (record x { stage = next.0; sent = next.1.sent }) w h.waiting;
          jobs = h.jobs;
        })

  begin-Starved : (buffer : Text) (s : System q) → Starved s → Starved (begin n buffer s)
  unfolding begin
  begin-Starved buffer s h =
      let no_thread : ltb 0 s.listener.queued && ltb (length s.sessions) n ≡ false =
        ground (arith, h.full) in
      rw no_thread h

  depart-Starved :
      (i : ℕ) (stage : Stage) (x : Session) (closes : Bool) (s : System q)
      → waits stage ≡ true
      → Starved s
      → Holds Starved (depart_from i stage x closes s)
  unfolding depart_from
  depart-Starved i greeting x closes s w h = h
  depart-Starved i serving x closes s w h = h
  depart-Starved i leaving x closes s w h = cc

  act-Starved :
      (fuel : ℕ) (a : Act) (s : System q) → IsSilent a → Starved s → Holds Starved (act n fuel a s)
  unfolding act depart
  act-Starved fuel (connects client) s silent h = record {
    full = h.full;
    waiting = h.waiting;
    jobs = accept-started n client s.listener ∙ h.jobs;
  }
  act-Starved fuel (begins buffer) s silent h = begin-Starved buffer s h
  act-Starved fuel (receives i failed) s silent h = absurd silent
  act-Starved fuel (receives i (arrived [])) s silent h =
      receive-Starved fuel i (get_elem? s.sessions i) s refl h
  act-Starved fuel (receives i (arrived (b ∷ bytes))) s silent h = absurd silent
  act-Starved fuel (departs i closes) s silent h = elim (Option-cases (get_elem? s.sessions i)) [
    | inl e ↦ rw e h
    | inr (x, e) ↦
        rw e (depart-Starved i x.stage x closes s (All-get _ s.sessions i x e h.waiting) h)
  ]

-- Once each thread serves a client that has neither said QUIT nor will send another byte, the server
-- is lost: whoever connects, and whatever the threads do, no job begins any more, and each session
-- stays.
pub Reach-Starved :
    {q : Sqlite} {n fuel : ℕ} {s u : System q}
    → Reach n fuel IsSilent s u
    → n ≤ length s.sessions
    → All (λ x. waits x.stage ≡ true) s.sessions
    → (u.listener.started ≡ s.listener.started)
      × (n ≤ length u.sessions)
      × All (λ x. waits x.stage ≡ true) u.sessions
Reach-Starved {q} {n} {fuel} {s} {u} reached full waiting =
    let h = stays reached in (h.jobs, h.full, h.waiting)
  where
    stays : {v : System q} → Reach n fuel IsSilent s v → Starved n s.listener.started v
    stays start = record { full = full; waiting = waiting; jobs = refl }
    stays (later before a silent e) =
        Holds-eq-ok (Starved n s.listener.started) _ _
          (act-Starved n s.listener.started fuel a _ silent (stays before)) e
