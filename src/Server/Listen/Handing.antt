-- ===== src/Server/Listen/Handing.antt =====
-- Which client a worker serves, by the order of what the listener and the workers do.
use s.Prelude.{
  ℕ, zero, suc, ◌+◌, ◌≡◌, ◌∙◌, refl, sym, ap, ap₂, subst, Bool, true, false, ◌&&◌, some, List, [],
  ◌∷◌, ◌++◌, length, replicate, append_assoc, append-nil, arith, if◌then◌else◌,
}
use s.Prelude.Int.{ℤ, pos, ◌+ℤ◌, leb_ℤ, ltb_ℤ}
use s.Clib.{Text}
use s.Server.Replies.{overload_line}
use s.Server.Listen.{
  Params, Listener, nearly_full, admit, listen_once, start_job, Event, accepts, starts,
  start_waiting, happens, events,
}

within : (a b : ℤ) → leb_ℤ a b ≡ true → ltb_ℤ b a ≡ false
within a b h = ground arith

-- The three ways through the warnings come to one test.
one_test :
    (near few over : Bool) (l : Listener) (sent : List (ℕ × Text))
    → (few ≡ true → over ≡ false)
    → (if near && few then l else if over then record l { sent = sent } else l)
      ≡ record l { sent = if over then sent else l.sent }
one_test true true false l sent h = refl
one_test true false false l sent h = refl
one_test false few false l sent h = refl
one_test true true true l sent h = absurd (ground (arith, h refl))
one_test true false true l sent h = refl
one_test false few true l sent h = refl

-- Admitting a client changes the count, and what is sent.
admit_lem :
    (n : ℕ) (c : Params) (l : Listener)
    → admit n c l ≡ record l {
      c_count = l.c_count +ℤ pos 1;
      sent =
          if ltb_ℤ (pos n) (l.c_count +ℤ pos 1)
          then l.sent ++ (c.fd, overload_line) ∷ []
          else l.sent;
    }
admit_lem n c l =
    let count = l.c_count +ℤ pos 1 in
    unfold admit in
    one_test (nearly_full count n) (leb_ℤ count (pos n)) (ltb_ℤ (pos n) count)
      (record l { c_count = count }) (l.sent ++ (c.fd, overload_line) ∷ []) (within count (pos n))

-- The listener tells a client that the pool is exhausted exactly when the clients, this one
-- included, outnumber the threads; it counts the client, leaves it in `params` and adds a job.
pub listen_once_lem :
    (num_threads : ℕ) (client : Params) (l : Listener)
    → listen_once num_threads (some client) l ≡ record {
      c_count = l.c_count +ℤ pos 1;
      params = client;
      queued = l.queued + 1;
      started = l.started;
      sent =
          if ltb_ℤ (pos num_threads) (l.c_count +ℤ pos 1)
          then l.sent ++ (client.fd, overload_line) ∷ []
          else l.sent;
      stopped = l.stopped;
    }
listen_once_lem n c l =
    unfold listen_once in
    ap (λ (k : Listener). record k { params = c; queued = k.queued + 1 }) (admit_lem n c l)

-- What serving depends on: jobs that wait, clients served, whether the listener runs, and `params`.
record Serves (l : Listener) (queued : ℕ) (started : List Params) (params : Params) : Type 0 where
  jobs : l.queued ≡ queued
  served : l.started ≡ started
  place : l.params ≡ params
  runs : l.stopped ≡ false

accept_step :
    (n : ℕ) (c : Params) (l : Listener) (queued : ℕ) (started : List Params) (params : Params)
    → Serves l queued started params
    → Serves (happens n (accepts (some c)) l) (queued + 1) started c
accept_step n c l queued started params h =
    unfold happens in
    subst (λ b. Serves (if b then l else listen_once n (some c) l) (queued + 1) started c)
      (sym h.runs)
      (subst (λ k. Serves k (queued + 1) started c) (sym (listen_once_lem n c l))
        (record { jobs = ap (λ k. k + 1) h.jobs; served = h.served; place = refl; runs = h.runs }))

start_step :
    (n : ℕ) (l : Listener) (queued : ℕ) (started : List Params) (params : Params)
    → Serves l (suc queued) started params
    → Serves (happens n starts l) queued (started ++ params ∷ []) params
start_step n l queued started params h =
    unfold happens in
    subst (λ k. Serves (start_waiting k l) queued (started ++ params ∷ []) params) (sym h.jobs)
      (unfold start_waiting start_job in
        record {
          jobs = omega (arith, h.jobs);
          served = ap₂ (λ s p. s ++ p ∷ []) h.served h.place;
          place = h.place;
          runs = h.runs;
        })

-- Every accept followed at once by the start of its job.
abbrev pub in_turn : List Params → List Event
in_turn [] = []
in_turn (c ∷ cs) = accepts (some c) ∷ starts ∷ in_turn cs

in_turn-Serves :
    (n : ℕ) (clients : List Params) (l : Listener) (started : List Params) (params : Params)
    → Serves l 0 started params
    → (events n (in_turn clients) l).started ≡ started ++ clients
unfolding events
in_turn-Serves n [] l started params h = h.served ∙ sym (append-nil started)
in_turn-Serves n (c ∷ cs) l started params h =
    let accepted = accept_step n c l 0 started params h in
    let begun = start_step n (happens n (accepts (some c)) l) 0 started c accepted in
    in_turn-Serves n cs _ (started ++ c ∷ []) c begun ∙ append_assoc started (c ∷ []) cs

-- All accepts first, and then the jobs.
abbrev pub burst_from : List Params → ℕ → List Event
burst_from [] jobs = replicate jobs starts
burst_from (c ∷ cs) jobs = accepts (some c) ∷ burst_from cs (suc jobs)

abbrev pub last_of : List Params → Params → Params
last_of [] params = params
last_of (c ∷ cs) params = last_of cs c

abbrev pub burst_jobs : List Params → ℕ → ℕ
burst_jobs [] jobs = jobs
burst_jobs (c ∷ cs) jobs = burst_jobs cs (suc jobs)

starts-Serves :
    (n jobs : ℕ) (l : Listener) (started : List Params) (params : Params)
    → Serves l jobs started params
    → (events n (replicate jobs starts) l).started ≡ started ++ replicate jobs params
unfolding events
starts-Serves n zero l started params h = h.served ∙ sym (append-nil started)
starts-Serves n (suc jobs) l started params h =
    starts-Serves n jobs _ (started ++ params ∷ []) params (start_step n l jobs started params h)
    ∙ append_assoc started (params ∷ []) (replicate jobs params)

burst-Serves :
    (n : ℕ) (clients : List Params) (jobs : ℕ) (l : Listener) (started : List Params)
    (params : Params)
    → Serves l jobs started params
    → (events n (burst_from clients jobs) l).started
      ≡ started ++ replicate (burst_jobs clients jobs) (last_of clients params)
unfolding events
burst-Serves n [] jobs l started params h = starts-Serves n jobs l started params h
burst-Serves n (c ∷ cs) jobs l started params h =
    let count : jobs + 1 ≡ suc jobs = omega arith in
    burst-Serves n cs (suc jobs) (happens n (accepts (some c)) l) started c (
      subst (λ k. Serves (happens n (accepts (some c)) l) k started c) count
        (accept_step n c l jobs started params h))

burst_jobs-length :
    (clients : List Params) (jobs : ℕ) → burst_jobs clients jobs ≡ length clients + jobs
burst_jobs-length [] jobs = omega arith
burst_jobs-length (c ∷ cs) jobs = omega (arith, burst_jobs-length cs (suc jobs))

-- With a listener that runs and no job waiting at first: where every job starts before the next
-- accept, the clients are served in the order of their arrival, each once; where all jobs start
-- after the last accept, every one of them serves the client that was accepted last.
pub events-started :
    (num_threads : ℕ) (clients : List Params) (l : Listener)
    → l.queued ≡ 0
    → l.stopped ≡ false
    → ((events num_threads (in_turn clients) l).started ≡ l.started ++ clients)
      × ((events num_threads (burst_from clients 0) l).started
          ≡ l.started ++ replicate (length clients) (last_of clients l.params))
events-started n clients l q s =
    let h : Serves l 0 l.started l.params = record {
      jobs = q;
      served = refl;
      place = refl;
      runs = s;
    } in
    let count : burst_jobs clients 0 ≡ length clients =
      omega (arith, burst_jobs-length clients 0) in
    (
      in_turn-Serves n clients l l.started l.params h,
      burst-Serves n clients 0 l l.started l.params h
          ∙ ap (λ k. l.started ++ replicate k (last_of clients l.params)) count,
    )
