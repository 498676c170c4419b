-- ===== src/Server/Listen.antt =====
-- tcp_listen and the thread pool: connections are accepted by one thread and served by others. The
-- listener keeps what it accepted in one local variable, `params`, and gives every job its address;
-- a worker reads it when the job starts. The pool is a library: jobs start at some later time.
pub mod Handing
use s.Prelude.{
  ℕ, zero, suc, ◌+◌, ◌-◌, ◌*◌, Bool, true, ◌&&◌, Option, none, some, List, [], ◌∷◌, ◌++◌,
  if◌then◌else◌,
}
use s.Prelude.Int.{ℤ, pos, negsuc, ◌+ℤ◌, leb_ℤ, ltb_ℤ}
use s.Clib.{Text}
use s.Server.Replies.{overload_line}

-- p2p_t: the socket and the address of a client.
pub record Params : Type 0 where
  pub fd : ℕ
  pub ipaddr : Text

-- `queued` counts the jobs that wait, each with the address of `params`; `started` is what the
-- workers found there, `sent` what the listener itself sent.
pub record Listener : Type 0 where
  pub c_count : ℤ
  pub params : Params
  pub queued : ℕ
  pub started : List Params
  pub sent : List (ℕ × Text)
  pub stopped : Bool

-- count >= num_threads * 0.95: the rounding of the product never crosses a whole number, so the
-- test is the one on hundredths.
unfoldable pub hundredths : ℤ → ℤ
hundredths (pos n) = pos (n * 100)
hundredths (negsuc n) = negsuc (n * 100 + 99)

unfoldable pub nearly_full : ℤ → ℕ → Bool
unfolding hundredths
nearly_full count num_threads = leb_ℤ (pos (num_threads * 95)) (hundredths count)

-- A client more, and the warning to it when the pool is exhausted.
unfoldable pub admit : ℕ → Params → Listener → Listener
admit num_threads client l =
    let count = l.c_count +ℤ pos 1 in
    let l' : Listener = record l { c_count = count } in
    if nearly_full count num_threads && leb_ℤ count (pos num_threads)
    then l'
    else if ltb_ℤ (pos num_threads) count
    then record l' { sent = l.sent ++ (client.fd, overload_line) ∷ [] }
    else l'

-- One round of the listener: accept, and a new job. After an error it returns.
unfoldable pub listen_once : ℕ → Option Params → Listener → Listener
listen_once num_threads none l = record l { stopped = true }
listen_once num_threads (some client) l =
    let l' = admit num_threads client l in record l' { params = client; queued = l'.queued + 1 }

-- A worker takes a job and copies what its argument points to.
unfoldable pub start_job : Listener → Listener
start_job l = record l { queued = l.queued - 1; started = l.started ++ l.params ∷ [] }

-- What happens next: accept returns, or a worker starts a waiting job.
pub data Event : Type 0 where
  accepts : Option Params → Event
  starts : Event

-- With no job in the queue the workers wait.
unfoldable pub start_waiting : ℕ → Listener → Listener
unfolding start_job
start_waiting zero l = l
start_waiting (suc n) l = start_job l

unfoldable pub happens : ℕ → Event → Listener → Listener
happens num_threads (accepts client) l = if l.stopped then l else listen_once num_threads client l
happens num_threads starts l = start_waiting l.queued l

unfoldable pub events : ℕ → List Event → Listener → Listener
events num_threads [] l = l
events num_threads (e ∷ es) l = events num_threads es (happens num_threads e l)
