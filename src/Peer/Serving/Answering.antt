-- ===== src/Peer/Serving/Answering.antt =====
-- PeerServer.cpp, workerThread: its outer loop, and the file that it sends for a message; with
-- setSocket of FileManage.cpp.
use s.Prelude.{ℕ, Bool, ◌≤◌, ◌<◌, ◌≢◌, Option, none, some, List, [], ◌∷◌, length, All, arith}
use s.Clib.{Text}
use s.Outcome.{Result, ok, err, endless, Holds, ◌>>=◌}
use s.Peer.Files.{FileManage, fresh, read_file, Sending, send_file, Disk, mbstowcs}
use s.Peer.Serving.{Serving, Arrival, round}
use s.Peer.Serving.Table.{round-InBounds}
use s.Peer.Serving.Rounds.{Ends, FreshSockets, round-Ends}

-- A FileManage with its member `socket`.
pub record Transfer : Type 0 where
  pub socket : ℕ
  pub manage : FileManage

unfoldable pub set_socket : ℕ → Transfer → Transfer
set_socket skt t = record t { socket = skt }

abbrev pub size_of : Option (List ℕ) → Option ℕ
size_of none = none
size_of (some content) = some (length content)

-- The three calls for a message: setSocket, readFile and sendFile; `junk` is what the
-- members of the FileManage hold before. readFile opens the path by fopen, and sendFile by CreateFile
-- after mbstowcs. The result is the socket with what was put on it.
unfoldable pub answer_request : Disk → Bool → Bool → Transfer → ℕ → Text → Result (ℕ × Sending)
unfolding set_socket
answer_request disk sends transmits junk socket path =
    let t = set_socket socket (record junk { manage = fresh junk.manage.path }) in
    do
      manage ← read_file path (size_of (disk.by_bytes path)) t.manage
      ok (t.socket, send_file sends transmits (disk.by_wide (mbstowcs manage.path)) manage)

-- The outer loop, once for each return of select, with the set that it leaves.
unfoldable pub worker_thread : ℕ → List (ℕ → Option Arrival) → Serving → Result Serving
worker_thread fuel [] p = ok p
worker_thread fuel (ready ∷ rest) p = do p' ← round fuel 0 ready p; worker_thread fuel rest p'

Ends-bind :
    (few : Serving → Type 0) (m : Result Serving) (f : Serving → Result Serving)
    → Ends m
    → Holds few m
    → ((p : Serving) → few p → Ends (f p))
    → Ends (m >>= f)
Ends-bind few (ok p) f ends h k = k p h
Ends-bind few (err e) f ends h k = λ same. ends (cc)

-- With a table of at most 64 sockets, no round of the outer loop is cut off by fuel above 65, however
-- often select returns, if sockets that accept returns are not in the sets that select leaves.
pub worker_thread-Ends :
    (fuel : ℕ) (sets : List (ℕ → Option Arrival)) (p : Serving)
    → 65 < fuel
    → length p.sockets ≤ 64
    → All FreshSockets sets
    → worker_thread fuel sets p ≢ err endless
unfolding worker_thread
worker_thread-Ends fuel [] p enough few new = λ e. cc
worker_thread-Ends fuel (ready ∷ rest) p enough few new =
    Ends-bind (λ p'. length p'.sockets ≤ 64) (round fuel 0 ready p) _
      (round-Ends fuel ready p new.0 (omega arith)) (round-InBounds fuel 0 ready p few)
      (λ p' h. worker_thread-Ends fuel rest p' enough h new.1)
