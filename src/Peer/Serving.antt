-- ===== src/Peer/Serving.antt =====
-- PeerServer.cpp: the peer's own server, one thread that waits with select for its sockets and
-- sends the file that is asked for.
pub mod Table
pub mod Rounds
pub mod Answering
pub mod Opening
pub mod News
pub mod Sweep
pub mod Dues
use s.Prelude.{
  ℕ, zero, suc, ◌+◌, ◌-◌, Bool, Option, none, some, List, [], ◌∷◌, ◌++◌, length, take, get_or, set,
  ltb, ◌==◌, if◌then◌else◌,
}
use s.Clib.{Text}
use s.Peer.Winsock.{Start, started, no_library, wrong_version}
use s.Outcome.{Result, ok, err, overflow, endless, ◌>>=◌}

-- FD_SETSIZE of Winsock, the length of g_SocketArr.
abbrev pub fd_setsize : ℕ
fd_setsize = 64

-- The first g_iTotalConn sockets of g_SocketArr, the sockets closed, and the files asked for by
-- path, in order.
pub record Serving : Type 0 where
  pub sockets : List ℕ
  pub closed : List ℕ
  pub asked : List (ℕ × Text)

-- What recv tells of a socket: closed or reset by the peer, or a message. After another error the
-- message is what the buffer held before.
pub data Heard : Type 0 where
  gone : Heard
  message : Text → Heard

-- What happens at a socket that is ready: at the first, accept comes first, and may fail.
pub record Arrival : Type 0 where
  pub accepted : Option ℕ
  pub heard : Heard

-- INVALID_SOCKET, a number that is no socket.
abbrev pub invalid_socket : ℕ
invalid_socket = 4294967295

-- accept at the first place: the socket that is then handled.
unfoldable pub accept_first : Option ℕ → Serving → Result (ℕ × Serving)
accept_first none p = ok (invalid_socket, p)
accept_first (some client) p =
    if ltb (length p.sockets) fd_setsize
    then ok (client, record p { sockets = p.sockets ++ client ∷ [] })
    else err overflow

-- Closing: the last socket takes the place `i`, unless `i` is the last place itself.
unfoldable pub remove_at : ℕ → List ℕ → List ℕ
remove_at i sockets =
    let last = length sockets - 1 in
    if ltb i last then take last (set sockets i (get_or sockets last 0)) else take last sockets

-- The place that the loop goes on with, and the state: after a close the same place once more.
unfoldable pub handle : ℕ → Heard → ℕ → Serving → ℕ × Serving
handle socket gone i p =
    (i, record p { sockets = remove_at i p.sockets; closed = p.closed ++ socket ∷ [] })
handle socket (message path) i p = (i + 1, record p { asked = p.asked ++ (socket, path) ∷ [] })

-- One ready socket of the inner loop.
unfoldable pub visit : ℕ → Arrival → Serving → Result (ℕ × Serving)
visit i a p =
    if i == 0
    then (do (socket, p') ← accept_first a.accepted p; ok (handle socket a.heard i p'))
    else ok (handle (get_or p.sockets i 0) a.heard i p)

-- FD_ISSET: a place that is not ready is passed over.
unfoldable pub if_ready :
    Option Arrival → Result Serving → (Arrival → Result Serving) → Result Serving
if_ready none skip busy = skip
if_ready (some a) skip busy = busy a

-- The inner loop from the place `i`; `ready` is the set that select left, with what happens at each
-- of its sockets. The fuel counts the rounds.
unfoldable pub round : ℕ → ℕ → (ℕ → Option Arrival) → Serving → Result Serving
round zero i ready p = err endless
round (suc fuel) i ready p =
    let skip = round fuel (i + 1) ready p in
    let busy = λ (a : Arrival). (visit i a p >>= λ next. round fuel next.0 ready next.1) in
    if ltb i (length p.sockets) then if_ready (ready (get_or p.sockets i 0)) skip busy else ok p

-- The constructor behind the start of Winsock: the listening socket is put in the table if bind
-- succeeds; if listen fails it is closed, and stays there.
unfoldable pub opened : ℕ → Bool → Bool → Serving
opened socket binds listens = record {
  sockets = if binds then socket ∷ [] else [];
  closed = if listens then [] else socket ∷ [];
  asked = [];
}

-- Without Winsock the constructor returns, and the table is empty.
unfoldable pub construct : Start → ℕ → Bool → Bool → Serving
unfolding opened
construct started socket binds listens = opened socket binds listens
construct no_library socket binds listens = record { sockets = []; closed = []; asked = [] }
construct wrong_version socket binds listens = record { sockets = []; closed = []; asked = [] }

-- The destructor closes every socket of the table.
unfoldable pub shut_down : Serving → Serving
shut_down p = record p { closed = p.closed ++ p.sockets }
