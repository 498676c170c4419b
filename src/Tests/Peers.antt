-- ===== src/Tests/Peers.antt =====
-- The theorems about the peer's files, client, menu and server.
use s.Prelude.{
  Option, none, ◌==◌, ◌≢◌, Bool-cases, ap, ◌∙◌, inl, inr, if◌then◌else◌, ℕ, ◌≤◌, ◌<◌, ◌≡◌, refl,
  true, false, some, List, [], ◌∷◌, replicate, get_or, arith,
}
use s.Clib.{Text, codes}
use s.Net.{arrived, with_nul}
use s.Outcome.{Holds, ok, err, endless}
use s.Peer.Files.{saved, recv_file}
use s.Peer.Files.Transfer.{recv_file-saved}
use s.Peer.Menu.{connect, quit, start, called, choose, typed, menu}
use s.Peer.Menu.Protocol.{follow, menu-follow, menu-no_number}
use s.Peer.Serving.{Serving, Arrival, gone, message, visit, round}
use s.Peer.Serving.Rounds.{FreshSockets}
use s.Peer.Serving.Answering.{worker_thread, worker_thread-Ends}
use s.Peer.Serving.Table.{visit-listener}
use s.Peer.Serving.Sweep.{Deals}
use s.Peer.Serving.Dues.{round-Deals}

abbrev name : Text
name = codes "a.mp3"

abbrev full_piece : List ℕ
full_piece = replicate 1024 7

recv_file-saved_example :
    recv_file
      (some (1 ∷ 2 ∷ 3 ∷ 4 ∷ []))
      (arrived (with_nul name) ∷ arrived (8 ∷ 9 ∷ []) ∷ arrived (5 ∷ []) ∷ [])
    ≡ ok (saved name (8 ∷ 9 ∷ 3 ∷ 4 ∷ []))
recv_file-saved_example =
    recv_file-saved (1 ∷ 2 ∷ 3 ∷ 4 ∷ []) name [] (8 ∷ 9 ∷ []) (arrived (5 ∷ []) ∷ []) (grind arith)
      (omega arith) tt (omega arith)

menu-follow_example :
    (follow (some false) (connect ∷ quit ∷ []) ≡ some false)
    × (false ≡ false → follow (some false) (connect ∷ quit ∷ []) ≡ some false)
menu-follow_example =
    menu-follow ((some 1, []) ∷ (some 1, []) ∷ (some 7, []) ∷ [])
      (record { logged = false; flag = false; good = true; calls = connect ∷ quit ∷ [] })
      (unfold menu typed choose called in refl)

menu-no_number_example :
    menu ((none, []) ∷ (some 7, []) ∷ []) start ≡ ok (record start { good = false })
menu-no_number_example = menu-no_number [] ((some 7, []) ∷ []) start refl

abbrev table : Serving
table = record { sockets = 3 ∷ 4 ∷ []; closed = []; asked = [] }

visit-listener_example :
    ((i : ℕ) (a : Arrival)
      → 1 ≤ i
      → i < 2
      → Holds (λ (r : ℕ × Serving). get_or r.1.sockets 0 0 ≡ 3) (visit i a table))
    × ((client : ℕ)
        → visit 0 (record { accepted = some client; heard = gone }) table
          ≡ ok (0, record { sockets = client ∷ 4 ∷ []; closed = client ∷ []; asked = [] }))
visit-listener_example = visit-listener 3 (4 ∷ []) table refl (omega arith)

-- Only the listening socket is ready, and accept returns the socket 9.
abbrev only_listener : ℕ → Option Arrival
only_listener socket =
    if socket == 3 then some (record { accepted = some 9; heard = gone }) else none

abbrev accepted_by : Option Arrival → Option ℕ
accepted_by none = none
accepted_by (some a) = a.accepted

client_nine : (client : ℕ) → some 9 ≡ some client → only_listener client ≡ none
client_nine client e = let nine : client ≡ 9 = grind (arith, e) in ap only_listener nine

only_listener-FreshSockets : FreshSockets only_listener
only_listener-FreshSockets socket client a e f = elim (Bool-cases (socket == 3)) [
  | inl yes' ↦ client_nine client (ap accepted_by (rw yes' at e) ∙ f)
  | inr no' ↦ absurd (grind (arith, rw no' at e))
]

worker_thread-Ends_example :
    worker_thread 66 (only_listener ∷ only_listener ∷ []) table ≢ err endless
worker_thread-Ends_example =
    worker_thread-Ends 66 (only_listener ∷ only_listener ∷ []) table (omega arith) (omega arith)
      (only_listener-FreshSockets, (only_listener-FreshSockets, tt))

-- Four sockets, of which two are gone and the last one asks for a file.
abbrev busy_table : Serving
busy_table = record { sockets = 3 ∷ 4 ∷ 5 ∷ 6 ∷ []; closed = []; asked = [] }

abbrev busy : ℕ → Option Arrival
busy socket =
    if socket == 3
    then some (record { accepted = some 9; heard = message (codes "E:/b.mp3") })
    else if socket == 4
    then some (record { accepted = none; heard = gone })
    else if socket == 6
    then some (record { accepted = none; heard = message name })
    else none

busy-nine : (socket client : ℕ) → accepted_by (busy socket) ≡ some client → client ≡ 9
busy-nine socket client e = ground (arith, e)

busy-FreshSockets : FreshSockets busy
busy-FreshSockets socket client a e f =
    let nine = busy-nine socket client (ap accepted_by e ∙ f) in ap busy nine

round-Deals_example :
    Deals
      ((9, message (codes "E:/b.mp3")) ∷ (4, gone) ∷ (6, message name) ∷ [])
      busy_table
      (round 6 0 busy busy_table)
round-Deals_example =
    round-Deals 6 busy 3 (4 ∷ 5 ∷ 6 ∷ []) busy_table refl (omega arith) (omega arith)
      busy-FreshSockets
      (λ a e none_came. let bad : some 9 ≡ none = ap accepted_by e ∙ none_came in cc)
