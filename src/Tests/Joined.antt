-- ===== src/Tests/Joined.antt =====
-- The theorems that join parts of the peer, and the peer with the server.
use s.Prelude.{◌<◌, ◌≡◌, refl, true, false, if◌then◌else◌, none, some, [], ◌∷◌, length, All, arith}
use s.Prelude.Int.{pos}
use s.Clib.{Text, codes, text_eq, c_string, decimal}
use s.Net.{arrived, with_nul}
use s.Outcome.{Holds, ok}
use s.Server.Session.{World}
use s.Server.Messages.{is_kept}
use s.Server.Messages.Reading.{IsPlain}
use s.Peer.Client.{add_text}
use s.Peer.Files.{saved, base_name, Disk, mbstowcs}
use s.Peer.Download.{Source, visit}
use s.Peer.Serving.Answering.{Transfer, answer_request}
use s.Peer.Passing.{visit-answer_request}
use s.Peer.Menu.{Menu, connect, add, menu, typed, choose, called, with_path, read_path}
use s.Peer.Menu.Login.{Details, message_of, Served, hear, menu-Served}
use s.Tests.Memory.{memory}

abbrev source : Source
source = record { file_path = codes "E:/a.mp3"; peer_ip = codes "10.0.0.7"; f_size = codes "2" }

-- A disk with one file.
disk : Disk
unfolding text_eq
disk =
    let file =
      λ (path : Text). (if text_eq path (codes "E:/a.mp3") then some (8 ∷ 9 ∷ []) else none) in
    record { by_bytes = file; by_wide = λ path. file path.units }

abbrev junk : Transfer
junk = record { socket = 0; manage = record { file_name = []; file_length = 0; path = [] } }

visit-answer_request_example :
    (answer_request disk true true junk 7 (c_string (with_nul source.file_path))
      ≡ ok (
        7,
        record { wire = with_nul (base_name source.file_path) ∷ (8 ∷ 9 ∷ []) ∷ []; success = true },
      ))
    × (visit (codes "a.mp3") source (record {
      folder = codes "D:";
      makes = true;
      connects = true;
      sends = true;
      old = some [];
      pieces = arrived (with_nul (base_name source.file_path)) ∷ arrived (8 ∷ 9 ∷ []) ∷ [];
    })
        ≡ ok (
            some (record {
              peer_ip = source.peer_ip;
              message = with_nul source.file_path;
              save_path = mbstowcs (codes "D:/a.mp3");
              receipt = saved (base_name source.file_path) (8 ∷ 9 ∷ []);
            })))
visit-answer_request_example =
    visit-answer_request disk junk 7 (codes "a.mp3") source (codes "D:") [] (8 ∷ 9 ∷ [])
      (unfold disk mbstowcs in refl) (grind arith) (omega arith) (omega arith) tt (omega arith)

abbrev details : Text → Details
details path = record { hash_value = codes "98284D42"; file_size = 2 }

abbrev world : World memory
world = record { db = []; c_count = pos 1; sent = []; closed = false }

abbrev logged_in : Menu
logged_in = record {
  logged = true;
  flag = true;
  good = true;
  calls = connect ∷ add (codes "a") ∷ [];
}

messages-arrive :
    All
      (λ c. IsPlain (message_of details c) × (length (message_of details c) < 512))
      (connect ∷ add (codes "a") ∷ [])
unfolding message_of add_text is_kept decimal
messages-arrive = grind arith

menu-Served_example :
    Holds
      (λ last. Served memory 9 (codes "10.0.0.7") details true last.0)
      (hear memory 9 (codes "10.0.0.7") details (connect ∷ add (codes "a") ∷ []) none world)
menu-Served_example =
    menu-Served memory 9 (codes "10.0.0.7") details ((some 1, []) ∷ (some 2, codes "a") ∷ [])
      logged_in world (unfold menu typed choose called with_path read_path in refl) messages-arrive
