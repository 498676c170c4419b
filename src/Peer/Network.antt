-- ===== src/Peer/Network.antt =====
-- A server and several peers together: from a request to the files of those who have them.
use s.Prelude.{
  ℕ, ◌<◌, ◌≡◌, ◌∙◌, sym, ap, true, some, List, [], ◌∷◌, ◌++◌, map, length, drop, drop-all,
  append-nil, All, arith,
}
use s.Clib.{Text, c_string}
use s.Clib.Strings.{Avoids, IsWord}
use s.Net.{arrived, with_nul}
use s.Outcome.{ok}
use s.Peer.Files.{base_name, saved, Disk, mbstowcs}
use s.Peer.Client.{request_text}
use s.Peer.Download.{finished, get_file}
use s.Peer.Download.Fetching.{
  Holder, CanServe, row_line, visit_of, content_of, fetch_of, get_file-fetched,
}
use s.Peer.Passing.{answer_request-wire}
use s.Peer.Serving.Answering.{Transfer, answer_request}
use s.Server.Sqlite.{Sqlite}
use s.Server.Queries.{request_query}
use s.Server.Commands.{command_of}
use s.Server.Session.{World, handle, request_line}
use s.Server.Session.Listing.{Selects}

-- The disks of the peers, by their addresses.
abbrev pub Disks : Type 0
Disks = Text → Disk

-- CreateFile finds the file of a peer at the path of its row, and what arrives is the name and the content that it
-- sends; where the file is saved there was none.
pub record Keeps (disks : Disks) (h : Holder) : Type 0 where
  pub on_disk : (disks h.peer_ip).by_wide (mbstowcs h.file_path) ≡ some (content_of h)
  pub named : h.sent_name ≡ base_name h.file_path
  pub unsaved : h.old ≡ []
  pub path_plain : Avoids 0 h.file_path
  pub path_short : length h.file_path < 1024

-- What the peer of a row answers, and what the peer that asked saves.
abbrev pub Passed : Disks → Transfer → ℕ → Text → Holder → Type 0
Passed disks junk socket name h =
    (answer_request (disks h.peer_ip) true true junk socket (c_string (fetch_of name h).message)
      ≡ ok (socket, record { wire = with_nul h.sent_name ∷ content_of h ∷ []; success = true }))
    × ((fetch_of name h).receipt ≡ saved h.sent_name (content_of h))

Keeps-Passed :
    (disks : Disks) (junk : Transfer) (socket : ℕ) (name : Text) (h : Holder)
    → Keeps disks h
    → Passed disks junk socket name h
Keeps-Passed disks junk socket name h k =
    let content = content_of h in
    (
      answer_request-wire (disks h.peer_ip) junk socket h.file_path content k.on_disk k.path_plain
            k.path_short
          ∙ ap (λ n. ok (socket, record { wire = with_nul n ∷ content ∷ []; success = true }))
              (sym k.named),
      ap (λ old. saved h.sent_name (content ++ drop (length content) old)) k.unsaved
          ∙ ap (λ tail. saved h.sent_name (content ++ tail))
              (drop-all (length content) [] (omega arith))
          ∙ ap (saved h.sent_name) (append-nil content),
    )

All-Passed :
    (disks : Disks) (junk : Transfer) (socket : ℕ) (name : Text) (hs : List Holder)
    → All (Keeps disks) hs
    → All (Passed disks junk socket name) hs
All-Passed disks junk socket name [] k = tt
All-Passed disks junk socket name (h ∷ hs) k =
    (Keeps-Passed disks junk socket name h k.0, All-Passed disks junk socket name hs k.1)

-- A peer that asks the server for a file, and gets each of its lines by one recv, ends with a copy of
-- the file from each peer that SQLite selects, in order: its messages to them are answered by the
-- name and the content that CreateFile finds there, the bytes of the path taken as wide characters, and
-- these are what it saves. The name is a word whose
-- statement fits its buffer, nothing was sent before, there are fewer rows than steps allowed, each
-- line fits the server's buffer of 512 bytes, and each peer can serve (CanServe) and keeps the file
-- (Keeps).
pub get_file-Passed :
    (q : Sqlite) (disks : Disks) (junk : Transfer) (socket fuel : ℕ) (peer name : Text)
    (hs : List Holder) (w : World q)
    → w.sent ≡ []
    → IsWord name
    → length (request_query name) < 256
    → length (map row_line hs) < fuel
    → Selects q (request_line q) w.db (q.prepare w.db (request_query name)) (map row_line hs)
    → All (CanServe name) hs
    → All (Keeps disks) hs
    → ((w' : World q) × (handle q fuel peer (command_of (request_text name)) (request_text name) w
          ≡ ok w')
        × (get_file name true (map (λ t. arrived t) w'.sent) (map visit_of hs)
            ≡ ok (with_nul (request_text name) ∷ [], finished (map (fetch_of name) hs) true)))
      × All (Passed disks junk socket name) hs
get_file-Passed q disks junk socket fuel peer name hs w unsent word fits rows selects serve keep = (
  get_file-fetched q fuel peer name hs w unsent word fits rows selects serve,
  All-Passed disks junk socket name hs keep,
)
