-- ===== src/Peer/Download.antt =====
-- PeerClient.cpp, getFile: asking the server who has a file, and fetching it from each peer named.
pub mod Fetching
use s.Prelude.{
  ℕ, Bool, true, false, ◌&&◌, Option, none, some, List, [], ◌∷◌, ◌++◌, length, ltb, if◌then◌else◌,
}
use s.Clib.{Text, codes, starts_with, c_string, strtok}
use s.Net.{Received, arrived, failed, with_nul}
use s.Outcome.{Result, ok, err, overflow, null_read, ◌>>=◌}
use s.Peer.Files.{
  max_file_len, Receipt, not_opened, saved, unfinished, recv_file, WidePath, mbstowcs,
}
use s.Peer.Client.{request_text, contains}

-- The words of an answer of the server.
pub record Source : Type 0 where
  pub file_path : Text
  pub peer_ip : Text
  pub f_size : Text

-- strtok three times. What is printed of a word that is missing is a read through NULL.
unfoldable pub third_word : Text → Text → Option (Text × Text) → Result Source
third_word path ip none = err null_read
third_word path ip (some (size, rest)) =
    ok (record { file_path = path; peer_ip = ip; f_size = size })

unfoldable pub second_word : Text → Option (Text × Text) → Result Source
second_word path none = err null_read
second_word path (some (ip, rest)) = third_word path ip (strtok rest)

unfoldable pub source_of : Option (Text × Text) → Result Source
source_of none = err null_read
source_of (some (path, rest)) = second_word path (strtok rest)

-- What the user and the other peer do for one answer: the folder typed in, whether socket, connect
-- and send succeed, the file at the path before (none if it cannot be opened), and the results of
-- recv on the new connection.
pub record Visit : Type 0 where
  pub folder : Text
  pub makes : Bool
  pub connects : Bool
  pub sends : Bool
  pub old : Option (List ℕ)
  pub pieces : List Received

-- What one visit did: the peer, the message sent to it, the path that recvFile saves the file at,
-- after mbstowcs, and what it did.
pub record Fetch : Type 0 where
  pub peer_ip : Text
  pub message : List ℕ
  pub save_path : WidePath
  pub receipt : Receipt

-- The path in a buffer of MAX_FILE_LEN bytes.
unfoldable pub save_path_of : Text → Text → Result Text
save_path_of folder name =
    let path = folder ++ (codes "/" ++ name) in
    if ltb (length path) max_file_len then ok path else err overflow

-- `none` where the method returns -1.
unfoldable pub visit : Text → Source → Visit → Result (Option Fetch)
visit name source v = do
  path ← save_path_of v.folder name
  if v.makes && (v.connects && v.sends)
      then (do
        receipt ← recv_file v.old v.pieces
        ok (
            some (record {
              peer_ip = source.peer_ip;
              message = with_nul source.file_path;
              save_path = mbstowcs path;
              receipt = receipt;
            })))
      else ok none

-- The loop: its fetches in order, and whether it returned 0 or -1, or waits.
pub data Fetched : Type 0 where
  finished : List Fetch → Bool → Fetched
  waiting : List Fetch → Fetched

abbrev fetched_first : Fetch → Fetched → Fetched
fetched_first f (finished fs success) = finished (f ∷ fs) success
fetched_first f (waiting fs) = waiting (f ∷ fs)

-- A transfer that waits keeps the method waiting.
unfoldable pub after_fetch : Receipt → Fetch → Result Fetched → Result Fetched
after_fetch unfinished f rest = ok (waiting (f ∷ []))
after_fetch not_opened f rest = do fs ← rest; ok (fetched_first f fs)
after_fetch (saved name content) f rest = do fs ← rest; ok (fetched_first f fs)

unfoldable pub after_visit : Option Fetch → Result Fetched → Result Fetched
after_visit none rest = ok (finished [] false)
after_visit (some f) rest = after_fetch f.receipt f rest

unfoldable pub get_loop : Text → List Received → List Visit → Result Fetched
get_loop name [] vs = ok (waiting [])
get_loop name (failed ∷ rs) vs = ok (finished [] false)
get_loop name (arrived bytes ∷ rs) [] =
    let message = c_string bytes in
    if contains message (codes "ERROR")
    then ok (finished [] false)
    else if starts_with message (codes "OK")
    then ok (finished [] true)
    else (do source ← source_of (strtok message); ok (waiting []))
get_loop name (arrived bytes ∷ rs) (v ∷ vs) =
    let message = c_string bytes in
    let rest = get_loop name rs vs in
    if contains message (codes "ERROR")
    then ok (finished [] false)
    else if starts_with message (codes "OK")
    then ok (finished [] true)
    else (do
      source ← source_of (strtok message)
      fetch ← visit name source v
      after_visit fetch rest)

unfoldable pub get_file :
    Text → Bool → List Received → List Visit → Result (List (List ℕ) × Fetched)
get_file name sends rs vs =
    if sends
    then (do fetched ← get_loop name rs vs; ok (with_nul (request_text name) ∷ [], fetched))
    else ok ([], finished [] false)
