-- ===== src/Peer/Client.antt =====
-- PeerClient.cpp: what a peer says to the central server. Each method sends a text with its NUL and
-- reads answers. `sends` is whether send succeeds; what is printed is left out.
pub mod Shown
use s.Prelude.{ℕ, Bool, true, false, ◌||◌, Option, none, some, List, [], ◌∷◌, ◌++◌, if◌then◌else◌}
use s.Clib.{Text, codes, starts_with, c_string, strtok, decimal}
use s.Net.{Received, arrived, failed, with_nul}
use s.Peer.Files.{base_name}

-- The messages that a method sent on the connection, and whether it returns 0 or -1.
pub record Exchange : Type 0 where
  pub messages : List (List ℕ)
  pub success : Bool

-- The answer lies in a cleared buffer; its first bytes are compared.
unfoldable pub answers : Text → Received → Bool
answers prefix failed = false
answers prefix (arrived bytes) = starts_with (c_string bytes) prefix

-- One message and the test of its answer, the common end of the methods.
unfoldable pub exchange : Bool → Text → Text → Received → Exchange
unfolding answers
exchange sends message prefix reply =
    if sends
    then record { messages = with_nul message ∷ []; success = answers prefix reply }
    else record { messages = []; success = false }

-- connectToCServ: `makes` and `connects` are whether socket and connect succeed.
unfoldable pub connect_to_server : Bool → Bool → Bool → Received → Exchange
unfolding exchange
connect_to_server makes connects sends reply =
    if makes
    then (if connects
        then exchange sends (codes "CONNECT") (codes "ACCEPT") reply
        else record { messages = []; success = false })
    else record { messages = []; success = false }

-- The texts of the requests.
unfoldable pub add_text : Text → Text → ℕ → Text
add_text file_name hash_value file_size =
    codes "ADD " ++ (file_name ++ (codes " " ++ (hash_value ++ (codes " " ++ decimal file_size))))

unfoldable pub delete_text : Text → Text → Text
delete_text file_name hash_value = codes "DELETE " ++ (file_name ++ (codes " " ++ hash_value))

unfoldable pub request_text : Text → Text
request_text name = codes "REQUEST " ++ name

-- addFile: `size` is the length that ftell tells, or none if the file cannot be opened, and
-- `hash_value` is what getFileHash returns.
unfoldable pub add_file : Text → Option ℕ → Text → Bool → Received → Exchange
unfolding exchange
add_file file_path none hash_value sends reply = record { messages = []; success = false }
add_file file_path (some file_size) hash_value sends reply =
    exchange sends (add_text file_path hash_value file_size) (codes "OK") reply

unfoldable pub delete_file : Text → Text → Bool → Received → Exchange
unfolding exchange
delete_file file_path hash_value sends reply =
    exchange sends (delete_text file_path hash_value) (codes "OK") reply

unfoldable pub quit_from_server : Bool → Received → Exchange
unfolding exchange
quit_from_server sends reply = exchange sends (codes "QUIT") (codes "GOODBYE") reply

-- find("ERROR") of a text.
unfoldable pub contains : Text → Text → Bool
contains [] word = starts_with [] word
contains (c ∷ t) word = starts_with (c ∷ t) word || contains t word

-- What showFileList has shown: names and sizes. It ended with 0 or -1, or waits for an answer.
pub data Listing : Type 0 where
  finished : List (Text × Text) → Bool → Listing
  waiting : List (Text × Text) → Listing

abbrev shown_first : Text × Text → Listing → Listing
shown_first item (finished items success) = finished (item ∷ items) success
shown_first item (waiting items) = waiting (item ∷ items)

-- The two words of an answer; `none` where either is missing.
unfoldable pub item_size : Text → Option (Text × Text) → Option (Text × Text)
item_size name none = none
item_size name (some (size, rest)) = some (base_name name, size)

unfoldable pub item_words : Option (Text × Text) → Option (Text × Text)
item_words none = none
item_words (some (name, rest)) = item_size name (strtok rest)

unfoldable pub listed_item : Text → Option (Text × Text)
listed_item message = item_words (strtok message)

unfoldable pub show_item : Option (Text × Text) → Listing → Listing
show_item none rest = finished [] false
show_item (some item) rest = shown_first item rest

unfoldable pub list_loop : List Received → Listing
unfolding show_item
list_loop [] = waiting []
list_loop (failed ∷ rs) = finished [] false
list_loop (arrived bytes ∷ rs) =
    let message = c_string bytes in
    let rest = list_loop rs in
    if starts_with message (codes "OK")
    then finished [] true
    else if contains message (codes "ERROR")
    then finished [] false
    else show_item (listed_item message) rest

unfoldable pub show_file_list : Bool → List Received → List (List ℕ) × Listing
show_file_list sends rs =
    if sends then (with_nul (codes "LIST") ∷ [], list_loop rs) else ([], finished [] false)

-- closeSession: the sockets closed, and what it returns. What closesocket returns is not looked at.
unfoldable pub close_session : ℕ → List ℕ → List ℕ × ℕ
close_session socket closed = (closed ++ socket ∷ [], 0)
