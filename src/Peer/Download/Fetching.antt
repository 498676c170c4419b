-- ===== src/Peer/Download/Fetching.antt =====
-- A file that the server knows to be at some peers, as getFile fetches it from each.
use s.Prelude.{
  ℕ, ◌<◌, ◌≡◌, ◌∙◌, refl, ap, true, false, some, List, [], ◌∷◌, ◌++◌, map, length, drop, All, arith,
}
use s.Clib.{Text, codes, starts_with, c_string, strtok}
use s.Clib.Strings.{Avoids, IsWord, c_string_self, strtok_blank, strtok_last}
use s.Net.{Received, arrived, with_nul, map-arrived}
use s.Outcome.{ok}
use s.Peer.Files.{saved, mbstowcs}
use s.Peer.Files.Transfer.{AllFull, concatenated, recv_file-saved}
use s.Peer.Client.{contains, request_text}
use s.Peer.Download.{
  third_word, second_word, source_of, Visit, Fetch, save_path_of, visit, finished, after_fetch,
  after_visit, get_loop, get_file,
}
use s.Server.Sqlite.{Sqlite}
use s.Server.Queries.{request_query}
use s.Server.Commands.{command_of}
use s.Server.Replies.{ok_line}
use s.Server.Session.{World, handle, request_line}
use s.Server.Session.Listing.{Selects, request_answers}

-- A peer that has the file: its row at the server, the folder that the user names for it, the file
-- that stands at the path, and what the peer sends: a name, full pieces, and a last one.
pub record Holder : Type 0 where
  pub file_path : Text
  pub peer_ip : Text
  pub f_size : Text
  pub folder : Text
  pub old : List ℕ
  pub sent_name : Text
  pub full : List (List ℕ)
  pub last : List ℕ

abbrev pub row_line : Holder → Text
row_line h = h.file_path ++ 32 ∷ (h.peer_ip ++ 32 ∷ h.f_size)

-- The row is made of words without NUL, and its line neither begins with OK nor contains ERROR; the
-- path for the file fits its buffer, and the name is one that recvFile can read.
pub record CanServe (name : Text) (h : Holder) : Type 0 where
  pub path_word : IsWord h.file_path
  pub ip_word : IsWord h.peer_ip
  pub size_word : IsWord h.f_size
  pub no_nul : Avoids 0 (row_line h)
  pub not_ok : starts_with (row_line h) (codes "OK") ≡ false
  pub not_error : contains (row_line h) (codes "ERROR") ≡ false
  pub path_fits : length (h.folder ++ (codes "/" ++ name)) < 1024
  pub name_plain : Avoids 0 h.sent_name
  pub name_fits : length h.sent_name < 1024
  pub all_full : AllFull h.full
  pub last_short : length h.last < 1024

-- The user names the folder, every call on the new connection succeeds, and the pieces arrive.
abbrev pub visit_of : Holder → Visit
visit_of h = record {
  folder = h.folder;
  makes = true;
  connects = true;
  sends = true;
  old = some h.old;
  pieces = arrived (with_nul h.sent_name) ∷ (map (λ p. arrived p) h.full ++ arrived h.last ∷ []);
}

abbrev pub content_of : Holder → List ℕ
content_of h = concatenated h.full ++ h.last

-- What getFile does for it: it asks for the path at the server's row, and saves the content.
abbrev pub fetch_of : Text → Holder → Fetch
fetch_of name h = record {
  peer_ip = h.peer_ip;
  message = with_nul h.file_path;
  save_path = mbstowcs (h.folder ++ (codes "/" ++ name));
  receipt = saved h.sent_name (content_of h ++ drop (length (content_of h)) h.old);
}

source_of-row :
    (name : Text) (h : Holder)
    → CanServe name h
    → source_of (strtok (row_line h))
      ≡ ok (record { file_path = h.file_path; peer_ip = h.peer_ip; f_size = h.f_size })
source_of-row name h c =
    unfold source_of second_word third_word in
    ap source_of (strtok_blank h.file_path (h.peer_ip ++ 32 ∷ h.f_size) c.path_word)
    ∙ (ap (second_word h.file_path) (strtok_blank h.peer_ip h.f_size c.ip_word)
        ∙ ap (third_word h.file_path h.peer_ip) (strtok_last h.f_size c.size_word))

visit-fetch :
    (name : Text) (h : Holder)
    → CanServe name h
    → visit name
        (record { file_path = h.file_path; peer_ip = h.peer_ip; f_size = h.f_size })
        (visit_of h)
      ≡ ok (some (fetch_of name h))
visit-fetch name h c =
    let path : save_path_of h.folder name ≡ ok (h.folder ++ (codes "/" ++ name)) =
      unfold save_path_of in ground (arith, c.path_fits) in
    unfold visit in
    rw
      (
        path,
        recv_file-saved h.old h.sent_name h.full h.last [] c.name_plain c.name_fits c.all_full
            c.last_short,
      )
      refl

get_loop-row :
    (name : Text) (h : Holder) (rs : List Received) (vs : List Visit) (fs : List Fetch)
    → CanServe name h
    → get_loop name rs vs ≡ ok (finished fs true)
    → get_loop name (arrived (row_line h) ∷ rs) (visit_of h ∷ vs)
      ≡ ok (finished (fetch_of name h ∷ fs) true)
get_loop-row name h rs vs fs c again =
    unfold get_loop in
    rw
      (
        c_string_self (row_line h) c.no_nul,
        c.not_error,
        c.not_ok,
        source_of-row name h c,
        visit-fetch name h c,
        again,
      )
      (unfold after_visit after_fetch in refl)

get_loop-rows :
    (name : Text) (hs : List Holder)
    → All (CanServe name) hs
    → get_loop name (map (λ h. arrived (row_line h)) hs ++ arrived ok_line ∷ []) (map visit_of hs)
      ≡ ok (finished (map (fetch_of name) hs) true)
get_loop-rows name [] c = unfold get_loop contains c_string starts_with in refl
get_loop-rows name (h ∷ hs) c =
    get_loop-row name h _ _ (map (fetch_of name) hs) c.0 (get_loop-rows name hs c.1)

-- A peer that asks for a file and gets each of the server's lines by one recv fetches the file from
-- every peer that SQLite selects, in order, and returns 0: it asks each for the path of its row and
-- saves what arrives over the start of the file at the path. The name is a word whose statement
-- fits its buffer, nothing was sent before, there are fewer rows than steps allowed, each line fits
-- the server's buffer of 512 bytes, and each peer can serve.
pub get_file-fetched :
    (q : Sqlite) (fuel : ℕ) (peer name : Text) (hs : List Holder) (w : World q)
    → w.sent ≡ []
    → IsWord name
    → length (request_query name) < 256
    → length (map row_line hs) < fuel
    → Selects q (request_line q) w.db (q.prepare w.db (request_query name)) (map row_line hs)
    → All (CanServe name) hs
    → (w' : World q) × (handle q fuel peer (command_of (request_text name)) (request_text name) w
        ≡ ok w')
      × (get_file name true (map (λ t. arrived t) w'.sent) (map visit_of hs)
          ≡ ok (with_nul (request_text name) ∷ [], finished (map (fetch_of name) hs) true))
get_file-fetched q fuel peer name hs w unsent word fits h sel serve =
    let answer = request_answers q fuel peer name (map row_line hs) w word fits h sel in
    let lines = map row_line hs ++ ok_line ∷ [] in
    let sent : answer.0.sent ≡ lines = answer.2 ∙ ap (λ s. s ++ lines) unsent in
    let loop : get_loop name (map (λ t. arrived t) answer.0.sent) (map visit_of hs)
        ≡ ok (finished (map (fetch_of name) hs) true) =
      ap (λ s. get_loop name (map (λ t. arrived t) s) (map visit_of hs)) sent
      ∙ (ap (λ rs. get_loop name rs (map visit_of hs)) (map-arrived row_line hs ok_line)
          ∙ get_loop-rows name hs serve) in
    (answer.0, answer.1, unfold get_file in rw loop refl)
