-- ===== src/Tests/Exchanges.antt =====
-- The theorems about what a peer and the server, or two peers, do together.
use s.Prelude.{
  ◌≡◌, refl, true, false, ◌&&◌, All, none, some, [], ◌∷◌, ◌++◌, map, replicate, arith,
  if◌then◌else◌,
}
use s.Prelude.Int.{pos}
use s.Clib.{Text, codes, text_eq, starts_with, decimal}
use s.Net.{arrived, with_nul}
use s.Outcome.{ok, ◌>>=◌}
use s.Server.Messages.{is_kept, read_line}
use s.Peer.Client.{contains, finished, show_file_list}
use s.Peer.Client.Shown.{Entry, shown, IsReadable, show_file_list-shown}
use s.Peer.Client.{request_text, add_text, add_file}
use s.Peer.FileHash.{get_file_hash, hex_text}
use s.Peer.Sha1.Standard.{standard_hash}
use s.Peer.Sharing.{add_file-shared}
use s.Server.Replies.{ok_line}
use s.Peer.Download
use s.Peer.Download.{get_file}
use s.Peer.Download.Fetching.{Holder, CanServe, visit_of, content_of, fetch_of}
use s.Peer.Network.{Disks, Keeps, Passed, get_file-Passed}
use s.Peer.Files.{base_name, has_slash, mbstowcs}
use s.Peer.Serving.Answering.{Transfer}
use s.Server.Queries.{request_query}
use s.Server.Commands.{command_of}
use s.Server.Session.{World, handle, list_line, request_line}
use s.Tests.Memory.{memory, memory_table, always_done_insert, step, column_text, column_int}

abbrev song_entry : Entry
song_entry = (codes "E:/a.mp3", codes "4096")

abbrev stocked : World memory
stocked = record {
  db =
      record {
        filename = codes "E:/a.mp3";
        filehash = codes "98284D42";
        f_size = 4096;
        peeraddr = codes "10.0.0.9";
      }
      ∷ [];
  c_count = pos 1;
  sent = [];
  closed = false;
}

song_entry-IsReadable : IsReadable song_entry
song_entry-IsReadable = record {
  path_word = (λ e. cc, grind arith);
  size_word = (λ e. cc, grind arith);
  no_nul = grind arith;
  not_ok = unfold starts_with in refl;
  not_error = unfold contains starts_with in refl;
}

show_file_list-shown_example :
    (w' : World memory) × (handle memory 10
        (codes "10.0.0.7")
        (command_of (codes "LIST"))
        (codes "LIST")
        stocked
      ≡ ok w')
    × (show_file_list true (map (λ t. arrived t) w'.sent)
        ≡ (with_nul (codes "LIST") ∷ [], finished (map shown (song_entry ∷ [])) true))
show_file_list-shown_example =
    show_file_list-shown memory 10 (codes "10.0.0.7") (song_entry ∷ []) stocked refl (omega arith)
      (unfold list_line step column_text column_int decimal in (refl, refl, omega arith, refl))
      (song_entry-IsReadable, tt)

abbrev holder : Holder
holder = record {
  file_path = codes "E:/a.mp3";
  peer_ip = codes "10.0.0.9";
  f_size = codes "4096";
  folder = codes "D:";
  old = [];
  sent_name = codes "a.mp3";
  full = [];
  last = 8 ∷ 9 ∷ [];
}

holder-CanServe : CanServe (codes "a.mp3") holder
holder-CanServe = record {
  path_word = (λ e. cc, grind arith);
  ip_word = (λ e. cc, grind arith);
  size_word = (λ e. cc, grind arith);
  no_nul = grind arith;
  not_ok = unfold starts_with in refl;
  not_error = unfold contains starts_with in refl;
  path_fits = omega arith;
  name_plain = grind arith;
  name_fits = omega arith;
  all_full = tt;
  last_short = omega arith;
}

-- One peer with one file.
disks : Disks
unfolding text_eq
disks ip =
    let file = λ (path : Text).
      (if text_eq ip holder.peer_ip && text_eq path holder.file_path
        then some (content_of holder)
        else none) in
    record { by_bytes = file; by_wide = λ path. file path.units }

holder-Keeps : Keeps disks holder
unfolding disks base_name has_slash mbstowcs
holder-Keeps = record {
  on_disk = refl;
  named = refl;
  unsaved = refl;
  path_plain = grind arith;
  path_short = omega arith;
}

abbrev junk : Transfer
junk = record { socket = 0; manage = record { file_name = []; file_length = 0; path = [] } }

get_file-Passed_example :
    ((w' : World memory) × (handle memory 10
          (codes "10.0.0.7")
          (command_of (request_text (codes "a.mp3")))
          (request_text (codes "a.mp3"))
          stocked
        ≡ ok w')
      × (get_file (codes "a.mp3") true (map (λ t. arrived t) w'.sent) (visit_of holder ∷ [])
          ≡ ok (
            with_nul (request_text (codes "a.mp3")) ∷ [],
            Download.finished (fetch_of (codes "a.mp3") holder ∷ []) true,
          )))
    × All (Passed disks junk 7 (codes "a.mp3")) (holder ∷ [])
get_file-Passed_example =
    get_file-Passed memory disks junk 7 10 (codes "10.0.0.7") (codes "a.mp3") (holder ∷ []) stocked
      refl (λ e. cc, grind arith) (unfold request_query in omega arith) (omega arith)
      (unfold request_line step column_text column_int decimal request_query in
        (refl, refl, omega arith, refl))
      (holder-CanServe, tt) (holder-Keeps, tt)

abbrev shared_hash : Text
shared_hash = get_file_hash false (replicate 64 0) (some (8 ∷ 9 ∷ []))

add_file-shared_example :
    (w' : World memory) × (read_line (arrived (with_nul (add_text (codes "b.mp3") shared_hash 2)))
        >>= (λ line. handle memory 10 (codes "10.0.0.7") (command_of line) line stocked)
      ≡ ok w')
    × (memory_table.rows w'.db
        ≡ stocked.db
          ++ record {
            filename = codes "b.mp3";
            filehash = hex_text (standard_hash false (8 ∷ 9 ∷ []));
            f_size = 2;
            peeraddr = codes "10.0.0.7";
          }
            ∷ [])
    × (w'.sent ≡ ok_line ∷ [])
    × (add_file (codes "b.mp3") (some 2) shared_hash true (arrived ok_line) ≡ record {
      messages = with_nul (add_text (codes "b.mp3") shared_hash 2) ∷ [];
      success = true;
    })
add_file-shared_example =
    add_file-shared memory memory_table (codes "10.0.0.7") 10 false (replicate 64 0) (8 ∷ 9 ∷ [])
      (codes "b.mp3") stocked (grind arith) refl (λ e. cc, grind arith)
      (unfold is_kept in grind arith) (grind arith) (omega arith) (unfold decimal in omega arith)
      (always_done_insert stocked.db (codes "b.mp3") (hex_text (standard_hash false (8 ∷ 9 ∷ []))) 2
        (codes "10.0.0.7"))
      refl
