-- ===== src/Peer/Passing.antt =====
-- A file on its way from one peer's disk to another's: workerThread at one end, getFile at the other.
use s.Prelude.{
  ℕ, ◌≤◌, ◌<◌, ◌≡◌, refl, true, Option, none, some, List, [], ◌∷◌, ◌++◌, map, length, drop,
  drop-all, append-nil, arith, ltb,
}
use s.Clib.{Text, codes, c_string}
use s.Clib.Strings.{Avoids, c_string_end}
use s.Net.{arrived, with_nul}
use s.Outcome.{ok}
use s.Peer.Files.{
  base_name, fresh, read_file, send_file, send_content, saved, FileManage, Disk, mbstowcs,
}
use s.Peer.Files.Transfer.{AllFull, concatenated, recv_file-saved}
use s.Peer.Download.{Source, Fetch, save_path_of, visit}
use s.Peer.Serving.Answering.{Transfer, size_of, set_socket, answer_request}

base_name-Avoids : (k : ℕ) (path : Text) → Avoids k path → Avoids k (base_name path)
unfolding base_name
base_name-Avoids k [] h = tt
base_name-Avoids k (c ∷ path) h = ground (arith, base_name-Avoids k path h.1)

length-base_name : (path : Text) → length (base_name path) ≤ length path
unfolding base_name
length-base_name [] = omega arith
length-base_name (c ∷ path) = ground (arith, length-base_name path)

-- Whatever fopen finds, readFile takes the name and keeps the path.
read_file-named :
    (path : Text) (size : Option ℕ) (m : FileManage)
    → length (base_name path) < 1024
    → (manage : FileManage) × (read_file path size m ≡ ok manage)
      × (manage.file_name ≡ base_name path)
      × (manage.path ≡ path)
read_file-named path none m short =
    let fits : ltb (length (base_name path)) 1024 ≡ true = ground arith in
    (
      record m { file_name = base_name path; path = path },
      unfold read_file in rw fits refl,
      refl,
      refl,
    )
read_file-named path (some n) m short =
    let fits : ltb (length (base_name path)) 1024 ≡ true = ground arith in
    (
      record { file_name = base_name path; file_length = n; path = path },
      unfold read_file in rw fits refl,
      refl,
      refl,
    )

-- workerThread answers the message of getFile, on its socket, by the base name and the content.
pub answer_request-wire :
    (disk : Disk) (junk : Transfer) (socket : ℕ) (path : Text) (content : List ℕ)
    → disk.by_wide (mbstowcs path) ≡ some content
    → Avoids 0 path
    → length path < 1024
    → answer_request disk true true junk socket (c_string (with_nul path))
      ≡ ok (socket, record { wire = with_nul (base_name path) ∷ content ∷ []; success = true })
answer_request-wire disk junk socket path content has plain short =
    let (manage, read, named, at) =
      read_file-named path (size_of (disk.by_bytes path)) (fresh junk.manage.path)
        (omega (arith, length-base_name path)) in
    rw (c_string_end path [] plain)
      (unfold answer_request set_socket send_file send_content in rw (read, named, at, has) refl)

-- A file that CreateFile finds at one peer, at the path it was asked for with each byte as a wide
-- character, and that is sent in one go when all calls succeed, is what the peer that asked saves, at
-- the path that its user chose with each byte as a wide character: the message that
-- getFile sends names the path, the name and the content that workerThread answers with arrive in
-- that order, the content in full pieces and a last one that is short or empty, and no file was
-- there before. The paths are shorter than 1024 bytes and the one asked for has no NUL.
pub visit-answer_request :
    (disk : Disk) (junk : Transfer) (socket : ℕ) (name : Text) (source : Source) (folder : Text)
    (full : List (List ℕ)) (last : List ℕ)
    → disk.by_wide (mbstowcs source.file_path) ≡ some (concatenated full ++ last)
    → Avoids 0 source.file_path
    → length source.file_path < 1024
    → length (folder ++ (codes "/" ++ name)) < 1024
    → AllFull full
    → length last < 1024
    → let content = concatenated full ++ last in
      let sent_name = base_name source.file_path in
      let fetch : Fetch = record {
        peer_ip = source.peer_ip;
        message = with_nul source.file_path;
        save_path = mbstowcs (folder ++ (codes "/" ++ name));
        receipt = saved sent_name content;
      } in
      (answer_request disk true true junk socket (c_string fetch.message)
        ≡ ok (socket, record { wire = with_nul sent_name ∷ content ∷ []; success = true }))
      × (visit name source (record {
        folder = folder;
        makes = true;
        connects = true;
        sends = true;
        old = some [];
        pieces = arrived (with_nul sent_name) ∷ (map (λ p. arrived p) full ++ arrived last ∷ []);
      })
          ≡ ok (some fetch))
visit-answer_request disk junk socket name source folder full last has plain short fits all_full
      last_short =
    let path = source.file_path in
    let content = concatenated full ++ last in
    let name_short : length (base_name path) < 1024 = omega (arith, length-base_name path) in
    let tail : drop {A = ℕ} (length content) [] ≡ [] = drop-all (length content) [] (omega arith) in
    let saving : save_path_of folder name ≡ ok (folder ++ (codes "/" ++ name)) =
      unfold save_path_of in ground (arith, fits) in
    (
      answer_request-wire disk junk socket path content has plain short,
      unfold visit in
          rw
            (
              saving,
              recv_file-saved [] (base_name path) full last [] (base_name-Avoids 0 path plain)
                  name_short all_full last_short,
              tail,
              append-nil content,
            )
            refl,
    )
