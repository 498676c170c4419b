-- ===== src/Peer/Files.antt =====
-- FileManage.cpp: reading the name and length of a file, and the transfer of a file between two
-- peers. What is printed is left out. Files of Windows are their bytes.
pub mod Transfer
use s.Prelude.{
  ℕ, Bool, true, false, Option, none, some, List, [], ◌∷◌, ◌++◌, length, drop, replicate, ltb, ◌==◌,
  if◌then◌else◌,
}
use s.Clib.{Text, c_string}
use s.Net.{Received, arrived, failed, with_nul}
use s.Outcome.{Result, ok, err, overflow, ◌>>=◌}

-- MAX_FILE_LEN and TRANS_FILE_LENGTH.
abbrev pub max_file_len : ℕ
max_file_len = 1024

abbrev pub trans_file_length : ℕ
trans_file_length = 1024

-- find_last_of('/') and then substr(pos + 1): what follows the last slash, or the whole.
unfoldable pub has_slash : Text → Bool
has_slash [] = false
has_slash (c ∷ t) = if c == 47 then true else has_slash t

unfoldable pub base_name : Text → Text
unfolding has_slash
base_name [] = []
base_name (c ∷ t) =
    let rest = base_name t in if has_slash t then rest else if c == 47 then t else c ∷ t

pub record FileManage : Type 0 where
  pub file_name : Text
  pub file_length : ℕ
  pub path : Text

-- The constructor: '/0' is a constant of two characters, and memset takes its low byte, the digit
-- 0. `path` stands for what the pointer holds before readFile sets it.
unfoldable pub fresh : Text → FileManage
fresh path = record { file_name = replicate max_file_len 48; file_length = 0; path = path }

-- readFile: `size` is what ftell tells, or none if the file cannot be opened; then the length stays.
unfoldable pub read_file : Text → Option ℕ → FileManage → Result FileManage
unfolding base_name
read_file path size m =
    let name = base_name path in
    if ltb (length name) max_file_len
    then ok (elim size [
      | none ↦ record m { file_name = name; path = path }
      | some n ↦ record { file_name = name; file_length = n; path = path }
    ])
    else err overflow

-- A path of wide characters, as CreateFile takes it, since the project is built for Unicode.
pub record WidePath : Type 0 where
  pub units : List ℕ

-- mbstowcs in the locale "C", which no call of setlocale changes: a wide character for each byte, with
-- its value. These are the characters that fopen means by the bytes for ASCII alone.
unfoldable pub mbstowcs : Text → WidePath
mbstowcs path = record { units = path }

-- The files that fopen finds by the bytes of a path, and those that CreateFile finds by a wide one.
pub record Disk : Type 0 where
  pub by_bytes : Text → Option (List ℕ)
  pub by_wide : WidePath → Option (List ℕ)

-- What sendFile put on its socket, and whether it returns 0.
pub record Sending : Type 0 where
  pub wire : List (List ℕ)
  pub success : Bool

-- sendFile: `sends` is whether send succeeds, `content` the file if CreateFile opens it, and
-- `transmits` whether TransmitFile succeeds.
unfoldable pub send_content : Bool → Option (List ℕ) → List (List ℕ) → Sending
send_content transmits none wire = record { wire = wire; success = false }
send_content transmits (some content) wire =
    if transmits
    then record { wire = wire ++ content ∷ []; success = true }
    else record { wire = wire; success = false }

unfoldable pub send_file : Bool → Bool → Option (List ℕ) → FileManage → Sending
send_file sends transmits content m =
    if sends
    then send_content transmits content (with_nul m.file_name ∷ [])
    else record { wire = []; success = false }

-- The loop of recvFile: the bytes that it writes. It ends at an error, at the end of the stream, or
-- at a piece that does not fill the buffer. Where the list of results ends, it waits: `none`.
unfoldable pub recv_pieces : List Received → Option (List ℕ)
recv_pieces [] = none
recv_pieces (failed ∷ rs) = some []
recv_pieces (arrived [] ∷ rs) = some []
recv_pieces (arrived (b ∷ bytes) ∷ rs) =
    let piece = b ∷ bytes in
    let rest = recv_pieces rs in
    if ltb (length piece) trans_file_length
    then some piece
    else elim rest [ none ↦ none | some more ↦ some (piece ++ more) ]

-- The file opened by OPEN_ALWAYS is written from its start and not cut: bytes behind stay.
unfoldable pub overwrite : List ℕ → List ℕ → List ℕ
overwrite old written = written ++ drop (length written) old

-- The name that the first piece holds; 1024 bytes without a NUL run over the buffers.
unfoldable pub received_name : Received → Result Text
received_name failed = ok []
received_name (arrived bytes) =
    let name = c_string bytes in if ltb (length name) max_file_len then ok name else err overflow

-- recvFile: `old` is the file at the path, empty if it is new, or none if CreateFile fails. The
-- result is the name that was received and the file afterwards, or none while it waits.
pub data Receipt : Type 0 where
  not_opened : Receipt
  saved : Text → List ℕ → Receipt
  unfinished : Receipt

unfoldable pub save_pieces : List ℕ → Text → Option (List ℕ) → Receipt
unfolding overwrite
save_pieces old name none = unfinished
save_pieces old name (some written) = saved name (overwrite old written)

unfoldable pub recv_file : Option (List ℕ) → List Received → Result Receipt
unfolding received_name recv_pieces save_pieces
recv_file none rs = ok not_opened
recv_file (some old) [] = ok unfinished
recv_file (some old) (r ∷ rs) = do
  name ← received_name r
  ok (save_pieces old name (recv_pieces rs))
