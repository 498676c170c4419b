-- ===== src/Peer/Sharing.antt =====
-- A peer shares a file: the menu's call of addFile, with the hash that getFileHash prints, and what
-- the server makes of its text.
use s.Prelude.{
  ℕ, ◌+◌, ◌/◌, ◌%◌, ◌≤◌, ◌<◌, ◌≡◌, ◌∙◌, refl, ap, Bool, true, some, List, [], ◌∷◌, ◌++◌, length,
  arith, sym, append-nil, length-append, ◌≢◌,
}
use s.Clib.{Text, codes, decimal, int_max, starts_with, c_string, isdigit}
use s.Clib.Strings.{Avoids, IsWord}
use s.Net.{arrived, with_nul}
use s.Outcome.{ok, ◌>>=◌}
use s.Peer.Sha1.{Words}
use s.Peer.Sha1.Standard.{big_endian, words_digest, standard_hash}
use s.Peer.FileHash.{hex_digit, hex_text, get_file_hash, get_file_hash_lem}
use s.Peer.FileHash.Digits.{length-hex_text}
use s.Peer.Client.{answers, exchange, add_text, add_file}
use s.Server.Sqlite.{Sqlite, run, sqlite_done}
use s.Server.Queries.{insert_query}
use s.Server.Queries.Lengths.{length-insert_query}
use s.Server.Commands.{command_of}
use s.Server.Messages.{is_kept, read_line}
use s.Server.Messages.Reading.{IsPlain, read_line-with_nul}
use s.Clib.Decimal.{IsNumber, decimal-IsNumber}
use s.Server.Replies.{ok_line}
use s.Server.Session.{World, handle}
use s.Server.Session.Table.{FilesTable}
use s.Server.Session.Adding.{add_reaches_table}

hex_digit-ge : (d : ℕ) → 48 ≤ hex_digit d
hex_digit-ge d = unfold hex_digit in ground arith

hex_text-Avoids : (k : ℕ) (bytes : List ℕ) → k < 48 → Avoids k (hex_text bytes)
unfolding hex_text
hex_text-Avoids k [] h = tt
hex_text-Avoids k (b ∷ bs) h = (
  λ e. omega (arith, hex_digit-ge (b / 16)),
  (λ e. omega (arith, hex_digit-ge (b % 16)), hex_text-Avoids k bs h),
)

length-words_digest : (s : Words) → length (words_digest s) ≡ 20
length-words_digest s = unfold words_digest big_endian in refl

-- The printed digest has 40 bytes.
length-digest :
    (swap : Bool) (content : List ℕ) → length (hex_text (standard_hash swap content)) ≡ 40
length-digest swap content =
    unfold standard_hash in omega (arith, length-hex_text (words_digest _), length-words_digest _)

IsPlain-append : (s t : Text) → IsPlain s → IsPlain t → IsPlain (s ++ t)
IsPlain-append [] t h k = k
IsPlain-append (c ∷ s) t h k = (h.0, IsPlain-append s t h.1 k)

digit-plain : (c : ℕ) → 48 ≤ c → (is_kept c ≡ true) × (c ≢ 0)
digit-plain c h = (unfold is_kept in ground arith, λ e. omega arith)

hex_text-IsPlain : (bytes : List ℕ) → IsPlain (hex_text bytes)
unfolding hex_text
hex_text-IsPlain [] = tt
hex_text-IsPlain (b ∷ bs) = (
  digit-plain (hex_digit (b / 16)) (hex_digit-ge (b / 16)),
  (digit-plain (hex_digit (b % 16)) (hex_digit-ge (b % 16)), hex_text-IsPlain bs),
)

IsNumber-IsPlain : (t : Text) → IsNumber t → IsPlain t
unfolding isdigit
IsNumber-IsPlain [] h = tt
IsNumber-IsPlain (c ∷ t) h = (digit-plain c (ground arith), IsNumber-IsPlain t h.1)

add_text-IsPlain :
    (path : Text) (bytes : List ℕ) (n : ℕ)
    → IsPlain path
    → IsPlain (add_text path (hex_text bytes) n)
unfolding add_text is_kept
add_text-IsPlain path bytes n h =
    let digits = IsNumber-IsPlain (decimal n) (decimal-IsNumber n) in
    let behind =
      IsPlain-append (hex_text bytes) _ (hex_text-IsPlain bytes)
        (IsPlain-append (codes " ") (decimal n) (grind arith) digits) in
    IsPlain-append (codes "ADD ") _ (grind arith)
      (IsPlain-append path _ h (IsPlain-append (codes " ") _ (grind arith) behind))

length-add_text :
    (path hash : Text) (n : ℕ)
    → length (add_text path hash n) ≡ 6 + (length path + (length hash + length (decimal n)))
length-add_text path hash n =
    unfold add_text in
    omega (
      arith,
      length-append path (codes " " ++ (hash ++ (codes " " ++ decimal n))),
      length-append hash (codes " " ++ decimal n),
    )

add_file-ok :
    (path hash : Text) (n : ℕ)
    → add_file path (some n) hash true (arrived ok_line)
      ≡ record { messages = with_nul (add_text path hash n) ∷ []; success = true }
add_file-ok path hash n = unfold add_file exchange answers c_string starts_with in refl

-- A file that a peer shares is in the server's table under its path, the printed digest of its
-- content, its size and the peer's address, behind the rows that were there, once the server has
-- read what addFile sends by one recv; the server answers OK alone, at which addFile returns 0. The
-- digest is the standard's but for the bytes of a word of a block, which are taken as blk0 reads
-- them. SQLite reports the statement done, the path is a word without blank, quote, NUL and the bytes
-- that clean_string drops, the address has no quote, the size is at most INT_MAX, the path, the
-- digits of the size and the address have fewer than 177 bytes together, so that the statement
-- fits its buffer, nothing was sent before, and the buffer of the hash's context has 64 bytes.
pub add_file-shared :
    (q : Sqlite) (t : FilesTable q) (peer : Text) (fuel : ℕ) (swap : Bool) (rest content : List ℕ)
    (path : Text) (w : World q)
    → Avoids 39 peer
    → length rest ≡ 64
    → IsWord path
    → IsPlain path
    → Avoids 39 path
    → length content ≤ int_max
    → length path + length (decimal (length content)) + length peer < 177
    → (run q w.db
        (insert_query path (hex_text (standard_hash swap content)) (length content) peer)).2
      ≡ sqlite_done
    → w.sent ≡ []
    → let hash = get_file_hash swap rest (some content) in
      let message = add_text path hash (length content) in
      (w' : World q) × (read_line (arrived (with_nul message))
          >>= (λ line. handle q fuel peer (command_of line) line w)
        ≡ ok w')
      × (t.rows w'.db
          ≡ t.rows w.db
            ++ record {
              filename = path;
              filehash = hex_text (standard_hash swap content);
              f_size = length content;
              peeraddr = peer;
            }
              ∷ [])
      × (w'.sent ≡ ok_line ∷ [])
      × (add_file path (some (length content)) hash true (arrived ok_line)
          ≡ record { messages = with_nul message ∷ []; success = true })
add_file-shared q t peer fuel swap rest content path w plain full word kept no_quote small fits done
      unsent =
    let digest = hex_text (standard_hash swap content) in
    let n = length content in
    let len = length-digest swap content in
    let is_word : IsWord digest = (
      λ e. omega (arith, len, ap length e),
      hex_text-Avoids 32 (standard_hash swap content) (omega arith),
    ) in
    let stored =
      add_reaches_table q t peer plain fuel path digest n w word is_word small no_quote
        (hex_text-Avoids 39 (standard_hash swap content) (omega arith))
        (omega (arith, length-insert_query path digest n peer, len)) done in
    let same = get_file_hash_lem swap rest content full in
    let message = add_text path digest n in
    let fits_buffer : length message < 512 = omega (arith, length-add_text path digest n, len) in
    let heard : read_line (arrived (with_nul message)) ≡ ok message =
      ap (λ m. read_line (arrived m)) (sym (append-nil (with_nul message)))
      ∙ read_line-with_nul message [] (add_text-IsPlain path (standard_hash swap content) n kept)
          fits_buffer in
    (
      stored.0,
      ap
            (λ h. read_line (arrived (with_nul (add_text path h n))) >>= λ line.
              handle q fuel peer (command_of line) line w)
            same
          ∙ rw heard stored.1,
      stored.2,
      stored.3 ∙ ap (λ s. s ++ ok_line ∷ []) unsent,
      add_file-ok path (get_file_hash swap rest (some content)) n,
    )
