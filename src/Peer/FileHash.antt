-- ===== src/Peer/FileHash.antt =====
-- FileManage::getFileHash: the file is read by fread in pieces of 16384 bytes, each is given to
-- SHA1Update, and the digest is printed by "%02X".
pub mod Digits
use s.Prelude.{
  ℕ, zero, suc, ◌+◌, ◌/◌, ◌%◌, ◌<◌, ◌≡◌, ◌∙◌, ap, inl, inr, Bool, Option, none, some, List, [], ◌∷◌,
  ◌++◌, length, take, drop, take-drop, length-drop, append-nil, arith, ltb, Bool-cases,
  if◌then◌else◌,
}
use s.Clib.{Text}
use s.Peer.Sha1.{hash}
use s.Peer.Sha1.Standard.{standard_hash}
use s.Peer.Sha1.Streaming.{joined}
use s.Peer.Sha1.Padding.{hash-standard_hash}

abbrev read_length : ℕ
read_length = 16384

-- The results of fread. feof is true after a call that read less than it was asked for, so a file of
-- whole pieces is followed by an empty one.
unfoldable pub read_pieces : ℕ → List ℕ → List (List ℕ)
read_pieces zero content = []
read_pieces (suc fuel) content =
    let rest = read_pieces fuel (drop read_length content) in
    if ltb (length content) read_length then content ∷ [] else take read_length content ∷ rest

unfoldable pub hex_digit : ℕ → ℕ
hex_digit d = if ltb d 10 then 48 + d else 55 + d

unfoldable pub hex_text : List ℕ → Text
unfolding hex_digit
hex_text [] = []
hex_text (b ∷ bs) = hex_digit (b / 16) ∷ hex_digit (b % 16) ∷ hex_text bs

-- `rest` is what the buffer of the context holds at first.
unfoldable pub get_file_hash : Bool → List ℕ → Option (List ℕ) → Text
get_file_hash swap rest none = []
get_file_hash swap rest (some content) =
    hex_text (hash swap rest (read_pieces (suc (length content)) content))

joined-read_pieces :
    (fuel : ℕ) (content : List ℕ)
    → length content < fuel
    → joined (read_pieces fuel content) ≡ content
unfolding read_pieces
joined-read_pieces zero content h = absurd (omega arith)
joined-read_pieces (suc fuel) content h = elim (Bool-cases (ltb (length content) read_length)) [
  | inl e ↦ rw e (append-nil content)
  | inr e ↦
      let again =
        joined-read_pieces fuel (drop read_length content)
          (ground (arith, length-drop read_length content)) in
      rw e (ap (λ z. take read_length content ++ z) again ∙ take-drop read_length content)
]

-- The text for a file that opens is the standard's digest of its content, but for the bytes of a word
-- of a block, which are taken as blk0 reads them, in hexadecimal digits, whatever 64 bytes the buffer
-- of the context held before.
pub get_file_hash_lem :
    (swap : Bool) (rest content : List ℕ)
    → length rest ≡ 64
    → get_file_hash swap rest (some content) ≡ hex_text (standard_hash swap content)
get_file_hash_lem swap rest content e =
    unfold get_file_hash in
    ap hex_text (
      hash-standard_hash swap rest (read_pieces (suc (length content)) content) e
      ∙ ap (standard_hash swap) (joined-read_pieces (suc (length content)) content (omega arith)))
