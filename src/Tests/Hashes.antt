-- ===== src/Tests/Hashes.antt =====
-- The theorems about the hash, at small messages.
use s.Prelude.{
  ℕ, ◌+◌, ◌*◌, get_or, arith, ◌≡◌, refl, true, false, some, List, [], ◌∷◌, replicate, length, All,
}
use s.Peer.Sha1.{hash, first_word, words_of}
use s.Peer.Sha1.Bytes.{first_word-bytes}
use s.Peer.Sha1.Standard.{standard_hash}
use s.Peer.Sha1.Padding.{hash-standard_hash}
use s.Peer.FileHash.Digits.{IsHexDigit, get_file_hash-IsHexDigit}
use s.Peer.FileHash.{get_file_hash, hex_text, get_file_hash_lem}

abbrev empty_buffer : List ℕ
empty_buffer = replicate 64 0

hash-standard_hash_example :
    hash false empty_buffer ((97 ∷ 98 ∷ []) ∷ (99 ∷ []) ∷ [])
    ≡ standard_hash false (97 ∷ 98 ∷ 99 ∷ [])
hash-standard_hash_example =
    hash-standard_hash false empty_buffer ((97 ∷ 98 ∷ []) ∷ (99 ∷ []) ∷ []) refl

get_file_hash_lem_example :
    get_file_hash false empty_buffer (some (97 ∷ 98 ∷ 99 ∷ []))
    ≡ hex_text (standard_hash false (97 ∷ 98 ∷ 99 ∷ []))
get_file_hash_lem_example = get_file_hash_lem false empty_buffer (97 ∷ 98 ∷ 99 ∷ []) refl

get_file_hash-IsHexDigit_example :
    (length (get_file_hash false [] (some (97 ∷ []))) ≡ 40)
    × All IsHexDigit (get_file_hash false [] (some (97 ∷ [])))
get_file_hash-IsHexDigit_example = get_file_hash-IsHexDigit false [] (97 ∷ [])

-- The block that begins with "abcd".
first_word-bytes_example :
    (first_word true (get_or (words_of (97 ∷ 98 ∷ 99 ∷ 100 ∷ [])) 0 0)
      ≡ ((97 * 256 + 98) * 256 + 99) * 256 + 100)
    × (first_word false (get_or (words_of (97 ∷ 98 ∷ 99 ∷ 100 ∷ [])) 0 0)
        ≡ ((100 * 256 + 99) * 256 + 98) * 256 + 97)
first_word-bytes_example =
    first_word-bytes 97 98 99 100 [] (omega arith) (omega arith) (omega arith) (omega arith)
