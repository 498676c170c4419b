-- ===== src/Peer/FileHash/Digits.antt =====
-- The form of the text that getFileHash returns.
use s.Prelude.{
  ℕ, suc, ◌*◌, ◌/◌, ◌%◌, ◌≤◌, ◌<◌, ◌≡◌, ◌⊎◌, refl, Bool, some, List, [], ◌∷◌, length, All, arith,
}
use s.Bits.{bit_and-255}
use s.Peer.Sha1.{Words, Context, byte_of, high_first, digest_of, init, feed, final, hash}
use s.Peer.FileHash.{read_pieces, hex_digit, hex_text, get_file_hash}

-- 0 to 9 or A to F.
abbrev pub IsHexDigit : ℕ → Type 0
IsHexDigit c = ((48 ≤ c) × (c ≤ 57)) ⊎ ((65 ≤ c) × (c ≤ 70))

hex_digit-IsHexDigit : (d : ℕ) → d < 16 → IsHexDigit (hex_digit d)
unfolding hex_digit
hex_digit-IsHexDigit d h = ground arith

hex_text-IsHexDigit : (bytes : List ℕ) → All (λ b. b < 256) bytes → All IsHexDigit (hex_text bytes)
unfolding hex_text
hex_text-IsHexDigit [] h = tt
hex_text-IsHexDigit (b ∷ bs) h = (
  hex_digit-IsHexDigit (b / 16) (omega (arith, h.0)),
  (hex_digit-IsHexDigit (b % 16) (omega arith), hex_text-IsHexDigit bs h.1),
)

pub length-hex_text : (bytes : List ℕ) → length (hex_text bytes) ≡ length bytes * 2
unfolding hex_text
length-hex_text [] = refl
length-hex_text (b ∷ bs) = omega (arith, length-hex_text bs)

byte_of-lt : (n i : ℕ) → byte_of n i < 256
unfolding byte_of
byte_of-lt n i = omega (arith, bit_and-255)

digest_of-bytes : (s : Words) → All (λ b. b < 256) (digest_of s) × (length (digest_of s) ≡ 20)
unfolding digest_of high_first
digest_of-bytes s = omega (arith, byte_of-lt)

final-bytes :
    (swap : Bool) (c : Context) → All (λ b. b < 256) (final swap c) × (length (final swap c) ≡ 20)
unfolding final
final-bytes swap c = digest_of-bytes _

-- Whatever the file holds, and whatever the buffer of the context held before, getFileHash returns
-- 40 hexadecimal digits, in capitals.
pub get_file_hash-IsHexDigit :
    (swap : Bool) (rest content : List ℕ)
    → (length (get_file_hash swap rest (some content)) ≡ 40)
      × All IsHexDigit (get_file_hash swap rest (some content))
unfolding get_file_hash hash
get_file_hash-IsHexDigit swap rest content =
    let c = feed swap (init rest) (read_pieces (suc (length content)) content) in
    let bytes = final-bytes swap c in
    (
      omega (arith, length-hex_text (final swap c), bytes.1),
      hex_text-IsHexDigit (final swap c) bytes.0,
    )
