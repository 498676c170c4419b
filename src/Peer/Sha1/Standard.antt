-- ===== src/Peer/Sha1/Standard.antt =====
-- SHA-1 as the standard (FIPS 180-4) describes it, over whole messages: the padding, the schedule of
-- 80 words of a block, the functions digit by digit, and constants of its own. Only the order in
-- which the bytes of a block make its words is the code's: blk0 takes the standard's with
-- LITTLE_ENDIAN, and else the reverse.
use s.Prelude.{
  ℕ, zero, suc, ◌+◌, ◌-◌, ◌*◌, ◌/◌, ◌%◌, ◌^◌, Bool, List, [], ◌∷◌, ◌++◌, length, get_or, take, drop,
  replicate, bit_or, bit_xor, ltb, ◌==◌, if◌then◌else◌,
}
use s.Peer.Sha1.{Words, first_word, words_of}

-- Words of 32 bits: what wraps around, ROTL, and the sums of two times five words.
abbrev pub wrapped : ℕ → ℕ
wrapped n = n % 2 ^ 32

unfoldable pub rotl : ℕ → ℕ → ℕ
rotl n bits = bit_or (wrapped (n * 2 ^ bits)) (n / 2 ^ (32 - bits))

unfoldable pub sums : Words → Words → Words
sums a b = record {
  v = wrapped (a.v + b.v);
  w = wrapped (a.w + b.w);
  x = wrapped (a.x + b.x);
  y = wrapped (a.y + b.y);
  z = wrapped (a.z + b.z);
}

-- The constant of each twenty rounds: 2 ^ 30 times the square roots of 2, 3, 5 and 10, cut.
unfoldable pub round_constant : ℕ → ℕ
round_constant t =
    if ltb t 20
    then 1518500249
    else if ltb t 40
    then 1859775393
    else if ltb t 60
    then 2400959708
    else 3395469782

-- The first hash value.
unfoldable pub first_hash : Words
first_hash = record {
  v = 1732584193;
  w = 4023233417;
  x = 2562383102;
  y = 271733878;
  z = 3285377520;
}

-- A function of three binary digits, on the lowest `n` digits of three numbers.
unfoldable pub by_digits : (ℕ → ℕ → ℕ → ℕ) → ℕ → ℕ → ℕ → ℕ → ℕ
by_digits f zero b c d = 0
by_digits f (suc n) b c d = by_digits f n (b / 2) (c / 2) (d / 2) * 2 + f (b % 2) (c % 2) (d % 2)

-- Ch takes the digit of `c` where `b` has a one, and else that of `d`; Parity tells an odd number of
-- ones; Maj takes the digit that most of the three have.
abbrev pub choose_digit : ℕ → ℕ → ℕ → ℕ
choose_digit b c d = if b == 1 then c else d

abbrev pub parity_digit : ℕ → ℕ → ℕ → ℕ
parity_digit b c d = (b + c + d) % 2

abbrev pub majority_digit : ℕ → ℕ → ℕ → ℕ
majority_digit b c d = if ltb 1 (b + c + d) then 1 else 0

unfoldable pub function : ℕ → ℕ → ℕ → ℕ → ℕ
function t b c d =
    if ltb t 20
    then by_digits choose_digit 32 b c d
    else if ltb t 40
    then by_digits parity_digit 32 b c d
    else if ltb t 60
    then by_digits majority_digit 32 b c d
    else by_digits parity_digit 32 b c d

-- The words of the schedule, the newest first, when `t` of them are made of a block's words.
unfoldable pub schedule : (ℕ → ℕ) → ℕ → List ℕ
schedule block zero = []
schedule block (suc t) =
    let made = schedule block t in
    (if ltb t 16
      then block t
      else rotl
          (bit_xor (bit_xor (bit_xor (get_or made 2 0) (get_or made 7 0)) (get_or made 13 0))
            (get_or made 15 0))
          1)
    ∷ made

unfoldable pub scheduled : (ℕ → ℕ) → ℕ → ℕ
scheduled block t = get_or (schedule block (suc t)) 0 0

-- One round with the working variables a to e in the fields v to z.
unfoldable pub standard_round : ℕ → ℕ → Words → Words
standard_round t word r = record {
  v = wrapped (rotl r.v 5 + function t r.w r.x r.y + r.z + round_constant t + word);
  w = r.v;
  x = rotl r.w 30;
  y = r.x;
  z = r.y;
}

unfoldable pub standard_rounds : (ℕ → ℕ) → ℕ → ℕ → Words → Words
standard_rounds block zero t r = r
standard_rounds block (suc left) t r =
    standard_rounds block left (suc t) (standard_round t (scheduled block t) r)

-- The block's words, read as blk0 reads them.
abbrev pub block_words : Bool → List ℕ → ℕ → ℕ
block_words swap bytes t = first_word swap (get_or (words_of bytes) t 0)

-- One block, and all whole blocks of a message.
unfoldable pub compress : Bool → Words → List ℕ → Words
compress swap state bytes = sums state (standard_rounds (block_words swap bytes) 80 0 state)

-- The first `n` blocks of a message, one after the other.
unfoldable pub absorb : Bool → ℕ → Words → List ℕ → Words
absorb swap zero state message = state
absorb swap (suc n) state message =
    absorb swap n (compress swap state (take 64 message)) (drop 64 message)

-- A number in `k` bytes, the highest first.
unfoldable pub big_endian : ℕ → ℕ → List ℕ
big_endian zero n = []
big_endian (suc k) n = big_endian k (n / 256) ++ (n % 256 ∷ [])

-- A message with a one bit behind it, the fewest zeros that leave eight bytes of the last block, and
-- its length in bits.
unfoldable pub padded : List ℕ → List ℕ
padded message =
    message
    ++ (128 ∷ (replicate ((119 - length message % 64) % 64) 0 ++ big_endian 8 (length message * 8)))

unfoldable pub words_digest : Words → List ℕ
words_digest s =
    big_endian 4 s.v
    ++ (big_endian 4 s.w ++ (big_endian 4 s.x ++ (big_endian 4 s.y ++ big_endian 4 s.z)))

unfoldable pub standard_hash : Bool → List ℕ → List ℕ
standard_hash swap message =
    words_digest (absorb swap (length (padded message) / 64) first_hash (padded message))
