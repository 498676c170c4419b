-- ===== src/Peer/Sha1.antt =====
-- HashSH1.cpp and HashSH1.h: SHA-1 over bytes that come in pieces. `unsigned long` has 32 bits on
-- Windows. `swap` is whether the macro LITTLE_ENDIAN is defined when the file is compiled; words are
-- loaded as x86 does, lowest byte first.
pub mod Standard
pub mod Functions
pub mod Bytes
pub mod Schedule
pub mod Blocks
pub mod Holding
pub mod Streaming
pub mod Padding
use s.Prelude.{
  ℕ, zero, suc, ◌+◌, ◌-◌, ◌*◌, ◌/◌, ◌%◌, ◌^◌, Bool, true, false, List, [], ◌∷◌, ◌++◌, length,
  get_or, set, take, drop, replicate, bit_and, bit_or, bit_xor, ltb, ◌==◌, if◌then◌else◌,
}

abbrev pub u32 : ℕ → ℕ
u32 n = n % 4294967296

-- rol(value, bits)
unfoldable pub rol : ℕ → ℕ → ℕ
rol value bits = bit_or (u32 (value * 2 ^ bits)) (value / 2 ^ (32 - bits))

-- The five words of the state, and the working variables in the order of a macro's arguments.
pub record Words : Type 0 where
  pub v : ℕ
  pub w : ℕ
  pub x : ℕ
  pub y : ℕ
  pub z : ℕ

pub record Context : Type 0 where
  pub state : Words
  pub count0 : ℕ
  pub count1 : ℕ
  pub buffer : List ℕ

-- The union of 64 bytes and 16 words.
unfoldable pub words_of : List ℕ → List ℕ
words_of (b0 ∷ b1 ∷ b2 ∷ b3 ∷ rest) = (b0 + b1 * 256 + b2 * 65536 + b3 * 16777216) ∷ words_of rest
words_of _ = []

unfoldable pub bytes_of : List ℕ → List ℕ
bytes_of [] = []
bytes_of (n ∷ ns) = n % 256 ∷ n / 256 % 256 ∷ n / 65536 % 256 ∷ n / 16777216 % 256 ∷ bytes_of ns

-- What blk0 makes of a word.
unfoldable pub first_word : Bool → ℕ → ℕ
unfolding rol
first_word true l = bit_or (bit_and (rol l 24) 0xFF00FF00) (bit_and (rol l 8) 0x00FF00FF)
first_word false l = l

-- What blk stores at the place i & 15.
unfoldable pub next_word : ℕ → List ℕ → ℕ
unfolding rol
next_word i block =
    rol
      (bit_xor
        (bit_xor (bit_xor (get_or block ((i + 13) % 16) 0) (get_or block ((i + 8) % 16) 0))
          (get_or block ((i + 2) % 16) 0))
        (get_or block (i % 16) 0))
      1

-- blk0(i) in the first 16 rounds and blk(i) later.
unfoldable pub word_at : Bool → ℕ → List ℕ → ℕ
word_at swap i block = if ltb i 16 then first_word swap (get_or block i 0) else next_word i block

-- The function and the constant of the macros R0 and R1, R2, R3, R4.
unfoldable pub mix : ℕ → ℕ → ℕ → ℕ → ℕ
mix i w x y =
    if ltb i 20
    then bit_xor (bit_and w (bit_xor x y)) y
    else if ltb i 40
    then bit_xor (bit_xor w x) y
    else if ltb i 60
    then bit_or (bit_and (bit_or w x) y) (bit_and w x)
    else bit_xor (bit_xor w x) y

unfoldable pub constant : ℕ → ℕ
constant i =
    if ltb i 20
    then 0x5A827999
    else if ltb i 40
    then 0x6ED9EBA1
    else if ltb i 60
    then 0x8F1BBCDC
    else 0xCA62C1D6

-- A macro with the word `m`; the result stands in the order of the next macro's arguments.
unfoldable pub stir : ℕ → ℕ → Words → Words
unfolding rol mix constant
stir i m r = record {
  v = u32 (r.z + (mix i r.w r.x r.y + m + constant i + rol r.v 5));
  w = r.v;
  x = rol r.w 30;
  y = r.x;
  z = r.y;
}

-- The rounds from `i`, with `left` to go. The block is changed in place.
unfoldable pub rounds : Bool → ℕ → ℕ → List ℕ → Words → List ℕ × Words
rounds swap zero i block r = (block, r)
rounds swap (suc left) i block r =
    let m = word_at swap i block in rounds swap left (suc i) (set block (i % 16) m) (stir i m r)

unfoldable pub add_words : Words → Words → Words
add_words a b = record {
  v = u32 (a.v + b.v);
  w = u32 (a.w + b.w);
  x = u32 (a.x + b.x);
  y = u32 (a.y + b.y);
  z = u32 (a.z + b.z);
}

-- SHA1Transform: the new state, and the buffer, which is overwritten since SHA1HANDSOFF is not
-- defined. After 80 rounds the arguments are in their first order again.
unfoldable pub transform : Bool → Words → List ℕ → Words × List ℕ
transform swap state buffer =
    let (block, r) = rounds swap 80 0 (words_of buffer) state in (add_words state r, bytes_of block)

-- SHA1Init. The buffer is not set; `rest` is what it holds.
unfoldable pub initial_state : Words
initial_state = record {
  v = 0x67452301;
  w = 0xEFCDAB89;
  x = 0x98BADCFE;
  y = 0x10325476;
  z = 0xC3D2E1F0;
}

unfoldable pub init : List ℕ → Context
unfolding initial_state
init rest = record { state = initial_state; count0 = 0; count1 = 0; buffer = rest }

-- memcpy(&buffer[j], bytes, length)
unfoldable pub copy_into : List ℕ → ℕ → List ℕ → List ℕ
copy_into buffer j bytes = take j buffer ++ (bytes ++ drop (j + length bytes) buffer)

-- The loop over the whole blocks of the data, which stands at &data[i]: the state, and the data that
-- is left. The fuel counts the rounds. That the data is overwritten too is seen by no one: the
-- caller fills its buffer anew.
unfoldable pub whole_blocks : Bool → ℕ → Words → List ℕ → Words × List ℕ
whole_blocks swap zero state rest = (state, rest)
whole_blocks swap (suc fuel) state rest =
    let again = whole_blocks swap fuel (transform swap state (take 64 rest)).0 (drop 64 rest) in
    if ltb 63 (length rest) then again else (state, rest)

-- The two words of the bit count.
unfoldable pub count_up : Context → ℕ → Context
count_up c len =
    let bits = u32 (len * 8) in
    let count0 = u32 (c.count0 + bits) in
    let carried = if ltb count0 bits then u32 (c.count1 + 1) else c.count1 in
    record c { count0 = count0; count1 = u32 (carried + len / 536870912) }

unfoldable pub fill_and_go : Bool → ℕ → Context → List ℕ → Context
fill_and_go swap j c bytes =
    let first = transform swap c.state (copy_into c.buffer j (take (64 - j) bytes)) in
    let (state, rest) = whole_blocks swap (length bytes) first.0 (drop (64 - j) bytes) in
    record c { state = state; buffer = copy_into first.1 0 rest }

-- SHA1Update, for data shorter than 2 ^ 32 - 64 bytes, so that its sums do not wrap.
unfoldable pub update : Bool → Context → List ℕ → Context
update swap c bytes =
    let j = bit_and (c.count0 / 8) 63 in
    let counted = count_up c (length bytes) in
    if ltb 63 (j + length bytes)
    then fill_and_go swap j counted bytes
    else record counted { buffer = copy_into c.buffer j bytes }

-- The bytes of a word, highest first.
unfoldable pub byte_of : ℕ → ℕ → ℕ
byte_of n i = bit_and (n / 2 ^ ((3 - i) * 8)) 255

unfoldable pub high_first : ℕ → List ℕ
high_first n = byte_of n 0 ∷ byte_of n 1 ∷ byte_of n 2 ∷ byte_of n 3 ∷ []

-- The loop of SHA1Final that fills up with zeros; fewer than 64 rounds are enough.
unfoldable pub fill_up : Bool → ℕ → Context → Context
fill_up swap zero c = c
fill_up swap (suc fuel) c =
    let again = fill_up swap fuel (update swap c (0 ∷ [])) in
    if bit_and c.count0 504 == 448 then c else again

unfoldable pub digest_of : Words → List ℕ
digest_of s =
    high_first s.v ++ (high_first s.w ++ (high_first s.x ++ (high_first s.y ++ high_first s.z)))

-- SHA1Final: the digest. The context is wiped afterwards.
unfoldable pub final : Bool → Context → List ℕ
final swap c =
    let finalcount = high_first c.count1 ++ high_first c.count0 in
    let filled = fill_up swap 64 (update swap c (128 ∷ [])) in
    digest_of (update swap filled finalcount).state

-- Every piece of a message in turn, and then the digest.
unfoldable pub feed : Bool → Context → List (List ℕ) → Context
feed swap c [] = c
feed swap c (p ∷ ps) = feed swap (update swap c p) ps

unfoldable pub hash : Bool → List ℕ → List (List ℕ) → List ℕ
hash swap rest pieces = final swap (feed swap (init rest) pieces)
