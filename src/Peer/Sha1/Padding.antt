-- ===== src/Peer/Sha1/Padding.antt =====
-- SHA1Final: the zeros, the count in eight bytes, the digest, and the padding of the standard.
use s.Prelude.{
  ℕ, zero, suc, ◌-◌, ◌*◌, ◌/◌, ◌%◌, ◌^◌, ◌<◌, ◌≡◌, ◌∙◌, refl, sym, ap, ap₂, subst, inl, inr, Bool,
  true, false, List, [], ◌∷◌, ◌++◌, length, replicate, length-append, length-replicate, length-nil,
  append_assoc, append-nil, arith, ◌==◌, Bool-cases, bit_and,
}
use s.Bits.{bit_and-255, bit_and-504}
use s.Peer.Sha1.{
  u32, Words, Context, initial_state, init, update, byte_of, high_first, fill_up, digest_of, final,
  hash,
}
use s.Peer.Sha1.Blocks.{initial_state-first_hash}
use s.Peer.Sha1.Standard.{absorb, big_endian, padded, words_digest, standard_hash}
use s.Peer.Sha1.Holding.{Represents}
use s.Peer.Sha1.Streaming.{update-Represents, init-Represents, joined, feed-Represents}

abbrev zeros_for : ℕ → ℕ
zeros_for n = (120 - n % 64) % 64

fill_up-stop :
    (swap : Bool) (fuel : ℕ) (c : Context)
    → (bit_and c.count0 504 == 448) ≡ true
    → fill_up swap (suc fuel) c ≡ c
fill_up-stop swap fuel c e = unfold fill_up in rw e

fill_up-more :
    (swap : Bool) (fuel : ℕ) (c : Context)
    → (bit_and c.count0 504 == 448) ≡ false
    → fill_up swap (suc fuel) c ≡ fill_up swap fuel (update swap c (0 ∷ []))
fill_up-more swap fuel c e = unfold fill_up in rw e

-- The loop over the zeros ends, for any fuel above their number, and adds as many as are due.
fill_up-Represents :
    (swap : Bool) (fuel z : ℕ) (message : List ℕ) (c : Context)
    → Represents swap message c
    → z ≡ zeros_for (length message)
    → z < fuel
    → Represents swap (message ++ replicate z 0) (fill_up swap fuel c)
fill_up-Represents swap zero z message c r e h = absurd (omega arith)
fill_up-Represents swap (suc fuel) z message c r e h =
    elim (Bool-cases (bit_and c.count0 504 == 448)) [
      | inl e' ↦
          let none_due : z ≡ 0 = ground (arith, bit_and-504 c.count0, r.low) in
          subst (Represents swap (message ++ replicate z 0)) (sym (fill_up-stop swap fuel c e')) (
            subst (λ k. Represents swap (message ++ replicate k 0) c) (sym none_due)
              (subst (λ m. Represents swap m c) (sym (append-nil message)) r))
      | inr e' ↦
          let due : z ≡ suc (z - 1) = ground (arith, bit_and-504 c.count0, r.low) in
          let longer = length-append message (0 ∷ []) in
          subst (Represents swap (message ++ replicate z 0)) (sym (fill_up-more swap fuel c e')) (
            subst (λ m. Represents swap m (fill_up swap fuel (update swap c (0 ∷ []))))
              (append_assoc message (0 ∷ []) (replicate (z - 1) 0)
                ∙ ap (λ k. message ++ replicate k 0) (sym due))
              (fill_up-Represents swap fuel (z - 1) (message ++ (0 ∷ [])) (update swap c (0 ∷ []))
                (update-Represents swap message (0 ∷ []) c r) (omega arith) (omega arith)))
    ]

four :
    {a b c d a' b' c' d' : ℕ}
    → a ≡ a'
    → b ≡ b'
    → c ≡ c'
    → d ≡ d'
    → Path (List ℕ) (a ∷ b ∷ c ∷ d ∷ []) (a' ∷ b' ∷ c' ∷ d' ∷ [])
four e f g h = rw (e, f, g, h)

byte_of-digit : (n i : ℕ) → byte_of n i ≡ n / 2 ^ ((3 - i) * 8) % 256
byte_of-digit n i = unfold byte_of in bit_and-255 (n / 2 ^ ((3 - i) * 8))

high_first-big_endian : (n : ℕ) → high_first n ≡ big_endian 4 n
high_first-big_endian n =
    let first : n / 16777216 % 256 ≡ n / 256 / 256 / 256 % 256 = omega arith in
    let second : n / 65536 % 256 ≡ n / 256 / 256 % 256 = omega arith in
    let third : n / 256 % 256 ≡ n / 256 % 256 = refl in
    let fourth : n / 1 % 256 ≡ n % 256 = omega arith in
    unfold high_first big_endian in
    four (byte_of-digit n 0 ∙ first) (byte_of-digit n 1 ∙ second) (byte_of-digit n 2 ∙ third)
      (byte_of-digit n 3 ∙ fourth)

big_endian-u32 : (n : ℕ) → big_endian 4 (u32 n) ≡ big_endian 4 n
big_endian-u32 n = unfold big_endian in four (omega arith) (omega arith) (omega arith) (omega arith)

-- The count of the context in eight bytes.
count-big_endian :
    (n : ℕ) → high_first (u32 (n / 536870912)) ++ high_first (u32 (n * 8)) ≡ big_endian 8 (n * 8)
count-big_endian n =
    let upper : n / 536870912 ≡ n * 8 / 256 / 256 / 256 / 256 = omega arith in
    let both : big_endian 4 (n * 8 / 256 / 256 / 256 / 256) ++ big_endian 4 (n * 8)
        ≡ big_endian 8 (n * 8) =
      unfold big_endian in refl in
    ap₂ (λ p q. p ++ q)
      (high_first-big_endian (u32 (n / 536870912))
        ∙ (big_endian-u32 (n / 536870912) ∙ ap (big_endian 4) upper))
      (high_first-big_endian (u32 (n * 8)) ∙ big_endian-u32 (n * 8))
    ∙ both

digest_of-words_digest : (s : Words) → digest_of s ≡ words_digest s
digest_of-words_digest s =
    let e = high_first-big_endian in
    unfold digest_of words_digest in
    ap₂ (λ p q. p ++ q) (e s.v)
      (ap₂ (λ p q. p ++ q) (e s.w)
        (ap₂ (λ p q. p ++ q) (e s.x) (ap₂ (λ p q. p ++ q) (e s.y) (e s.z))))

-- A message of whole blocks is all in the state.
whole_message :
    (swap : Bool) (message : List ℕ) (c : Context)
    → Represents swap message c
    → length message % 64 ≡ 0
    → c.state ≡ absorb swap (length message / 64) initial_state message
whole_message swap message c r e =
    let len = ap length r.splits ∙ length-append r.whole r.held in
    let none_held = length-nil r.held (omega (arith, r.short, r.size)) in
    r.absorbed
    ∙ ap₂ (λ n m. absorb swap n initial_state m) (omega (arith, r.short, r.size))
        (sym (append-nil r.whole) ∙ (ap (λ h. r.whole ++ h) (sym none_held) ∙ sym r.splits))

pieces_of_padded :
    (message : List ℕ) (bits : List ℕ)
    → ((message ++ (128 ∷ [])) ++ replicate (zeros_for (length (message ++ (128 ∷ [])))) 0) ++ bits
      ≡ message ++ (128 ∷ (replicate ((119 - length message % 64) % 64) 0 ++ bits))
pieces_of_padded message bits =
    let n : zeros_for (length (message ++ (128 ∷ []))) ≡ (119 - length message % 64) % 64 =
      omega (arith, length-append message (128 ∷ [])) in
    append_assoc (message ++ (128 ∷ [])) (replicate (zeros_for (length (message ++ (128 ∷ [])))) 0)
      bits
    ∙ (append_assoc message (128 ∷ [])
          (replicate (zeros_for (length (message ++ (128 ∷ [])))) 0 ++ bits)
        ∙ ap (λ k. message ++ (128 ∷ (replicate k 0 ++ bits))) n)

length-padded : (message : List ℕ) → length (padded message) % 64 ≡ 0
length-padded message =
    let z = (119 - length message % 64) % 64 in
    let bits = big_endian 8 (length message * 8) in
    let eight : length bits ≡ 8 = unfold big_endian in refl in
    unfold padded in
    omega (
      arith,
      length-append message (128 ∷ (replicate z 0 ++ bits)),
      length-append {A = ℕ} (replicate z 0) bits,
      length-replicate {A = ℕ} z 0,
      eight,
    )

final_lem :
    (swap : Bool) (message : List ℕ) (c : Context)
    → Represents swap message c
    → final swap c ≡ standard_hash swap message
final_lem swap message c r =
    let one = message ++ (128 ∷ []) in
    let z = zeros_for (length one) in
    let filled = fill_up swap 64 (update swap c (128 ∷ [])) in
    let bits = high_first c.count1 ++ high_first c.count0 in
    let bits_eq : bits ≡ big_endian 8 (length message * 8) =
      ap₂ (λ p q. high_first p ++ high_first q) r.high r.low ∙ count-big_endian (length message) in
    let all : Represents swap ((one ++ replicate z 0) ++ bits) (update swap filled bits) =
      update-Represents swap (one ++ replicate z 0) bits filled (
        fill_up-Represents swap 64 z one (update swap c (128 ∷ []))
          (update-Represents swap message (128 ∷ []) c r) refl (omega arith)) in
    let same : (one ++ replicate z 0) ++ bits ≡ padded message =
      pieces_of_padded message bits
      ∙ unfold padded in
        ap (λ b. message ++ (128 ∷ (replicate ((119 - length message % 64) % 64) 0 ++ b)))
          bits_eq in
    let state =
      whole_message swap (padded message) (update swap filled bits)
        (subst (λ m. Represents swap m (update swap filled bits)) same all)
        (length-padded message) in
    unfold final standard_hash in
    digest_of-words_digest (update swap filled bits).state
    ∙ ap words_digest (
        state
        ∙ ap (λ w. absorb swap (length (padded message) / 64) w (padded message))
            initial_state-first_hash)

-- However a message is cut into pieces, HashSH1's three calls give the digest of the standard
-- for the whole message, but for the bytes of a word of a block, which are taken as blk0 reads them, if
-- the buffer of the context has 64 bytes.
pub hash-standard_hash :
    (swap : Bool) (rest : List ℕ) (pieces : List (List ℕ))
    → length rest ≡ 64
    → hash swap rest pieces ≡ standard_hash swap (joined pieces)
hash-standard_hash swap rest pieces e =
    unfold hash in
    final_lem swap (joined pieces) _
      (feed-Represents swap pieces [] (init rest) (init-Represents swap rest e))
