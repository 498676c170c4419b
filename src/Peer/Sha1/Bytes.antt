-- ===== src/Peer/Sha1/Bytes.antt =====
-- How blk0 reads a word of the block.
use native.Mathlib.Nat.{pow-suc}
use s.Prelude.{
  ℕ, zero, suc, ◌+◌, ◌*◌, ◌/◌, ◌%◌, ◌^◌, ◌<◌, ◌≡◌, ◌∙◌, refl, sym, ap, ap₂, true, false, List, ◌∷◌,
  bit_and, bit_or, get_or, arith, min, ◌≤◌,
}
use Prim.Native.Nat.{max}
use s.Bits.{bit_and_lowest, bit_or_lowest, bit_and-255}
use s.Peer.Sha1.{u32, rol, words_of, first_word}

-- A word of four bytes, the highest first.
abbrev word : ℕ → ℕ → ℕ → ℕ → ℕ
word a b c d = ((a * 256 + b) * 256 + c) * 256 + d

-- An operation on numbers digit by digit, taken by parts: the digits above the lowest `k`, and those.
module _ (op low : ℕ → ℕ → ℕ)
    (lowest : (a b : ℕ) → op a b ≡ op (a / 2) (b / 2) * 2 + low (a % 2) (b % 2))
    (none_set : op 0 0 ≡ 0) where
  by_parts :
      (k a b c d : ℕ)
      → b < 2 ^ k
      → d < 2 ^ k
      → op (a * 2 ^ k + b) (c * 2 ^ k + d) ≡ op a c * 2 ^ k + op b d
  by_parts zero a b c d hb hd =
      let eb : b ≡ 0 = omega arith in
      let ed : d ≡ 0 = omega arith in
      let ea : a * 1 + 0 ≡ a = omega arith in
      let ec : c * 1 + 0 ≡ c = omega arith in rw (eb, ed, ea, ec) (omega (arith, none_set))
  by_parts (suc k) a b c d hb hd =
      let e = pow-suc 2 k in
      let ih = by_parts k a (b / 2) c (d / 2) (omega arith) (omega arith) in
      let x = a * 2 ^ k in
      let y = c * 2 ^ k in
      let ex : a * 2 ^ suc k ≡ x * 2 = omega (arith, ap (λ p. a * p) e) in
      let ey : c * 2 ^ suc k ≡ y * 2 = omega (arith, ap (λ p. c * p) e) in
      let ez : op a c * 2 ^ suc k ≡ op a c * 2 ^ k * 2 = omega (arith, ap (λ p. op a c * p) e) in
      let hx : (x * 2 + b) / 2 ≡ x + b / 2 = omega arith in
      let hy : (y * 2 + d) / 2 ≡ y + d / 2 = omega arith in
      let mx : (x * 2 + b) % 2 ≡ b % 2 = omega arith in
      let my : (y * 2 + d) % 2 ≡ d % 2 = omega arith in
      ap₂ (λ p q. op (p + b) (q + d)) ex ey
      ∙ (omega
          (arith, lowest (x * 2 + b) (y * 2 + d), ap₂ op hx hy, ap₂ low mx my, ih, lowest b d, ez))

  by_bytes :
      (a b c d e f g h : ℕ)
      → b < 256
      → c < 256
      → d < 256
      → f < 256
      → g < 256
      → h < 256
      → op (word a b c d) (word e f g h) ≡ word (op a e) (op b f) (op c g) (op d h)
  by_bytes a b c d e f g h hb hc hd hf hg hh =
      by_parts 8 ((a * 256 + b) * 256 + c) d ((e * 256 + f) * 256 + g) h hd hh
      ∙ ap (λ n. n * 256 + op d h)
          (by_parts 8 (a * 256 + b) c (e * 256 + f) g hc hg
            ∙ ap (λ n. n * 256 + op c g) (by_parts 8 a b e f hb hf))

or_zero : (k a : ℕ) → a ≤ k → (bit_or a 0 ≡ a) × (bit_or 0 a ≡ a)
or_zero zero a h =
    let none_left : a ≡ 0 = omega arith in
    (ap (λ n. bit_or n 0) none_left ∙ sym none_left, ap (bit_or 0) none_left ∙ sym none_left)
or_zero (suc k) a h =
    omega (arith, bit_or_lowest a 0, bit_or_lowest 0 a, or_zero k (a / 2) (omega arith))

word_and :
    (a b c d e f g h : ℕ)
    → b < 256
    → c < 256
    → d < 256
    → f < 256
    → g < 256
    → h < 256
    → bit_and (word a b c d) (word e f g h)
      ≡ word (bit_and a e) (bit_and b f) (bit_and c g) (bit_and d h)
word_and = by_bytes bit_and min bit_and_lowest refl

word_or :
    (a b c d e f g h : ℕ)
    → b < 256
    → c < 256
    → d < 256
    → f < 256
    → g < 256
    → h < 256
    → bit_or (word a b c d) (word e f g h)
      ≡ word (bit_or a e) (bit_or b f) (bit_or c g) (bit_or d h)
word_or = by_bytes bit_or max bit_or_lowest refl

-- The two rotations of blk0 on a word of four bytes.
rol-eight :
    (a b c d : ℕ) → a < 256 → b < 256 → c < 256 → d < 256 → rol (word a b c d) 8 ≡ word b c d a
rol-eight a b c d ha hb hc hd =
    let high : u32 (word a b c d * 256) ≡ word b c d 0 = omega arith in
    let low : word a b c d / 16777216 ≡ word 0 0 0 a = omega arith in
    unfold rol in
    ap₂ bit_or high low
    ∙ (word_or b c d 0 0 0 0 a hc hd (omega arith) (omega arith) (omega arith) ha
        ∙ omega (arith, or_zero b b, or_zero c c, or_zero d d, or_zero a a))

rol-twenty_four :
    (a b c d : ℕ) → a < 256 → b < 256 → c < 256 → d < 256 → rol (word a b c d) 24 ≡ word d a b c
rol-twenty_four a b c d ha hb hc hd =
    let high : u32 (word a b c d * 16777216) ≡ word d 0 0 0 = omega arith in
    let low : word a b c d / 256 ≡ word 0 a b c = omega arith in
    unfold rol in
    ap₂ bit_or high low
    ∙ (word_or d 0 0 0 0 a b c (omega arith) (omega arith) (omega arith) ha hb hc
        ∙ omega (arith, or_zero b b, or_zero c c, or_zero d d, or_zero a a))

and_zero : (k a : ℕ) → a ≤ k → bit_and a 0 ≡ 0
and_zero zero a h = let none_left : a ≡ 0 = omega arith in ap (λ n. bit_and n 0) none_left
and_zero (suc k) a h = omega (arith, bit_and_lowest a 0, and_zero k (a / 2) (omega arith))

mask_bytes :
    (a b c d : ℕ)
    → a < 256
    → b < 256
    → c < 256
    → d < 256
    → bit_or (bit_and (word a d c b) 4278255360) (bit_and (word c b a d) 16711935) ≡ word a b c d
mask_bytes a b c d ha hb hc hd =
    let first : bit_and (word a d c b) (word 255 0 255 0) ≡ word a 0 c 0 =
      word_and a d c b 255 0 255 0 hd hc hb (omega arith) (omega arith) (omega arith)
      ∙ omega (arith, bit_and-255 a, and_zero d d, bit_and-255 c, and_zero b b) in
    let second : bit_and (word c b a d) (word 0 255 0 255) ≡ word 0 b 0 d =
      word_and c b a d 0 255 0 255 hb ha hd (omega arith) (omega arith) (omega arith)
      ∙ omega (arith, and_zero c c, bit_and-255 b, and_zero a a, bit_and-255 d) in
    ap₂ bit_or first second
    ∙ (word_or a 0 c 0 0 b 0 d (omega arith) hc (omega arith) hb (omega arith) hd
        ∙ omega (arith, or_zero a a, or_zero b b, or_zero c c, or_zero d d))

-- With LITTLE_ENDIAN, blk0 reads the four bytes of a word of the block as a number with its highest
-- byte first, as the standard does; without, as x86 loads them, with the lowest first.
pub first_word-bytes :
    (a b c d : ℕ) (rest : List ℕ)
    → a < 256
    → b < 256
    → c < 256
    → d < 256
    → (first_word true (get_or (words_of (a ∷ b ∷ c ∷ d ∷ rest)) 0 0)
        ≡ ((a * 256 + b) * 256 + c) * 256 + d)
      × (first_word false (get_or (words_of (a ∷ b ∷ c ∷ d ∷ rest)) 0 0)
          ≡ ((d * 256 + c) * 256 + b) * 256 + a)
first_word-bytes a b c d rest ha hb hc hd =
    let loaded : a + b * 256 + c * 65536 + d * 16777216 ≡ word d c b a = omega arith in
    let outer = rol-twenty_four d c b a hd hc hb ha in
    let inner = rol-eight d c b a hd hc hb ha in
    (
      unfold first_word words_of in
          ap (λ l. bit_or (bit_and (rol l 24) 4278255360) (bit_and (rol l 8) 16711935)) loaded
          ∙ (ap₂ (λ p q. bit_or (bit_and p 4278255360) (bit_and q 16711935)) outer inner
              ∙ mask_bytes a b c d ha hb hc hd),
      unfold first_word words_of in loaded,
    )
