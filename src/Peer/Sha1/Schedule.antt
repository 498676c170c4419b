-- ===== src/Peer/Sha1/Schedule.antt =====
-- The sixteen words that SHA1Transform keeps and overwrites, and the eighty words of the schedule.
use native.Mathlib.Nat.{eq-or-lt_of_le}
use s.Prelude.{
  ℕ, zero, suc, ◌+◌, ◌-◌, ◌/◌, ◌%◌, ◌≤◌, ◌<◌, ◌≡◌, ◌≢◌, ◌∙◌, refl, sym, ap, inl, inr, Bool, false,
  List, [], ◌∷◌, length, get_or, set, length-set, get_or-set_self, get_or-set_other, bit_xor, arith,
  ltb, Bool-cases,
}
use s.Peer.Sha1.{
  constant, u32, rol, Words, words_of, first_word, next_word, word_at, mix, stir, rounds, add_words,
  transform,
}
use s.Peer.Sha1.Standard.{
  rotl, sums, round_constant, schedule, scheduled, standard_round, standard_rounds, compress,
  function,
}
use s.Peer.Sha1.Functions.{mix-function, IsWords, rol-lt}

-- The words made earlier, counted back from the newest.
get_or-schedule :
    (f : ℕ → ℕ) (k t : ℕ) → k < t → get_or (schedule f t) k 0 ≡ scheduled f (t - 1 - k)
unfolding schedule
get_or-schedule f k zero h = absurd (omega arith)
get_or-schedule f zero (suc t) h =
    unfold scheduled in ap (λ n. get_or (schedule f (suc n)) 0 0) (omega arith)
get_or-schedule f (suc k) (suc t) h =
    get_or-schedule f k t (omega arith) ∙ ap (scheduled f) (omega arith)

scheduled_first : (f : ℕ → ℕ) (t : ℕ) → t < 16 → scheduled f t ≡ f t
unfolding scheduled schedule
scheduled_first f t h = ground arith

scheduled_later :
    (f : ℕ → ℕ) (t : ℕ)
    → 16 ≤ t
    → scheduled f t
      ≡ rotl
          (bit_xor
            (bit_xor (bit_xor (scheduled f (t - 3)) (scheduled f (t - 8))) (scheduled f (t - 14)))
            (scheduled f (t - 16)))
          1
scheduled_later f t h =
    unfold scheduled schedule in
    ground (
      arith,
      get_or-schedule f 2 t,
      get_or-schedule f 7 t,
      get_or-schedule f 13 t,
      get_or-schedule f 15 t,
    )

-- The words of a block as the rounds read them.
abbrev read_words : Bool → List ℕ → ℕ → ℕ
read_words swap raw t = first_word swap (get_or raw t 0)

-- Before round `s` the sixteen places hold the last sixteen words of the schedule that are made, and
-- raw words of the block where none is made yet.
record HoldsWords (swap : Bool) (raw : List ℕ) (s : ℕ) (block : List ℕ) : Type 0 where
  size : length block ≡ 16
  made : (t : ℕ) → t < s → s ≤ t + 16 → get_or block (t % 16) 0 ≡ scheduled (read_words swap raw) t
  raw_words : (t : ℕ) → s ≤ t → t < 16 → get_or block t 0 ≡ get_or raw t 0

made_before :
    (swap : Bool) (raw : List ℕ) (s : ℕ) (block : List ℕ) (ahead back : ℕ)
    → HoldsWords swap raw s block
    → 16 ≤ s
    → ahead + back ≡ 16
    → 1 ≤ back
    → get_or block ((s + ahead) % 16) 0 ≡ scheduled (read_words swap raw) (s - back)
made_before swap raw s block ahead back h later e b =
    ap (λ n. get_or block n 0) (omega arith) ∙ h.made (s - back) (omega arith) (omega arith)

word_at-first :
    (swap : Bool) (raw : List ℕ) (s : ℕ) (block : List ℕ)
    → HoldsWords swap raw s block
    → s < 16
    → word_at swap s block ≡ scheduled (read_words swap raw) s
unfolding word_at
word_at-first swap raw s block h lt =
    ground (arith, h.raw_words s (omega arith) lt, scheduled_first (read_words swap raw) s lt)

word_at-later :
    (swap : Bool) (raw : List ℕ) (s : ℕ) (block : List ℕ)
    → HoldsWords swap raw s block
    → 16 ≤ s
    → word_at swap s block ≡ scheduled (read_words swap raw) s
word_at-later swap raw s block h le =
    let e3 = made_before swap raw s block 13 3 h le refl (omega arith) in
    let e8 = made_before swap raw s block 8 8 h le refl (omega arith) in
    let e14 = made_before swap raw s block 2 14 h le refl (omega arith) in
    let e16 = h.made (s - 16) (omega arith) (omega arith) in
    let same : (s - 16) % 16 ≡ s % 16 = omega arith in
    let e = scheduled_later (read_words swap raw) s le in
    let no : ltb s 16 ≡ false = ground arith in
    unfold word_at next_word rol rotl in rw (no, e3, e8, e14, sym same, e16, e)

word_at-scheduled :
    (swap : Bool) (raw : List ℕ) (s : ℕ) (block : List ℕ)
    → HoldsWords swap raw s block
    → word_at swap s block ≡ scheduled (read_words swap raw) s
word_at-scheduled swap raw s block h = elim (Bool-cases (ltb s 16)) [
  | inl e ↦ word_at-first swap raw s block h (ground arith)
  | inr e ↦ word_at-later swap raw s block h (ground arith)
]

same_place : (s t : ℕ) → t < s → s < t + 16 → s % 16 ≢ t % 16
same_place s t lt le e = omega arith

HoldsWords-step :
    (swap : Bool) (raw : List ℕ) (s : ℕ) (block : List ℕ)
    → HoldsWords swap raw s block
    → HoldsWords swap raw (suc s) (set block (s % 16) (word_at swap s block))
HoldsWords-step swap raw s block h = record {
  size = length-set block (s % 16) _ ∙ h.size;
  made = λ t lt le. elim (eq-or-lt_of_le {n = t} {m = s} (omega arith)) [
    | inl e ↦
        ap (λ n. get_or (set block (s % 16) (word_at swap s block)) (n % 16) 0) e
        ∙ (get_or-set_self block (s % 16) _ 0 (omega (arith, h.size))
            ∙ (word_at-scheduled swap raw s block h ∙ ap (scheduled (read_words swap raw)) (sym e)))
    | inr lt' ↦
        get_or-set_other block (s % 16) (t % 16) _ 0 (same_place s t lt' (omega arith))
        ∙ h.made t lt' (omega arith)
  ];
  raw_words = λ t le lt.
      get_or-set_other block (s % 16) t _ 0 (λ e. omega arith) ∙ h.raw_words t (omega arith) lt;
}

-- A round of the macros is one of the standard.
stir-standard_round : (t m : ℕ) (r : Words) → IsWords r → stir t m r ≡ standard_round t m r
stir-standard_round t m r h =
    let e : u32 (r.z + (mix t r.w r.x r.y + m + constant t + rol r.v 5))
        ≡ u32 (rol r.v 5 + function t r.w r.x r.y + r.z + constant t + m) =
      ap u32 (omega (arith, mix-function t r.w r.x r.y h.w_fits h.x_fits h.y_fits)) in
    unfold stir standard_round rol rotl constant round_constant in
    ap (λ n. record { v = n; w = r.v; x = rol r.w 30; y = r.x; z = r.y }) e

IsWords-stir : (t m : ℕ) (r : Words) → IsWords r → IsWords (standard_round t m r)
IsWords-stir t m r h =
    unfold standard_round rotl rol in
    record {
      v_fits = omega arith;
      w_fits = h.v_fits;
      x_fits = rol-lt r.w h.w_fits;
      y_fits = h.x_fits;
      z_fits = h.y_fits;
    }

rounds-standard :
    (swap : Bool) (raw : List ℕ) (left s : ℕ) (block : List ℕ) (r : Words)
    → HoldsWords swap raw s block
    → IsWords r
    → (rounds swap left s block r).1 ≡ standard_rounds (read_words swap raw) left s r
unfolding rounds standard_rounds
rounds-standard swap raw zero s block r h w = refl
rounds-standard swap raw (suc left) s block r h w =
    let m = word_at swap s block in
    let r' = standard_round s (scheduled (read_words swap raw) s) r in
    let same : stir s m r ≡ r' =
      stir-standard_round s m r w
      ∙ ap (λ n. standard_round s n r) (word_at-scheduled swap raw s block h) in
    let again =
      rounds-standard swap raw left (suc s) (set block (s % 16) m) r'
        (HoldsWords-step swap raw s block h)
        (IsWords-stir s (scheduled (read_words swap raw) s) r w) in
    ap (λ q. (rounds swap left (suc s) (set block (s % 16) m) q).1) same ∙ again

pub length-words_of : (bytes : List ℕ) → length (words_of bytes) ≡ length bytes / 4
unfolding words_of
length-words_of [] = refl
length-words_of (a ∷ []) = refl
length-words_of (a ∷ b ∷ []) = refl
length-words_of (a ∷ b ∷ c ∷ []) = refl
length-words_of (a ∷ b ∷ c ∷ d ∷ rest) = omega (arith, length-words_of rest)

-- SHA1Transform computes the compression function of the standard: for a state of words of 32 bits
-- and 64 bytes, the state it leaves is the one of eighty rounds over the whole schedule.
pub transform-compress :
    (swap : Bool) (state : Words) (buffer : List ℕ)
    → IsWords state
    → length buffer ≡ 64
    → (transform swap state buffer).0 ≡ compress swap state buffer
transform-compress swap state buffer w len =
    unfold transform compress add_words sums in
    ap (sums state) (
      rounds-standard swap (words_of buffer) 80 0 (words_of buffer) state
        (record {
          size = length-words_of buffer ∙ ap (λ n. n / 4) len;
          made = λ t lt le. absurd (omega arith);
          raw_words = λ t le lt. refl;
        })
        w)
