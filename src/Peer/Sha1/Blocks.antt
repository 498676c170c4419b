-- ===== src/Peer/Sha1/Blocks.antt =====
-- Blocks one after the other, and the loop of SHA1Update over the whole blocks of its data.
use s.Prelude.{
  ℕ, zero, suc, ◌+◌, ◌*◌, ◌%◌, ◌≤◌, ◌<◌, ◌≡◌, ◌∙◌, refl, sym, ap, ap₂, subst, inl, inr, Bool, true,
  false, List, [], ◌∷◌, ◌++◌, length, take, drop, length-append, length-take, length-drop,
  take-append, drop-append, take-drop, take-append_short, drop-append_short, append_assoc,
  append-nil, arith, ltb, Bool-cases, length-set,
}
use s.Peer.Sha1.{
  Words, bytes_of, words_of, rounds, word_at, add_words, transform, initial_state, whole_blocks,
}
use s.Peer.Sha1.Standard.{sums, first_hash, compress, absorb}
use s.Peer.Sha1.Functions.{IsWords}
use s.Peer.Sha1.Schedule.{transform-compress, length-words_of}

pub compress-IsWords :
    (swap : Bool) (state : Words) (bytes : List ℕ) → IsWords (compress swap state bytes)
compress-IsWords swap state bytes =
    unfold compress sums in
    record {
      v_fits = omega arith;
      w_fits = omega arith;
      x_fits = omega arith;
      y_fits = omega arith;
      z_fits = omega arith;
    }

pub transform-IsWords :
    (swap : Bool) (state : Words) (bytes : List ℕ) → IsWords (transform swap state bytes).0
transform-IsWords swap state bytes =
    unfold transform add_words in
    record {
      v_fits = omega arith;
      w_fits = omega arith;
      x_fits = omega arith;
      y_fits = omega arith;
      z_fits = omega arith;
    }

-- SHA1Init sets the standard's first hash value.
pub initial_state-first_hash : initial_state ≡ first_hash
initial_state-first_hash = unfold initial_state first_hash in refl

pub initial_state-IsWords : IsWords initial_state
initial_state-IsWords =
    unfold initial_state in
    record {
      v_fits = omega arith;
      w_fits = omega arith;
      x_fits = omega arith;
      y_fits = omega arith;
      z_fits = omega arith;
    }

length-rounds :
    (swap : Bool) (left s : ℕ) (block : List ℕ) (r : Words)
    → length (rounds swap left s block r).0 ≡ length block
unfolding rounds
length-rounds swap zero s block r = refl
length-rounds swap (suc left) s block r =
    length-rounds swap left (suc s) _ _ ∙ length-set block (s % 16) (word_at swap s block)

length-bytes_of : (ws : List ℕ) → length (bytes_of ws) ≡ length ws * 4
unfolding bytes_of
length-bytes_of [] = refl
length-bytes_of (w ∷ ws) = omega (arith, length-bytes_of ws)

pub length-transform :
    (swap : Bool) (state : Words) (buffer : List ℕ)
    → length buffer ≡ 64
    → length (transform swap state buffer).1 ≡ 64
length-transform swap state buffer len =
    unfold transform in
    omega (
      arith,
      length-bytes_of (rounds swap 80 0 (words_of buffer) state).0,
      length-rounds swap 80 0 (words_of buffer) state,
      length-words_of buffer,
    )

pub absorb-append :
    (swap : Bool) (n m : ℕ) (state : Words) (xs ys : List ℕ)
    → length xs ≡ n * 64
    → absorb swap (n + m) state (xs ++ ys) ≡ absorb swap m (absorb swap n state xs) ys
unfolding absorb
absorb-append swap zero m state [] ys len =
    let e : 0 + m ≡ m = omega arith in ap (λ k. absorb swap k state ys) e
absorb-append swap zero m state (x ∷ xs) ys len = absurd (omega arith)
absorb-append swap (suc n) m state xs ys len =
    let count : suc n + m ≡ suc (n + m) = omega arith in
    ap (λ k. absorb swap k state (xs ++ ys)) count
    ∙ (ap₂ (λ p q. absorb swap (n + m) (compress swap state p) q)
          (take-append_short 64 xs ys (omega arith)) (drop-append_short 64 xs ys (omega arith))
        ∙ absorb-append swap n m (compress swap state (take 64 xs)) (drop 64 xs) ys
            (omega (arith, length-drop 64 xs)))

pub absorb-IsWords :
    (swap : Bool) (n : ℕ) (state : Words) (bytes : List ℕ)
    → IsWords state
    → IsWords (absorb swap n state bytes)
unfolding absorb
absorb-IsWords swap zero state bytes w = w
absorb-IsWords swap (suc n) state bytes w =
    absorb-IsWords swap n _ (drop 64 bytes) (compress-IsWords swap state (take 64 bytes))

pub absorb-block :
    (swap : Bool) (n : ℕ) (state : Words) (xs ys : List ℕ)
    → length xs ≡ 64
    → absorb swap (suc n) state (xs ++ ys) ≡ absorb swap n (compress swap state xs) ys
absorb-block swap n state xs ys e =
    unfold absorb in rw (take-append 64 xs ys e, drop-append 64 xs ys e)

pub absorb-one :
    (swap : Bool) (state : Words) (xs : List ℕ)
    → length xs ≡ 64
    → absorb swap 1 state xs ≡ compress swap state xs
absorb-one swap state xs e =
    ap (absorb swap 1 state) (sym (append-nil xs))
    ∙ (absorb-block swap 0 state xs [] e ∙ unfold absorb in refl)

-- What the loop makes of its data: whole blocks taken in, and less than a block left.
pub record Taken (swap : Bool) (state : Words) (bytes : List ℕ) (result : Words × List ℕ)
    : Type 0 where
  pub blocks : ℕ
  pub whole : List ℕ
  pub splits : bytes ≡ whole ++ result.1
  pub size : length whole ≡ blocks * 64
  pub short : length result.1 < 64
  pub absorbed : result.0 ≡ absorb swap blocks state whole

whole_blocks-more :
    (swap : Bool) (fuel : ℕ) (state : Words) (bytes : List ℕ)
    → ltb 63 (length bytes) ≡ true
    → whole_blocks swap (suc fuel) state bytes
      ≡ whole_blocks swap fuel (transform swap state (take 64 bytes)).0 (drop 64 bytes)
whole_blocks-more swap fuel state bytes e = unfold whole_blocks in rw e

whole_blocks-stop :
    (swap : Bool) (fuel : ℕ) (state : Words) (bytes : List ℕ)
    → ltb 63 (length bytes) ≡ false
    → whole_blocks swap (suc fuel) state bytes ≡ (state, bytes)
whole_blocks-stop swap fuel state bytes e = unfold whole_blocks in rw e

Taken-none :
    (swap : Bool) (state : Words) (bytes : List ℕ)
    → length bytes < 64
    → Taken swap state bytes (state, bytes)
Taken-none swap state bytes h = record {
  blocks = 0;
  whole = [];
  splits = refl;
  size = refl;
  short = h;
  absorbed = unfold absorb in refl;
}

Taken-block :
    (swap : Bool) (state : Words) (bytes : List ℕ) (result : Words × List ℕ)
    → IsWords state
    → 64 ≤ length bytes
    → Taken swap (transform swap state (take 64 bytes)).0 (drop 64 bytes) result
    → Taken swap state bytes result
Taken-block swap state bytes result w h t =
    let len : length (take 64 bytes) ≡ 64 = omega (arith, length-take 64 bytes) in
    record {
      blocks = suc t.blocks;
      whole = take 64 bytes ++ t.whole;
      splits = sym (
          append_assoc (take 64 bytes) t.whole result.1
          ∙ (ap (λ ys. take 64 bytes ++ ys) (sym t.splits) ∙ take-drop 64 bytes));
      size = omega (arith, length-append (take 64 bytes) t.whole, t.size);
      short = t.short;
      absorbed =
          t.absorbed
          ∙ (ap (λ q. absorb swap t.blocks q t.whole)
                (transform-compress swap state (take 64 bytes) w len)
              ∙ sym (absorb-block swap t.blocks state (take 64 bytes) t.whole len));
    }

pub whole_blocks-Taken :
    (swap : Bool) (fuel : ℕ) (state : Words) (bytes : List ℕ)
    → IsWords state
    → length bytes ≤ fuel
    → Taken swap state bytes (whole_blocks swap fuel state bytes)
unfolding whole_blocks
whole_blocks-Taken swap zero state bytes w enough = Taken-none swap state bytes (omega arith)
whole_blocks-Taken swap (suc fuel) state bytes w enough =
    elim (Bool-cases (ltb 63 (length bytes))) [
      | inl e ↦ subst (Taken swap state bytes) (sym (whole_blocks-more swap fuel state bytes e)) (
          Taken-block swap state bytes _ w (ground arith) (
            whole_blocks-Taken swap fuel _ (drop 64 bytes)
              (transform-IsWords swap state (take 64 bytes)) (omega (arith, length-drop 64 bytes))))
      | inr e ↦
          subst (Taken swap state bytes) (sym (whole_blocks-stop swap fuel state bytes e))
            (Taken-none swap state bytes (ground arith))
    ]
