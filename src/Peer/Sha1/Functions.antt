-- ===== src/Peer/Sha1/Functions.antt =====
-- The expressions of the macros, and the functions of the standard, on words of 32 bits.
use native.Mathlib.Nat.{pow-suc}
use s.Prelude.{ℕ, zero, suc, ◌-◌, ◌*◌, ◌/◌, ◌^◌, ◌<◌, ◌≡◌, bit_and, bit_or, bit_xor, arith}
use s.Bits.{bit_and-half, bit_or-half, bit_xor-half, bit_xor_digit, bit_or-lt}
use s.Peer.Sha1.{u32, rol, mix, Words}
use s.Peer.Sha1.Standard.{by_digits, choose_digit, parity_digit, majority_digit, function}

below_one : (n : ℕ) → n < 2 ^ 0 → n ≡ 0
below_one n h = omega arith

choose_lem :
    (n w x y : ℕ)
    → w < 2 ^ n
    → x < 2 ^ n
    → y < 2 ^ n
    → bit_xor (bit_and w (bit_xor x y)) y ≡ by_digits choose_digit n w x y
unfolding by_digits
choose_lem zero w x y hw hx hy = rw (below_one w hw, below_one x hx, below_one y hy)
choose_lem (suc n) w x y hw hx hy =
    let e = pow-suc 2 n in
    let ih = choose_lem n (w / 2) (x / 2) (y / 2) (omega arith) (omega arith) (omega arith) in
    ground (
      arith,
      ih,
      bit_xor_digit (bit_and w (bit_xor x y)) y,
      bit_and-half w (bit_xor x y),
      bit_xor-half x y,
    )

parity_lem :
    (n w x y : ℕ)
    → w < 2 ^ n
    → x < 2 ^ n
    → y < 2 ^ n
    → bit_xor (bit_xor w x) y ≡ by_digits parity_digit n w x y
unfolding by_digits
parity_lem zero w x y hw hx hy = rw (below_one w hw, below_one x hx, below_one y hy)
parity_lem (suc n) w x y hw hx hy =
    let e = pow-suc 2 n in
    let ih = parity_lem n (w / 2) (x / 2) (y / 2) (omega arith) (omega arith) (omega arith) in
    ground (arith, ih, bit_xor_digit (bit_xor w x) y, bit_xor-half w x)

majority_lem :
    (n w x y : ℕ)
    → w < 2 ^ n
    → x < 2 ^ n
    → y < 2 ^ n
    → bit_or (bit_and (bit_or w x) y) (bit_and w x) ≡ by_digits majority_digit n w x y
unfolding by_digits
majority_lem zero w x y hw hx hy = rw (below_one w hw, below_one x hx, below_one y hy)
majority_lem (suc n) w x y hw hx hy =
    let e = pow-suc 2 n in
    let ih = majority_lem n (w / 2) (x / 2) (y / 2) (omega arith) (omega arith) (omega arith) in
    ground (
      arith,
      ih,
      bit_or-half (bit_and (bit_or w x) y) (bit_and w x),
      bit_and-half (bit_or w x) y,
      bit_or-half w x,
      bit_and-half w x,
    )

-- In every round the macro's expression is the function of the standard.
pub mix-function :
    (t w x y : ℕ) → w < 2 ^ 32 → x < 2 ^ 32 → y < 2 ^ 32 → mix t w x y ≡ function t w x y
unfolding mix function
mix-function t w x y hw hx hy = ground (
  arith,
  choose_lem 32 w x y hw hx hy,
  parity_lem 32 w x y hw hx hy,
  majority_lem 32 w x y hw hx hy,
)

-- Words of 32 bits.
pub record IsWords (r : Words) : Type 0 where
  pub v_fits : r.v < 2 ^ 32
  pub w_fits : r.w < 2 ^ 32
  pub x_fits : r.x < 2 ^ 32
  pub y_fits : r.y < 2 ^ 32
  pub z_fits : r.z < 2 ^ 32

pub rol-lt : (n : ℕ) → n < 2 ^ 32 → rol n 30 < 2 ^ 32
unfolding rol
rol-lt n h = bit_or-lt 32 (u32 (n * 2 ^ 30)) (n / 2 ^ (32 - 30)) (omega arith) (omega arith)
