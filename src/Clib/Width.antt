-- ===== src/Clib/Width.antt =====
-- How many digits `decimal` prints.
use native.Mathlib.Nat.{pow-suc}
use s.Prelude.{ℕ, zero, suc, ◌+◌, ◌/◌, ◌%◌, ◌^◌, ◌≤◌, ◌<◌, [], ◌∷◌, arith, length}
use s.Clib.{Text, decimal_fuel, decimal}

decimal_fuel-short :
    (f k n : ℕ) (out : Text) → n < 10 ^ suc k → length (decimal_fuel f n out) ≤ suc k + length out
unfolding decimal_fuel
decimal_fuel-short zero k n out h = omega arith
decimal_fuel-short (suc f) zero n out h = ground arith
decimal_fuel-short (suc f) (suc k) n out h =
    let e = pow-suc 10 (suc k) in
    ground (arith, decimal_fuel-short f k (n / 10) ((48 + n % 10) ∷ out) (omega arith))

pow-pos : (k : ℕ) → 1 ≤ 10 ^ k
pow-pos zero = omega arith
pow-pos (suc k) = omega (arith, pow-suc 10 k, pow-pos k)

decimal_fuel-grows : (f n : ℕ) (out : Text) → length out ≤ length (decimal_fuel f n out)
unfolding decimal_fuel
decimal_fuel-grows zero n out = omega arith
decimal_fuel-grows (suc f) n out =
    ground (arith, decimal_fuel-grows f (n / 10) ((48 + n % 10) ∷ out))

decimal_fuel-long :
    (f k n : ℕ) (out : Text)
    → n < f
    → 10 ^ k ≤ n
    → suc k + length out ≤ length (decimal_fuel f n out)
unfolding decimal_fuel
decimal_fuel-long zero k n out h g = absurd (omega arith)
decimal_fuel-long (suc f) zero n out h g =
    let longer = decimal_fuel-grows f (n / 10) ((48 + n % 10) ∷ out) in ground arith
decimal_fuel-long (suc f) (suc k) n out h g =
    let e = pow-suc 10 k in
    let one : 1 ≤ 10 ^ k = pow-pos k in
    let again = decimal_fuel-long f k (n / 10) ((48 + n % 10) ∷ out) (omega arith) (omega arith) in
    ground arith

pub decimal-short : (k n : ℕ) → n < 10 ^ suc k → length (decimal n) ≤ suc k
decimal-short k n h = unfold decimal in omega (arith, decimal_fuel-short (n + 1) k n [] h)

pub decimal-long : (k n : ℕ) → 10 ^ k ≤ n → suc k ≤ length (decimal n)
decimal-long k n h =
    unfold decimal in omega (arith, decimal_fuel-long (n + 1) k n [] (omega arith) h)
