-- ===== src/Bits.antt =====
-- The native operations on binary digits at variables: what one does to the lowest digit, and masks
-- of low bits.
use Prim.Native.Nat.{digits, bit_and-bitwise, bit_or-bitwise, bit_xor-bitwise, differ, max}
use native.Mathlib.Nat.{pow-suc}
use s.Prelude.{
  ℕ, zero, suc, ◌+◌, ◌*◌, ◌/◌, ◌%◌, ◌^◌, ◌≤◌, ◌<◌, ◌≡◌, ◌∙◌, refl, sym, min, bit_and, bit_or,
  bit_xor, arith, ap,
}

module _ (ends : ℕ → ℕ) (f : ℕ → ℕ → ℕ) where
  digits-zero : (fuel b : ℕ) → digits ends f fuel 0 b ≡ ends b
  digits-zero zero b = refl
  digits-zero (suc fuel) b = refl

  -- Fuel beyond the number itself changes nothing.
  digits_spare : (k fuel a b : ℕ) → a ≤ k → a ≤ fuel → digits ends f fuel a b ≡ digits ends f k a b
  digits_spare k fuel zero b p h = digits-zero fuel b ∙ sym (digits-zero k b)
  digits_spare zero fuel (suc a) b p h = absurd (omega arith)
  digits_spare (suc k) zero (suc a) b p h = absurd (omega arith)
  digits_spare (suc k) (suc fuel) (suc a) b p h =
      ap (λ t. t * 2 + f (suc a % 2) (b % 2))
        (digits_spare k fuel (suc a / 2) (b / 2) (omega arith) (omega arith))

  digits-suc :
      (a b : ℕ)
      → digits ends f (suc a) (suc a) b
        ≡ digits ends f (suc a / 2) (suc a / 2) (b / 2) * 2 + f (suc a % 2) (b % 2)
  digits-suc a b =
      ap (λ t. t * 2 + f (suc a % 2) (b % 2))
        (digits_spare (suc a / 2) a (suc a / 2) (b / 2) (omega arith) (omega arith))

pub bit_and_lowest : (a b : ℕ) → bit_and a b ≡ bit_and (a / 2) (b / 2) * 2 + min (a % 2) (b % 2)
bit_and_lowest zero b = simp bit_and-bitwise (omega arith)
bit_and_lowest (suc a) b = simp bit_and-bitwise (digits-suc (λ y. 0) min a b)

pub bit_or_lowest : (a b : ℕ) → bit_or a b ≡ bit_or (a / 2) (b / 2) * 2 + max (a % 2) (b % 2)
bit_or_lowest zero b = simp bit_or-bitwise (omega arith)
bit_or_lowest (suc a) b = simp bit_or-bitwise (digits-suc (λ y. y) max a b)

pub bit_xor_lowest : (a b : ℕ) → bit_xor a b ≡ bit_xor (a / 2) (b / 2) * 2 + differ (a % 2) (b % 2)
bit_xor_lowest zero b = simp bit_xor-bitwise (omega arith)
bit_xor_lowest (suc a) b = simp bit_xor-bitwise (digits-suc (λ y. y) differ a b)

bit_and-zero : (k a : ℕ) → a ≤ k → bit_and a 0 ≡ 0
bit_and-zero k zero h = refl
bit_and-zero zero (suc a) h = absurd (omega arith)
bit_and-zero (suc k) (suc a) h =
    omega (arith, bit_and_lowest (suc a) 0, bit_and-zero k (suc a / 2) (omega arith))

-- A mask of ones leaves a remainder, digit by digit.
pub bit_and-one : (a : ℕ) → bit_and a 1 ≡ a % 2
bit_and-one a = omega (arith, bit_and_lowest a 1, bit_and-zero (a / 2) (a / 2) (omega arith))

bit_and-seven : (a : ℕ) → bit_and a 7 ≡ a % 8
bit_and-seven a =
    omega (arith, bit_and_lowest a 7, bit_and_lowest (a / 2) 3, bit_and-one (a / 2 / 2))

pub bit_and-63 : (a : ℕ) → bit_and a 63 ≡ a % 64
bit_and-63 a = omega (
  arith,
  bit_and_lowest a 63,
  bit_and_lowest (a / 2) 31,
  bit_and_lowest (a / 2 / 2) 15,
  bit_and-seven (a / 2 / 2 / 2),
)

pub bit_and-255 : (a : ℕ) → bit_and a 255 ≡ a % 256
bit_and-255 a =
    omega (arith, bit_and_lowest a 255, bit_and_lowest (a / 2) 127, bit_and-63 (a / 2 / 2))

-- 504 is six ones and three zeros.
pub bit_and-504 : (a : ℕ) → bit_and a 504 ≡ a / 8 % 64 * 8
bit_and-504 a = omega (
  arith,
  bit_and_lowest a 504,
  bit_and_lowest (a / 2) 252,
  bit_and_lowest (a / 2 / 2) 126,
  bit_and-63 (a / 2 / 2 / 2),
)

differ_digit : (a b : ℕ) → a < 2 → b < 2 → differ a b ≡ (a + b) % 2
differ_digit zero b p h = omega arith
differ_digit (suc zero) zero p h = refl
differ_digit (suc zero) (suc zero) p h = refl
differ_digit (suc zero) (suc (suc b)) p h = absurd (omega arith)
differ_digit (suc (suc a)) b p h = absurd (omega arith)

pub bit_xor_digit : (a b : ℕ) → bit_xor a b ≡ bit_xor (a / 2) (b / 2) * 2 + (a % 2 + b % 2) % 2
bit_xor_digit a b =
    omega (arith, bit_xor_lowest a b, differ_digit (a % 2) (b % 2) (omega arith) (omega arith))

-- An operation on digits lowers to the halves and the last digits of its result.
pub bit_and-half :
    (a b : ℕ)
    → (bit_and a b / 2 ≡ bit_and (a / 2) (b / 2)) × (bit_and a b % 2 ≡ min (a % 2) (b % 2))
bit_and-half a b = omega (arith, bit_and_lowest a b)

pub bit_or-half :
    (a b : ℕ) → (bit_or a b / 2 ≡ bit_or (a / 2) (b / 2)) × (bit_or a b % 2 ≡ max (a % 2) (b % 2))
bit_or-half a b = omega (arith, bit_or_lowest a b)

pub bit_xor-half :
    (a b : ℕ)
    → (bit_xor a b / 2 ≡ bit_xor (a / 2) (b / 2)) × (bit_xor a b % 2 ≡ (a % 2 + b % 2) % 2)
bit_xor-half a b = omega (arith, bit_xor_digit a b)

pub bit_or-lt : (k a b : ℕ) → a < 2 ^ k → b < 2 ^ k → bit_or a b < 2 ^ k
bit_or-lt zero a b ha hb = omega (arith, bit_or_lowest a b, zero_or a b ha hb)
  where
    zero_or : (c d : ℕ) → c < 2 ^ 0 → d < 2 ^ 0 → bit_or c d ≡ 0
    zero_or zero zero p h = refl
    zero_or zero (suc d) p h = absurd (omega arith)
    zero_or (suc c) d p h = absurd (omega arith)
bit_or-lt (suc k) a b ha hb =
    let e = pow-suc 2 k in
    omega (arith, bit_or_lowest a b, e, bit_or-lt k (a / 2) (b / 2) (omega arith) (omega arith))
