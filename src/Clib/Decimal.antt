-- ===== src/Clib/Decimal.antt =====
-- The digits that `decimal` prints, and what `atoi` reads of them.
use s.Prelude.{
  ℕ, zero, suc, ◌+◌, ◌/◌, ◌%◌, ◌≤◌, ◌<◌, ◌≡◌, ◌≢◌, ◌∙◌, refl, true, inl, inr, [], ◌∷◌, All, arith,
  ltb, Bool-cases,
}
use s.Clib.Strings.{Avoids}
use s.Clib.{Text, isdigit, int_max, digits_value, atoi, decimal_fuel, decimal}

abbrev pub IsNumber : Text → Type 0
IsNumber t = All (λ c. isdigit c ≡ true) t

decimal_fuel-IsNumber : (f n : ℕ) (out : Text) → IsNumber out → IsNumber (decimal_fuel f n out)
unfolding decimal_fuel isdigit
decimal_fuel-IsNumber zero n out h = h
decimal_fuel-IsNumber (suc f) n out h = elim (Bool-cases (ltb n 10)) [
  | inl last ↦ rw last (ground arith, h)
  | inr more ↦ rw more (decimal_fuel-IsNumber f (n / 10) ((48 + n % 10) ∷ out) (ground arith, h))
]

pub decimal-IsNumber : (n : ℕ) → IsNumber (decimal n)
unfolding decimal
decimal-IsNumber n = decimal_fuel-IsNumber (n + 1) n [] tt

decimal_fuel-ne-nil : (f n : ℕ) (c : ℕ) (out : Text) → decimal_fuel f n (c ∷ out) ≢ []
unfolding decimal_fuel
decimal_fuel-ne-nil zero n c out h = cc
decimal_fuel-ne-nil (suc f) n c out h =
    ground (arith, decimal_fuel-ne-nil f (n / 10) (48 + n % 10) (c ∷ out))

pub decimal-ne-nil : (n : ℕ) → decimal n ≢ []
unfolding decimal
decimal-ne-nil n h = decimal_starts (n + 1) (omega arith) h
  where
    decimal_starts : (f : ℕ) → 0 < f → decimal_fuel f n [] ≢ []
    decimal_starts zero pos e = absurd (omega arith)
    decimal_starts (suc f) pos e =
        unfold decimal_fuel in ground (arith, decimal_fuel-ne-nil f (n / 10) (48 + n % 10) [])

-- Reading what was printed before `out` leaves the number itself as the value so far.
digits_value-decimal :
    (f n : ℕ) (out : Text) → n < f → digits_value 0 (decimal_fuel f n out) ≡ digits_value n out
unfolding decimal_fuel digits_value
digits_value-decimal zero n out h = absurd (omega arith)
digits_value-decimal (suc f) n out h = elim (Bool-cases (ltb n 10)) [
  | inl last ↦ rw last (ground arith)
  | inr more ↦
      rw more
        (digits_value-decimal f (n / 10) ((48 + n % 10) ∷ out) (ground arith) ∙ (ground arith))
]

-- Reading a printed number gives it back, up to INT_MAX.
pub atoi-decimal : (n : ℕ) → n ≤ int_max → atoi (decimal n) ≡ n
unfolding atoi decimal
atoi-decimal n h =
    rw (digits_value-decimal (n + 1) n [] (omega arith)) (unfold digits_value in ground arith)

pub atoi-le : (t : Text) → atoi t ≤ int_max
unfolding atoi
atoi-le t = ground arith

-- A number holds no byte below the digits, such as a blank, a line end or a quote.
pub IsNumber-Avoids : (k : ℕ) (t : Text) → k < 48 → IsNumber t → Avoids k t
unfolding isdigit
IsNumber-Avoids k [] h d = tt
IsNumber-Avoids k (c ∷ t) h d = (λ e. ground (arith, d.0), IsNumber-Avoids k t h d.1)

-- The digits of a number have its value.
pub digits_value-decimal_self : (n : ℕ) → digits_value 0 (decimal n) ≡ n
unfolding decimal
digits_value-decimal_self n =
    digits_value-decimal (n + 1) n [] (omega arith) ∙ (unfold digits_value in refl)
