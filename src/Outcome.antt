-- ===== src/Outcome.antt =====
-- Results of code that can go wrong: a value, or what goes wrong in the C program.
use s.Prelude.{
  ℕ, ◌≡◌, ◌<◌, refl, Bool, true, false, inl, inr, length, ltb, Bool-cases, arith, if◌then◌else◌,
}
use s.Clib.{Text}

-- A write past a buffer's end; a call that Microsoft's library ends the program for; a read through
-- NULL; a format that does not fit its argument; a loop that was cut off by its fuel.
pub data Fault : Type 0 where
  overflow invalid_parameter null_read bad_format endless : Fault

pub data Result {ℓ} (A : Type ℓ) : Type ℓ where
  ok : A → Result A
  err : Fault → Result A

-- A fault ends the program.
infixl 5 ◌>>=◌
abbrev pub ◌>>=◌ {ℓ κ} : {A : Type ℓ} {B : Type κ} → Result A → (A → Result B) → Result B
err fault >>= next = err fault
ok value >>= next = next value

-- sprintf of a text into a buffer of `size` bytes, its NUL included.
unfoldable pub sprintf : ℕ → Text → Result Text
sprintf size t = if ltb (length t) size then ok t else err overflow

-- A postcondition of the results that are values.
abbrev pub Holds {ℓ κ} : {A : Type ℓ} → (A → Type κ) → Result A → Type κ
Holds P (ok a) = P a
Holds P (err e) = Unit

pub Holds-bind {ℓ κ μ ν} :
    {A : Type ℓ} {B : Type κ} (P : A → Type μ) (Q : B → Type ν) (m : Result A) (f : A → Result B)
    → Holds P m
    → ((a : A) → P a → Holds Q (f a))
    → Holds Q (m >>= f)
Holds-bind P Q (ok a) f hm hf = hf a hm
Holds-bind P Q (err e) f hm hf = tt

-- A postcondition of what follows, whatever came before.
pub Holds-then {ℓ κ μ} :
    {A : Type ℓ} {B : Type κ} (Q : B → Type μ) (m : Result A) (f : A → Result B)
    → ((a : A) → Holds Q (f a))
    → Holds Q (m >>= f)
Holds-then Q (ok a) f hf = hf a
Holds-then Q (err e) f hf = tt

pub Holds-known {ℓ κ μ} :
    {A : Type ℓ} {B : Type κ} (Q : B → Type μ) (m : Result A) (f : A → Result B)
    → ((a : A) → m ≡ ok a → Holds Q (f a))
    → Holds Q (m >>= f)
Holds-known Q (ok a) f hf = hf a refl
Holds-known Q (err e) f hf = tt

pub Holds-if {ℓ κ} :
    {A : Type ℓ} (P : A → Type κ) (b : Bool) (m n : Result A)
    → (b ≡ true → Holds P m)
    → (b ≡ false → Holds P n)
    → Holds P (if b then m else n)
Holds-if P true m n hm hn = hm refl
Holds-if P false m n hm hn = hn refl

-- What fits a buffer is printed unchanged.
pub Holds-sprintf {ℓ κ} :
    {A : Type ℓ} (P : A → Type κ) (size : ℕ) (t : Text) (f : Text → Result A)
    → Holds P (f t)
    → Holds P (sprintf size t >>= f)
unfolding sprintf
Holds-sprintf P size t f h = elim (Bool-cases (ltb (length t) size)) [
  | inl fits ↦ rw fits h
  | inr over ↦ rw over tt
]

-- A result is a value, of which the postcondition holds, or the error.
pub Holds-eq-ok {ℓ κ} :
    {A : Type ℓ} (P : A → Type κ) (m : Result A) (a : A) → Holds P m → m ≡ ok a → P a
Holds-eq-ok P m a h e = rw e at h

pub Holds-of_eq {ℓ κ} :
    {A : Type ℓ} (P : A → Type κ) (m : Result A) → ((a : A) → m ≡ ok a → P a) → Holds P m
Holds-of_eq P (ok a) h = h a refl
Holds-of_eq P (err e) h = tt

-- A weaker postcondition.
pub Holds-weaken {ℓ κ μ} :
    {A : Type ℓ} (P : A → Type κ) (Q : A → Type μ) (m : Result A)
    → Holds P m
    → ((a : A) → P a → Q a)
    → Holds Q m
Holds-weaken P Q (ok a) h k = k a h
Holds-weaken P Q (err e) h k = tt

-- Binds in a row.
pub >>=_assoc {ℓ κ μ} :
    {A : Type ℓ} {B : Type κ} {C : Type μ} (m : Result A) (f : A → Result B) (g : B → Result C)
    → m >>= f >>= g ≡ m >>= (λ a. f a >>= g)
>>=_assoc (ok a) f g = refl
>>=_assoc (err e) f g = refl

pub >>=_ext {ℓ κ} :
    {A : Type ℓ} {B : Type κ} (m : Result A) (f g : A → Result B)
    → ((a : A) → f a ≡ g a)
    → m >>= f ≡ m >>= g
>>=_ext (ok a) f g h = h a
>>=_ext (err e) f g h = refl

-- A chain that has a value has one at each step.
pub >>=-eq-ok {ℓ κ} :
    {A : Type ℓ} {B : Type κ} (m : Result A) (f : A → Result B) (b : B)
    → m >>= f ≡ ok b
    → (a : A) × (m ≡ ok a) × (f a ≡ ok b)
>>=-eq-ok (ok a) f b e = (a, refl, e)
>>=-eq-ok (err e) f b h = cc

-- There is a value.
abbrev pub Succeeds {ℓ} : {A : Type ℓ} → Result A → Type ℓ
Succeeds {A = A} m = (a : A) × (m ≡ ok a)

pub Succeeds-sprintf {ℓ} :
    {A : Type ℓ} (size : ℕ) (t : Text) (f : Text → Result A)
    → length t < size
    → Succeeds (f t)
    → Succeeds (sprintf size t >>= f)
unfolding sprintf
Succeeds-sprintf size t f fits h = (h.0, ground (arith, h.1))
