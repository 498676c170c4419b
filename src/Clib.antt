-- ===== src/Clib.antt =====
-- The C library calls that the sources use, on texts: the bytes of a C string before its NUL.
pub mod Strings
pub mod Decimal
pub mod Width
use Prim.Native.Char.{code}
use s.Prelude.{
  ℕ, zero, suc, ◌+◌, ◌-◌, ◌*◌, ◌%◌, ◌/◌, String, Bool, true, false, ◌&&◌, Option, none, some, List,
  [], ◌∷◌, ltb, leb, ◌==◌, if◌then◌else◌,
}

abbrev pub Text : Type 0
Text = List ℕ

-- The bytes of an ASCII literal.
abbrev pub codes : String → Text
codes String.[] = []
codes (String.◌∷◌ c t) = code c ∷ codes t

-- strcmp(s, t) == 0
unfoldable pub text_eq : Text → Text → Bool
text_eq [] [] = true
text_eq [] (b ∷ t) = false
text_eq (a ∷ s) [] = false
text_eq (a ∷ s) (b ∷ t) = a == b && text_eq s t

-- strncmp(s, p, strlen(p)) == 0
unfoldable pub starts_with : Text → Text → Bool
starts_with s [] = true
starts_with [] (b ∷ p) = false
starts_with (a ∷ s) (b ∷ p) = a == b && starts_with s p

-- The C string that a buffer holds: its bytes up to the first NUL.
unfoldable pub c_string : Text → Text
c_string [] = []
c_string (zero ∷ bytes) = []
c_string (suc c ∷ bytes) = suc c ∷ c_string bytes

-- strtok(s, " "): `none` is NULL. The text after the token is what strtok(NULL, " ") goes on with.
unfoldable pub skip_spaces : Text → Text
skip_spaces [] = []
skip_spaces (c ∷ t) = if c == 32 then skip_spaces t else c ∷ t

unfoldable pub token : Text → Text
token [] = []
token (c ∷ t) = let rest = token t in if c == 32 then [] else c ∷ rest

unfoldable pub after_token : Text → Text
after_token [] = []
after_token (c ∷ t) = let rest = after_token t in if c == 32 then t else rest

unfoldable pub token_of : Text → Option (Text × Text)
token_of [] = none
token_of (c ∷ t) = some (token (c ∷ t), after_token (c ∷ t))

unfoldable pub strtok : Text → Option (Text × Text)
unfolding skip_spaces token after_token token_of
strtok t = token_of (skip_spaces t)

unfoldable pub isdigit : ℕ → Bool
isdigit c = leb 48 c && leb c 57

-- atoi on a text: the digits that it begins with, held at INT_MAX on overflow, as Microsoft's
-- library documents. No caller passes a sign or leading blanks: all check the digits first.
abbrev pub int_max : ℕ
int_max = 2147483647

unfoldable pub digits_value : ℕ → Text → ℕ
unfolding isdigit
digits_value n [] = n
digits_value n (c ∷ t) =
    let rest = digits_value (n * 10 + (c - 48)) t in if isdigit c then rest else n

unfoldable pub atoi : Text → ℕ
unfolding digits_value
atoi t = let n = digits_value 0 t in if ltb int_max n then int_max else n

-- The decimal digits that %d and %ld print, on fuel: `n + 1` rounds are enough for `n`.
unfoldable pub decimal_fuel : ℕ → ℕ → Text → Text
decimal_fuel zero n out = out
decimal_fuel (suc f) n out =
    let rest = decimal_fuel f (n / 10) ((48 + n % 10) ∷ out) in
    if ltb n 10 then (48 + n) ∷ out else rest

unfoldable pub decimal : ℕ → Text
unfolding decimal_fuel
decimal n = decimal_fuel (n + 1) n []
