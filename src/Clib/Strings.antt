-- ===== src/Clib/Strings.antt =====
-- Laws of the string calls: comparison, prefixes, tokens and the end of a C string.
use s.Prelude.{ℕ, zero, suc, ◌≡◌, ◌≢◌, refl, ap, ◌↔◌, true, some, [], ◌∷◌, ◌++◌, All, arith}
use s.Clib.{Text, text_eq, starts_with, c_string, skip_spaces, token, after_token, token_of, strtok}

-- The text holds no byte `k`.
abbrev pub Avoids : ℕ → Text → Type 0
Avoids k t = All (λ c. c ≢ k) t

-- A word that strtok keeps whole: not empty, and free of blanks.
abbrev pub IsWord : Text → Type 0
IsWord t = (t ≢ []) × Avoids 32 t

pub text_eq_sound : (t u : Text) → text_eq t u ≡ true → t ≡ u
unfolding text_eq
text_eq_sound [] [] h = refl
text_eq_sound [] (b ∷ u) h = cc
text_eq_sound (a ∷ t) [] h = cc
text_eq_sound (a ∷ t) (b ∷ u) h = ground (arith, text_eq_sound t u)

pub text_eq_self : (t : Text) → text_eq t t ≡ true
unfolding text_eq
text_eq_self [] = refl
text_eq_self (a ∷ t) = ground (arith, text_eq_self t)

pub text_eq_comm : (t u : Text) → text_eq t u ≡ text_eq u t
unfolding text_eq
text_eq_comm [] [] = refl
text_eq_comm [] (b ∷ u) = refl
text_eq_comm (a ∷ t) [] = refl
text_eq_comm (a ∷ t) (b ∷ u) = ground (arith, text_eq_comm t u)

pub text_eq_iff : (t u : Text) → (text_eq t u ≡ true) ↔ (t ≡ u)
text_eq_iff t u = (text_eq_sound t u, λ e. subst_eq t u e)
  where
    subst_eq : (v w : Text) → v ≡ w → text_eq v w ≡ true
    subst_eq v w e = rw (← e) (text_eq_self v)

pub starts_with-append : (p t : Text) → starts_with (p ++ t) p ≡ true
unfolding starts_with
starts_with-append [] [] = refl
starts_with-append [] (c ∷ t) = refl
starts_with-append (b ∷ p) t = ground (arith, starts_with-append p t)

pub c_string_end : (t rest : Text) → Avoids 0 t → c_string (t ++ 0 ∷ rest) ≡ t
unfolding c_string
c_string_end [] rest h = refl
c_string_end (zero ∷ t) rest h = absurd (h.0 refl)
c_string_end (suc c ∷ t) rest h = ap (λ (u : Text). suc c ∷ u) (c_string_end t rest h.1)

pub c_string_self : (t : Text) → Avoids 0 t → c_string t ≡ t
unfolding c_string
c_string_self [] h = refl
c_string_self (zero ∷ t) h = absurd (h.0 refl)
c_string_self (suc c ∷ t) h = ap (λ (u : Text). suc c ∷ u) (c_string_self t h.1)

pub c_string-Avoids : (bytes : Text) → Avoids 0 (c_string bytes)
unfolding c_string
c_string-Avoids [] = tt
c_string-Avoids (zero ∷ bytes) = tt
c_string-Avoids (suc c ∷ bytes) = (omega arith, c_string-Avoids bytes)

token_blank : (w rest : Text) → Avoids 32 w → token (w ++ 32 ∷ rest) ≡ w
unfolding token
token_blank [] rest h = refl
token_blank (c ∷ w) rest h = ground (arith, token_blank w rest h.1)

after_token_blank : (w rest : Text) → Avoids 32 w → after_token (w ++ 32 ∷ rest) ≡ rest
unfolding after_token
after_token_blank [] rest h = refl
after_token_blank (c ∷ w) rest h = ground (arith, after_token_blank w rest h.1)

token_whole : (w : Text) → Avoids 32 w → token w ≡ w
unfolding token
token_whole [] h = refl
token_whole (c ∷ w) h = ground (arith, token_whole w h.1)

after_token_whole : (w : Text) → Avoids 32 w → after_token w ≡ []
unfolding after_token
after_token_whole [] h = refl
after_token_whole (c ∷ w) h = ground (arith, after_token_whole w h.1)

pub strtok_blank : (w rest : Text) → IsWord w → strtok (w ++ 32 ∷ rest) ≡ some (w, rest)
unfolding skip_spaces token_of strtok
strtok_blank [] rest h = absurd (h.0 refl)
strtok_blank (c ∷ w) rest h =
    ground (arith, token_blank (c ∷ w) rest h.1, after_token_blank (c ∷ w) rest h.1)

pub strtok_last : (w : Text) → IsWord w → strtok w ≡ some (w, [])
unfolding skip_spaces token_of strtok
strtok_last [] h = absurd (h.0 refl)
strtok_last (c ∷ w) h = ground (arith, token_whole (c ∷ w) h.1, after_token_whole (c ∷ w) h.1)
