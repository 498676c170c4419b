-- ===== src/Server/Messages/Reading.antt =====
-- What read_line makes of the bytes that a client sent, and what validate_int accepts.
use s.Prelude.{◌≤◌, ◌<◌, ◌≡◌, ◌≢◌, ◌↔◌, refl, true, [], ◌∷◌, ◌++◌, length, All, arith, append_assoc}
use s.Clib.{Text}
use s.Clib.Strings.{Avoids, c_string_end}
use s.Clib.Decimal.{IsNumber}
use s.Net.{arrived, with_nul}
use s.Outcome.{ok}
use s.Server.Messages.{recv_msg, is_kept, kept_bytes, clean_string, read_line, validate_int}

-- A line as the server wants it: no byte that clean_string drops, and none that ends a C string.
abbrev pub IsPlain : Text → Type 0
IsPlain t = All (λ c. (is_kept c ≡ true) × (c ≢ 0)) t

IsPlain-Avoids : (t : Text) → IsPlain t → Avoids 0 t
IsPlain-Avoids [] h = tt
IsPlain-Avoids (c ∷ t) h = (h.0.1, IsPlain-Avoids t h.1)

kept_bytes_self : (t : Text) → IsPlain t → kept_bytes t ≡ t
unfolding kept_bytes
kept_bytes_self [] h = refl
kept_bytes_self (c ∷ t) h = ground (arith, kept_bytes_self t h.1)

pub length-kept_bytes : (t : Text) → length (kept_bytes t) ≤ length t
unfolding kept_bytes
length-kept_bytes [] = omega arith
length-kept_bytes (c ∷ t) = ground (arith, length-kept_bytes t)

-- A plain line shorter than the buffer arrives whole when it was sent with its NUL, and all that
-- the same recv delivers behind the NUL is lost.
pub read_line-with_nul :
    (t rest : Text) → IsPlain t → length t < 512 → read_line (arrived (with_nul t ++ rest)) ≡ ok t
unfolding read_line recv_msg clean_string
read_line-with_nul t rest h fits =
    rw (append_assoc t (0 ∷ []) rest, c_string_end t rest (IsPlain-Avoids t h))
      (ground (arith, kept_bytes_self t h))

-- validate_int accepts exactly the texts of digits.
pub validate_int_iff : (t : Text) → (validate_int t ≡ true) ↔ IsNumber t
unfolding validate_int
validate_int_iff t = (only t, all t)
  where
    only : (u : Text) → validate_int u ≡ true → IsNumber u
    only [] h = tt
    only (c ∷ u) h = ground (arith, only u)

    all : (u : Text) → IsNumber u → validate_int u ≡ true
    all [] h = refl
    all (c ∷ u) h = ground (arith, all u h.1)
