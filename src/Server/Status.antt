-- ===== src/Server/Status.antt =====
-- print_stats: the running time, and how full the pool is. The texts lie in buffers of 32 bytes that
-- sprintf_s fills; where one does not fit, Microsoft's library ends the program.
pub mod Reports
use s.Prelude.{ℕ, suc, ◌/◌, ◌%◌, [], ◌∷◌, ◌++◌, length, ltb, if◌then◌else◌}
use s.Prelude.Int.{ℤ, pos, negsuc, leb_ℤ}
use s.Clib.{Text, codes, decimal}
use s.Outcome.{Result, ok, err, invalid_parameter, ◌>>=◌}
use s.Server.Listen.{nearly_full}

unfoldable pub sprintf_s : ℕ → Text → Result Text
sprintf_s size t = if ltb (length t) size then ok t else err invalid_parameter

-- %d and %02d.
unfoldable pub int_text : ℤ → Text
int_text (pos n) = decimal n
int_text (negsuc n) = codes "-" ++ decimal (suc n)

unfoldable pub two_digits : ℕ → Text
two_digits n = if ltb n 10 then 48 ∷ decimal n else decimal n

-- The seconds since the start, as hours, minutes and seconds.
pub record Runtime : Type 0 where
  pub hours : ℕ
  pub minutes : ℕ
  pub seconds : ℕ

unfoldable pub runtime_of : ℕ → Runtime
runtime_of elapsed =
    let minutes = elapsed / 60 in
    record { hours = minutes / 60; minutes = minutes % 60; seconds = elapsed % 60 }

unfoldable pub runtime_text : Runtime → Text
unfolding two_digits
runtime_text r =
    two_digits r.hours
    ++ (codes ":" ++ (two_digits r.minutes ++ (codes ":" ++ two_digits r.seconds)))

-- The pool has threads left, few or none left, or more clients than threads.
pub data Level : Type 0 where
  normal warning exhausted : Level

unfoldable pub level_of : ℤ → ℕ → Level
level_of count num_threads =
    if nearly_full count num_threads
    then (if leb_ℤ count (pos num_threads) then warning else exhausted)
    else normal

-- "[", the words for "users online", the two numbers, "]".
unfoldable pub users_text : ℤ → ℕ → Text
unfolding int_text
users_text count num_threads =
    (91 ∷ 212 ∷ 218 ∷ 207 ∷ 223 ∷ 211 ∷ 195 ∷ 187 ∷ 167 ∷ 202 ∷ 253 ∷ 58 ∷ 32 ∷ [])
    ++ (int_text count ++ (codes "/" ++ (decimal num_threads ++ codes "]")))

-- The escape sequences for yellow, red and plain text.
abbrev pub yellow : Text
yellow = 27 ∷ codes "[1;33m"

abbrev pub red : Text
red = 27 ∷ codes "[1;31m"

abbrev pub plain : Text
plain = 27 ∷ codes "[0m"

unfoldable pub usage_text : Level → ℤ → ℕ → Text
unfolding users_text
usage_text normal count num_threads = users_text count num_threads
usage_text warning count num_threads = yellow ++ (users_text count num_threads ++ plain)
usage_text exhausted count num_threads = red ++ (users_text count num_threads ++ plain)

pub record Stats : Type 0 where
  pub runtime : Text
  pub level : Level
  pub usage : Text

unfoldable pub print_stats : ℕ → ℤ → ℕ → Result Stats
print_stats elapsed count num_threads = do
  runtime ← sprintf_s 32 (runtime_text (runtime_of elapsed))
  let level = level_of count num_threads
  usage ← sprintf_s 32 (usage_text level count num_threads)
  ok (record { runtime = runtime; level = level; usage = usage })

-- The handler for a signal of the user's, which main does not install.
unfoldable pub stat_handler : ℕ → ℤ → ℕ → Result Stats
stat_handler elapsed count num_threads = print_stats elapsed count num_threads
