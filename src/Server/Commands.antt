-- ===== src/Server/Commands.antt =====
-- How the server takes a client's line apart: which command it is, and its words by strtok.
use s.Prelude.{ℕ, ◌≡◌, refl, Option, none, some, if◌then◌else◌}
use s.Clib.{Text, codes, text_eq, starts_with, strtok, atoi}
use s.Server.Messages.{validate_int}

infixl 5 ◌>>=◌
abbrev pub ◌>>=◌ {ℓ κ} : {A : Type ℓ} {B : Type κ} → Option A → (A → Option B) → Option B
none >>= f = none
some a >>= f = f a

-- A chain that gives a value passed through a value at its first step.
pub >>=-eq-some {ℓ κ} :
    {A : Type ℓ} {B : Type κ} (o : Option A) (next : A → Option B) {words : B}
    → (o >>= next) ≡ some words
    → (a : A) × (o ≡ some a) × (next a ≡ some words)
>>=-eq-some (some a) next e = (a, refl, e)
>>=-eq-some none next e = cc

-- The words of ADD; `f_size` is what atoi makes of the last.
pub record AddWords : Type 0 where
  pub filename : Text
  pub filehash : Text
  pub f_size : ℕ

-- `none` where the source sets `flag`.
unfoldable pub parse_add : Text → Option AddWords
parse_add line = do
  (word, rest0) ← strtok line
  (filename, rest1) ← strtok rest0
  (filehash, rest2) ← strtok rest1
  (filesize, rest3) ← strtok rest2
  if validate_int filesize
      then some (record { filename = filename; filehash = filehash; f_size = atoi filesize })
      else none

unfoldable pub parse_delete : Text → Option (Text × Text)
parse_delete line = do
  (word, rest0) ← strtok line
  (filename, rest1) ← strtok rest0
  (filehash, rest2) ← strtok rest1
  some (filename, filehash)

unfoldable pub parse_request : Text → Option Text
parse_request line = do (word, rest0) ← strtok line; (filename, rest1) ← strtok rest0; some filename

pub data Command : Type 0 where
  add delete list quit request unknown : Command

-- The tests of the session's loop, in their order.
unfoldable pub command_of : Text → Command
command_of line =
    if starts_with line (codes "ADD")
    then add
    else if starts_with line (codes "DELETE")
    then delete
    else if text_eq line (codes "LIST")
    then list
    else if text_eq line (codes "QUIT")
    then quit
    else if starts_with line (codes "REQUEST")
    then request
    else unknown
