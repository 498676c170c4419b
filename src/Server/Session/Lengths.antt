-- ===== src/Server/Session/Lengths.antt =====
-- How long the words of a line are, and the line itself.
use s.Prelude.{
  Bool, true, false, ◌+◌, ◌≤◌, ◌<◌, ◌≡◌, none, some, [], ◌∷◌, length, arith, if◌then◌else◌,
}
use s.Clib.{Text, c_string, skip_spaces, token, after_token, token_of, strtok, decimal, atoi}
use s.Clib.Decimal.{atoi-le}
use s.Clib.Width.{decimal-short}
use s.Outcome.{ok}
use s.Server.Messages.{arrived, recv_msg, kept_bytes, clean_string, read_line, validate_int}
use s.Server.Messages.Reading.{length-kept_bytes}
use s.Server.Commands.{AddWords, parse_add, parse_delete, parse_request, >>=-eq-some}

skip_spaces-short : (t : Text) → length (skip_spaces t) ≤ length t
unfolding skip_spaces
skip_spaces-short [] = omega arith
skip_spaces-short (c ∷ t) = ground (arith, skip_spaces-short t)

token-short : (t : Text) → length (token t) + length (after_token t) ≤ length t
unfolding token after_token
token-short [] = omega arith
token-short (c ∷ t) = ground (arith, token-short t)

token_of-short : (t w rest : Text) → token_of t ≡ some (w, rest) → length w + length rest ≤ length t
unfolding token_of
token_of-short [] w rest e = cc
token_of-short (c ∷ t) w rest e = ground (arith, token-short (c ∷ t))

strtok-short : (t w rest : Text) → strtok t ≡ some (w, rest) → length w + length rest ≤ length t
unfolding strtok
strtok-short t w rest e =
    omega (arith, token_of-short (skip_spaces t) w rest e, skip_spaces-short t)

if-eq-some : {A : Type 0} (b : Bool) {x y : A} → (if b then some x else none) ≡ some y → x ≡ y
if-eq-some true e = cc
if-eq-some false e = cc

pub parse_add-short :
    (line : Text) (words : AddWords)
    → parse_add line ≡ some words
    → (length words.filename + length words.filehash ≤ length line)
      × (length (decimal words.f_size) ≤ 10)
unfolding parse_add
parse_add-short line words e =
    let a = >>=-eq-some (strtok line) _ e in
    let b = >>=-eq-some (strtok a.0.1) _ a.2 in
    let c = >>=-eq-some (strtok b.0.1) _ b.2 in
    let d = >>=-eq-some (strtok c.0.1) _ c.2 in
    let h0 = strtok-short line a.0.0 a.0.1 a.1 in
    let h1 = strtok-short a.0.1 b.0.0 b.0.1 b.1 in
    let h2 = strtok-short b.0.1 c.0.0 c.0.1 c.1 in
    let small = decimal-short 9 (atoi d.0.0) (omega (arith, atoi-le d.0.0)) in
    let it = if-eq-some (validate_int d.0.0) d.2 in rw (← it) (omega (arith, h0, h1, h2), small)

pub parse_delete-short :
    (line name hash : Text)
    → parse_delete line ≡ some (name, hash)
    → length name + length hash ≤ length line
unfolding parse_delete
parse_delete-short line name hash e =
    let a = >>=-eq-some (strtok line) _ e in
    let b = >>=-eq-some (strtok a.0.1) _ a.2 in
    let c = >>=-eq-some (strtok b.0.1) _ b.2 in
    let h0 = strtok-short line a.0.0 a.0.1 a.1 in
    let h1 = strtok-short a.0.1 b.0.0 b.0.1 b.1 in
    let h2 = strtok-short b.0.1 c.0.0 c.0.1 c.1 in ground arith

pub parse_request-short :
    (line name : Text) → parse_request line ≡ some name → length name ≤ length line
unfolding parse_request
parse_request-short line name e =
    let a = >>=-eq-some (strtok line) _ e in
    let b = >>=-eq-some (strtok a.0.1) _ a.2 in
    let h0 = strtok-short line a.0.0 a.0.1 a.1 in
    let h1 = strtok-short a.0.1 b.0.0 b.0.1 b.1 in ground arith

-- What is read of bytes that fit the buffer of the session.
pub read_line-kept :
    (bytes : Text)
    → length (c_string bytes) < 512
    → read_line (arrived bytes) ≡ ok (kept_bytes (c_string bytes))
unfolding read_line recv_msg clean_string
read_line-kept bytes short = ground (arith, length-kept_bytes (c_string bytes))
