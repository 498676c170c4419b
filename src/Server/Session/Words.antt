-- ===== src/Server/Session/Words.antt =====
-- The words that the server takes from a line, and bytes that the line does not hold.
use s.Prelude.{ℕ, zero, suc, ◌≡◌, some, [], ◌∷◌, arith}
use s.Clib.{Text, c_string, skip_spaces, token, after_token, token_of, strtok}
use s.Clib.Strings.{Avoids}
use s.Outcome.{ok}
use s.Server.Messages.{Received, arrived, failed, recv_msg, kept_bytes, clean_string, read_line}
use s.Server.Commands.{AddWords, parse_add, parse_delete, parse_request, >>=-eq-some}

-- None of the bytes that arrived is `k`.
abbrev pub NeverReceives : ℕ → Received → Type 0
NeverReceives k failed = Unit
NeverReceives k (arrived bytes) = Avoids k bytes

module _ (k : ℕ) where
  skip_spaces-Avoids : (t : Text) → Avoids k t → Avoids k (skip_spaces t)
  unfolding skip_spaces
  skip_spaces-Avoids [] h = h
  skip_spaces-Avoids (c ∷ t) h = ground (arith, skip_spaces-Avoids t h.1)

  pub token-Avoids : (t : Text) → Avoids k t → Avoids k (token t)
  unfolding token
  token-Avoids [] h = h
  token-Avoids (c ∷ t) h = ground (arith, token-Avoids t h.1)

  after_token-Avoids : (t : Text) → Avoids k t → Avoids k (after_token t)
  unfolding after_token
  after_token-Avoids [] h = h
  after_token-Avoids (c ∷ t) h = ground (arith, after_token-Avoids t h.1)

  token_of-Avoids :
      (t w rest : Text) → Avoids k t → token_of t ≡ some (w, rest) → Avoids k w × Avoids k rest
  unfolding token_of
  token_of-Avoids [] w rest h e = cc
  token_of-Avoids (c ∷ t) w rest h e =
      ground (arith, token-Avoids (c ∷ t) h, after_token-Avoids (c ∷ t) h)

  strtok-Avoids :
      (t w rest : Text) → Avoids k t → strtok t ≡ some (w, rest) → Avoids k w × Avoids k rest
  unfolding strtok
  strtok-Avoids t w rest h e = token_of-Avoids (skip_spaces t) w rest (skip_spaces-Avoids t h) e

  pub parse_add-Avoids :
      (line : Text) (words : AddWords)
      → Avoids k line
      → parse_add line ≡ some words
      → Avoids k words.filename × Avoids k words.filehash
  unfolding parse_add
  parse_add-Avoids line words h e =
      let a = >>=-eq-some (strtok line) _ e in
      let h0 = (strtok-Avoids line a.0.0 a.0.1 h a.1).1 in
      let b = >>=-eq-some (strtok a.0.1) _ a.2 in
      let h1 = strtok-Avoids a.0.1 b.0.0 b.0.1 h0 b.1 in
      let c = >>=-eq-some (strtok b.0.1) _ b.2 in
      let h2 = strtok-Avoids b.0.1 c.0.0 c.0.1 h1.1 c.1 in ground arith

  pub parse_delete-Avoids :
      (line name hash : Text)
      → Avoids k line
      → parse_delete line ≡ some (name, hash)
      → Avoids k name × Avoids k hash
  unfolding parse_delete
  parse_delete-Avoids line name hash h e =
      let a = >>=-eq-some (strtok line) _ e in
      let h0 = (strtok-Avoids line a.0.0 a.0.1 h a.1).1 in
      let b = >>=-eq-some (strtok a.0.1) _ a.2 in
      let h1 = strtok-Avoids a.0.1 b.0.0 b.0.1 h0 b.1 in
      let c = >>=-eq-some (strtok b.0.1) _ b.2 in
      let h2 = strtok-Avoids b.0.1 c.0.0 c.0.1 h1.1 c.1 in ground arith

  pub parse_request-Avoids :
      (line name : Text) → Avoids k line → parse_request line ≡ some name → Avoids k name
  unfolding parse_request
  parse_request-Avoids line name h e =
      let a = >>=-eq-some (strtok line) _ e in
      let h0 = (strtok-Avoids line a.0.0 a.0.1 h a.1).1 in
      let b = >>=-eq-some (strtok a.0.1) _ a.2 in
      let h1 = strtok-Avoids a.0.1 b.0.0 b.0.1 h0 b.1 in ground arith

  c_string-keeps-Avoids : (bytes : Text) → Avoids k bytes → Avoids k (c_string bytes)
  unfolding c_string
  c_string-keeps-Avoids [] h = h
  c_string-keeps-Avoids (zero ∷ bytes) h = tt
  c_string-keeps-Avoids (suc c ∷ bytes) h = (h.0, c_string-keeps-Avoids bytes h.1)

  kept_bytes-Avoids : (t : Text) → Avoids k t → Avoids k (kept_bytes t)
  unfolding kept_bytes
  kept_bytes-Avoids [] h = h
  kept_bytes-Avoids (c ∷ t) h = ground (arith, kept_bytes-Avoids t h.1)

  pub read_line-Avoids :
      (r : Received) (line : Text) → NeverReceives k r → read_line r ≡ ok line → Avoids k line
  unfolding read_line recv_msg clean_string
  read_line-Avoids failed line h e = cc
  read_line-Avoids (arrived bytes) line h e =
      ground (arith, kept_bytes-Avoids (c_string bytes) (c_string-keeps-Avoids bytes h))
