-- ===== src/Peer/Files/Transfer.antt =====
-- What a transfer from sendFile to recvFile leaves at the receiver.
use s.Prelude.{
  ℕ, ◌<◌, ◌≡◌, ◌∙◌, refl, sym, ap, true, false, some, List, [], ◌∷◌, ◌++◌, map, length, drop, All,
  append_assoc, arith, ltb,
}
use s.Clib.{Text}
use s.Clib.Strings.{Avoids, c_string_end}
use s.Net.{Received, arrived, with_nul}
use s.Outcome.{ok}
use s.Peer.Files.{recv_pieces, overwrite, received_name, saved, save_pieces, recv_file}

recv_pieces-full :
    (piece : List ℕ) (rs : List Received) (rest : List ℕ)
    → length piece ≡ 1024
    → recv_pieces rs ≡ some rest
    → recv_pieces (arrived piece ∷ rs) ≡ some (piece ++ rest)
recv_pieces-full [] rs rest len h = absurd (omega arith)
recv_pieces-full (b ∷ bytes) rs rest len h =
    let no : ltb (length (b ∷ bytes)) 1024 ≡ false = ground arith in
    unfold recv_pieces in rw (no, h) refl

recv_pieces-short :
    (piece : List ℕ) (rs : List Received)
    → length piece < 1024
    → recv_pieces (arrived piece ∷ rs) ≡ some piece
recv_pieces-short [] rs len = unfold recv_pieces in refl
recv_pieces-short (b ∷ bytes) rs len =
    let yes' : ltb (length (b ∷ bytes)) 1024 ≡ true = ground arith in
    unfold recv_pieces in rw yes' refl

-- Pieces of 1024 bytes.
abbrev pub AllFull : List (List ℕ) → Type 0
AllFull ps = All (λ p. length p ≡ 1024) ps

abbrev pub concatenated : List (List ℕ) → List ℕ
concatenated [] = []
concatenated (p ∷ ps) = p ++ concatenated ps

recv_pieces-ends :
    (full : List (List ℕ)) (last : List ℕ) (rest : List Received)
    → AllFull full
    → length last < 1024
    → recv_pieces (map (λ p. arrived p) full ++ arrived last ∷ rest)
      ≡ some (concatenated full ++ last)
recv_pieces-ends [] last rest h short = recv_pieces-short last rest short
recv_pieces-ends (p ∷ ps) last rest h short =
    recv_pieces-full p _ (concatenated ps ++ last) h.0 (recv_pieces-ends ps last rest h.1 short)
    ∙ ap (λ c. some c) (sym (append_assoc p (concatenated ps) last))

-- recvFile writes the full pieces and the first one that is short, over the start of the old
-- file, and ignores whatever comes after, if the name that came first holds no NUL and fits its
-- buffer.
pub recv_file-saved :
    (old : List ℕ) (name : Text) (full : List (List ℕ)) (last : List ℕ) (rest : List Received)
    → Avoids 0 name
    → length name < 1024
    → AllFull full
    → length last < 1024
    → recv_file
        (some old)
        (arrived (with_nul name) ∷ (map (λ p. arrived p) full ++ arrived last ∷ rest))
      ≡ ok (
          saved name ((concatenated full ++ last) ++ drop (length (concatenated full ++ last)) old))
recv_file-saved old name full last rest plain fits h short =
    let named : received_name (arrived (with_nul name)) ≡ ok name =
      unfold received_name in rw (c_string_end name [] plain) (ground arith) in
    unfold recv_file save_pieces overwrite in
    rw (named, recv_pieces-ends full last rest h short) refl
