-- ===== src/Net.antt =====
-- What the socket calls hand to the program.
use s.Prelude.{ℕ, ◌≡◌, refl, ap, List, [], ◌∷◌, ◌++◌, map}
use s.Clib.{Text}

-- What recv returns: the bytes that it wrote, none when the peer has closed the connection, or -1.
-- It writes at most as many bytes as its buffer holds, and every caller clears its buffer.
pub data Received : Type 0 where
  arrived : List ℕ → Received
  failed : Received

-- A text sent with its NUL, as the client does by `length() + 1`.
abbrev pub with_nul : Text → List ℕ
with_nul t = t ++ 0 ∷ []

-- Lines that arrive one by one, with a last one behind them.
pub map-arrived {ℓ} :
    {A : Type ℓ} (line : A → Text) (xs : List A) (last : Text)
    → map (λ t. arrived t) (map line xs ++ last ∷ [])
      ≡ map (λ x. arrived (line x)) xs ++ arrived last ∷ []
map-arrived line [] last = refl
map-arrived line (x ∷ xs) last = ap (λ rs. arrived (line x) ∷ rs) (map-arrived line xs last)
