-- ===== src/Server/Count.antt =====
-- client_count among threads: `c_count += change` is a load and a store, and nothing keeps two
-- threads from doing them at the same time. A thread is known by its number.
use s.Prelude.{
  ℕ, ◌≡◌, ◌∙◌, refl, ap, Bool, false, ◌==◌, List, [], ◌∷◌, ◌++◌, All, arith, if◌then◌else◌,
}
use s.Prelude.Int.{ℤ, ◌+ℤ◌}
use s.Server.Sqlite.{Sqlite}
use s.Server.Session.{World, client_count}

-- The variable, and what each thread has loaded.
pub record Counter : Type 0 where
  pub c_count : ℤ
  pub loaded : ℕ → ℤ

-- Half of a call: the load, and the store of the loaded value changed.
pub data Half : Type 0 where
  loads : ℕ → Half
  stores : ℕ → ℤ → Half

unfoldable pub half : Half → Counter → Counter
half (loads i) m = record m { loaded = λ j. if i == j then m.c_count else m.loaded j }
half (stores i change) m = record m { c_count = m.loaded i +ℤ change }

unfoldable pub halves : List Half → Counter → Counter
unfolding half
halves [] m = m
halves (h ∷ hs) m = halves hs (half h m)

-- Calls that do not overlap, each by a thread with a change.
abbrev pub apart : List (ℕ × ℤ) → List Half
apart [] = []
apart ((i, change) ∷ calls) = loads i ∷ stores i change ∷ apart calls

-- The same calls of the session's client_count, one after the other.
abbrev pub calls_of : {q : Sqlite} → List (ℕ × ℤ) → World q → World q
calls_of [] w = w
calls_of ((i, change) ∷ calls) w = calls_of calls (client_count change w).0

-- Whose half it is.
abbrev pub is_of : ℕ → Half → Bool
is_of i (loads j) = j == i
is_of i (stores j change) = j == i

halves-append : (xs ys : List Half) (m : Counter) → halves (xs ++ ys) m ≡ halves ys (halves xs m)
unfolding halves
halves-append [] ys m = refl
halves-append (x ∷ xs) ys m = halves-append xs ys (half x m)

apart-exact :
    {q : Sqlite} (calls : List (ℕ × ℤ)) (m : Counter) (w : World q)
    → m.c_count ≡ w.c_count
    → (halves (apart calls) m).c_count ≡ (calls_of calls w).c_count
unfolding halves client_count
apart-exact [] m w e = e
apart-exact ((i, change) ∷ calls) m w e = apart-exact calls _ _ (ground arith)

loaded-others :
    (i : ℕ) (between : List Half) (m : Counter)
    → All (λ h. is_of i h ≡ false) between
    → (halves between m).loaded i ≡ m.loaded i
unfolding halves
loaded-others i [] m h = refl
loaded-others i (loads j ∷ between) m h =
    loaded-others i between (half (loads j) m) h.1 ∙ unfold half in rw (h.0) refl
loaded-others i (stores j change ∷ between) m h = loaded-others i between _ h.1

-- Calls of client_count that do not overlap come to the calls of the sessions one after the other.
-- But whatever other threads load and store between the load and the store of one call, none of it
-- counts: the result is the old count and the one change.
pub client_count-overlaps :
    {q : Sqlite} (calls : List (ℕ × ℤ)) (w : World q) (m : Counter) (i : ℕ) (change : ℤ)
    (between : List Half)
    → m.c_count ≡ w.c_count
    → All (λ h. is_of i h ≡ false) between
    → ((halves (apart calls) m).c_count ≡ (calls_of calls w).c_count)
      × ((halves (loads i ∷ (between ++ stores i change ∷ [])) m).c_count ≡ m.c_count +ℤ change)
unfolding halves
client_count-overlaps calls w m i change between e others =
    let loaded = half (loads i) m in
    (
      apart-exact calls m w e,
      ap (λ (k : Counter). k.c_count) (halves-append between (stores i change ∷ []) loaded)
          ∙ ap (λ c. c +ℤ change) (loaded-others i between loaded others ∙ ground arith),
    )
