-- ===== src/Server/System/Known.antt =====
-- The clients that a system knows, by their addresses.
use s.Prelude.{
  ℕ, zero, suc, ◌≡◌, ◌∙◌, refl, sym, ap, Bool, true, false, not, ◌&&◌, ◌||◌, inl, inr, some, List,
  [], ◌∷◌, ◌++◌, get_elem?, set, All, arith, Bool-cases,
}
use s.Clib.{Text, text_eq}
use s.Clib.Strings.{text_eq_self, text_eq_sound}
use s.Server.Sqlite.{Sqlite}
use s.Server.Session.Table.{Row, without_peer}
use s.Server.System.{Session, System, without_session}

-- A session of a client with this address is at work.
abbrev pub is_served : Text → List Session → Bool
is_served peer [] = false
is_served peer (x ∷ xs) = text_eq x.peeraddr peer || is_served peer xs

-- A session with this address returned -1.
abbrev pub was_left : Text → List (Text × Bool) → Bool
was_left peer [] = false
was_left peer ((a, success) ∷ rest) = not success && text_eq a peer || was_left peer rest

abbrev pub is_known : {q : Sqlite} → System q → Text → Bool
is_known s peer = is_served peer s.sessions || was_left peer s.returned

pub is_served-append :
    (peer : Text) (xs : List Session) (x : Session)
    → is_served peer xs ≡ true
    → is_served peer (xs ++ x ∷ []) ≡ true
is_served-append peer [] x e = cc
is_served-append peer (y ∷ xs) x e = ground (arith, is_served-append peer xs x)

pub is_served-set :
    (peer : Text) (xs : List Session) (i : ℕ) (x y : Session)
    → get_elem? xs i ≡ some x
    → y.peeraddr ≡ x.peeraddr
    → is_served peer (set xs i y) ≡ is_served peer xs
is_served-set peer [] i x y e same = refl
is_served-set peer (z ∷ xs) zero x y e same =
    let it : z ≡ x = cc in
    ap (λ a. text_eq a peer || is_served peer xs) (same ∙ sym (ap (λ (u : Session). u.peeraddr) it))
is_served-set peer (z ∷ xs) (suc i) x y e same =
    ap (λ b. text_eq z.peeraddr peer || b) (is_served-set peer xs i x y e same)

pub is_served-get :
    (xs : List Session) (i : ℕ) (x : Session)
    → get_elem? xs i ≡ some x
    → is_served x.peeraddr xs ≡ true
is_served-get [] i x e = cc
is_served-get (z ∷ xs) zero x e =
    let it : z ≡ x = cc in
    ap (λ (u : Session). text_eq u.peeraddr x.peeraddr || is_served x.peeraddr xs) it
    ∙ ground (arith, text_eq_self x.peeraddr)
is_served-get (z ∷ xs) (suc i) x e = ground (arith, is_served-get xs i x e)

pub is_served-without_session :
    (peer : Text) (xs : List Session) (i : ℕ) (x : Session)
    → get_elem? xs i ≡ some x
    → text_eq x.peeraddr peer ≡ false
    → is_served peer (without_session i xs) ≡ is_served peer xs
is_served-without_session peer [] i x e other = refl
is_served-without_session peer (z ∷ xs) zero x e other =
    let it : z ≡ x = cc in
    sym (
      ap (λ (u : Session). text_eq u.peeraddr peer || is_served peer xs) it
      ∙ ap (λ b. b || is_served peer xs) other)
is_served-without_session peer (z ∷ xs) (suc i) x e other =
    ap (λ b. text_eq z.peeraddr peer || b) (is_served-without_session peer xs i x e other)

pub was_left-append :
    (peer : Text) (xs : List (Text × Bool)) (a : Text) (success : Bool)
    → was_left peer (xs ++ (a, success) ∷ [])
      ≡ (was_left peer xs || (not success && text_eq a peer))
was_left-append peer [] a success = ground arith
was_left-append peer ((b, s) ∷ xs) a success = ground (arith, was_left-append peer xs a success)

pub All-without_session {κ} :
    (P : Session → Type κ) (xs : List Session) (i : ℕ) → All P xs → All P (without_session i xs)
All-without_session P [] i h = tt
All-without_session P (x ∷ xs) zero h = h.1
All-without_session P (x ∷ xs) (suc i) h = (h.0, All-without_session P xs i h.1)

-- What holds of all rows of others, and of the peer's own, holds of all rows.
pub All-of_others {κ} :
    (P : Row → Type κ) (peer : Text) (rows : List Row)
    → ((r : Row) → r.peeraddr ≡ peer → P r)
    → All P (without_peer peer rows)
    → All P rows
unfolding without_peer
All-of_others P peer [] own h = tt
All-of_others P peer (r ∷ rows) own h = elim (Bool-cases (text_eq r.peeraddr peer)) [
  | inl e ↦ (own r (text_eq_sound r.peeraddr peer e), All-of_others P peer rows own (rw e at h))
  | inr e ↦ let k = rw e at h in (k.0, All-of_others P peer rows own k.1)
]

pub All-others {κ} :
    (P : Row → Type κ) (peer : Text) (rows : List Row)
    → All P rows
    → All (λ r. P r × (text_eq r.peeraddr peer ≡ false)) (without_peer peer rows)
unfolding without_peer
All-others P peer [] h = tt
All-others P peer (r ∷ rows) h = elim (Bool-cases (text_eq r.peeraddr peer)) [
  | inl e ↦ rw e (All-others P peer rows h.1)
  | inr e ↦ rw e ((h.0, e), All-others P peer rows h.1)
]
