-- ===== src/Peer/Serving/News.antt =====
-- What the sockets of the peer's server have to say, and what it means to have dealt with it.
use mathlib.Core.List.{Perm, perm_append_comm}
use mathlib.Core.List.Perm
use s.Prelude.{
  ℕ, ◌≡◌, ◌∙◌, refl, sym, ap, subst, Option, none, some, List, [], ◌∷◌, ◌++◌, length, length-take,
  take, get_or, append-nil, append_assoc, arith,
}
use s.Clib.{Text}
use s.Peer.Serving.{Serving, Heard, gone, message, Arrival}

-- A socket with what is heard of it.
abbrev pub News : Type 0
News = ℕ × Heard

abbrev pub news_of : ℕ → Option Arrival → List News
news_of socket none = []
news_of socket (some a) = (socket, a.heard) ∷ []

-- The news of the sockets that are ready, in order.
abbrev pub news : (ℕ → Option Arrival) → List ℕ → List News
news ready [] = []
news ready (socket ∷ sockets) = news_of socket (ready socket) ++ news ready sockets

abbrev pub greeted : Option ℕ → Heard → List News
greeted none heard = []
greeted (some client) heard = (client, heard) ∷ []

-- The news of the client that accept returns, when the listening socket is ready.
abbrev pub newcomer : Option Arrival → List News
newcomer none = []
newcomer (some a) = greeted a.accepted a.heard

-- The files asked for.
abbrev pub asked_in : List News → List (ℕ × Text)
asked_in [] = []
asked_in ((socket, gone) ∷ rest) = asked_in rest
asked_in ((socket, message path) ∷ rest) = (socket, path) ∷ asked_in rest

-- The sockets that their peers have closed.
abbrev pub gone_in : List News → List ℕ
gone_in [] = []
gone_in ((socket, gone) ∷ rest) = socket ∷ gone_in rest
gone_in ((socket, message path) ∷ rest) = gone_in rest

-- The news have been dealt with, each once, in some order.
pub record Dealt (due : List News) (before after : Serving) : Type 0 where
  pub asked : Perm after.asked (before.asked ++ asked_in due)
  pub closed : Perm after.closed (before.closed ++ gone_in due)

pub Dealt-nil : (p : Serving) → Dealt [] p p
Dealt-nil p = record {
  asked = subst (Perm p.asked) (sym (append-nil p.asked)) Perm.rfl;
  closed = subst (Perm p.closed) (sym (append-nil p.closed)) Perm.rfl;
}

-- The last socket first, then the others.
abbrev pub last_first : List ℕ → List ℕ
last_first [] = []
last_first (x ∷ xs) = get_or (x ∷ xs) (length xs) 0 ∷ take (length xs) (x ∷ xs)

pub length-last_first : (xs : List ℕ) → length (last_first xs) ≡ length xs
length-last_first [] = refl
length-last_first (x ∷ xs) = omega (arith, length-take (length xs) (x ∷ xs))

pub news-append :
    (ready : ℕ → Option Arrival) (xs ys : List ℕ)
    → news ready (xs ++ ys) ≡ news ready xs ++ news ready ys
news-append ready [] ys = refl
news-append ready (x ∷ xs) ys =
    ap (λ t. news_of x (ready x) ++ t) (news-append ready xs ys)
    ∙ sym (append_assoc (news_of x (ready x)) (news ready xs) (news ready ys))

asked_in-append : (xs ys : List News) → asked_in (xs ++ ys) ≡ asked_in xs ++ asked_in ys
asked_in-append [] ys = refl
asked_in-append ((socket, gone) ∷ xs) ys = asked_in-append xs ys
asked_in-append ((socket, message path) ∷ xs) ys =
    ap (λ t. (socket, path) ∷ t) (asked_in-append xs ys)

gone_in-append : (xs ys : List News) → gone_in (xs ++ ys) ≡ gone_in xs ++ gone_in ys
gone_in-append [] ys = refl
gone_in-append ((socket, gone) ∷ xs) ys = ap (λ t. socket ∷ t) (gone_in-append xs ys)
gone_in-append ((socket, message path) ∷ xs) ys = gone_in-append xs ys

init-last :
    (x : ℕ) (xs : List ℕ) → take (length xs) (x ∷ xs) ++ get_or (x ∷ xs) (length xs) 0 ∷ [] ≡ x ∷ xs
init-last x [] = refl
init-last x (y ∷ xs) = ap (λ t. x ∷ t) (init-last y xs)

swapped {ℓ} : {A : Type ℓ} {xs ys : List A} (a b : List A) → xs ≡ a ++ b → ys ≡ b ++ a → Perm xs ys
swapped a b e k = rw e (rw k (perm_append_comm a b))

Dealt-swap :
    {p p' : Serving} (first second : List News)
    → Dealt (first ++ second) p p'
    → Dealt (second ++ first) p p'
Dealt-swap {p} {p'} xs ys d = record {
  asked = Perm.trans d.asked (
      Perm.append_left p.asked
        (swapped (asked_in xs) (asked_in ys) (asked_in-append xs ys) (asked_in-append ys xs)));
  closed = Perm.trans d.closed (
      Perm.append_left p.closed
        (swapped (gone_in xs) (gone_in ys) (gone_in-append xs ys) (gone_in-append ys xs)));
}

pub Dealt-last_first :
    {p p' : Serving} (ready : ℕ → Option Arrival) (todo : List ℕ)
    → Dealt (news ready (last_first todo)) p p'
    → Dealt (news ready todo) p p'
Dealt-last_first ready [] d = d
Dealt-last_first {p} {p'} ready (x ∷ xs) d =
    let l = get_or (x ∷ xs) (length xs) 0 in
    let t = take (length xs) (x ∷ xs) in
    let whole : news ready t ++ news_of l (ready l) ≡ news ready (x ∷ xs) =
      ap (λ n. news ready t ++ n) (sym (append-nil (news_of l (ready l))))
      ∙ sym (news-append ready t (l ∷ []))
      ∙ ap (news ready) (init-last x xs) in
    subst (λ due. Dealt due p p') whole (Dealt-swap (news_of l (ready l)) (news ready t) d)
