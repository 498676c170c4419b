-- ===== src/Peer/Serving/Table.antt =====
-- The table of sockets: its bound, and its first place, where the listening socket stands.
use s.Prelude.{
  ℕ, zero, suc, ◌+◌, ◌-◌, ◌≤◌, ◌<◌, ◌≡◌, ◌∙◌, refl, sym, ap, subst, true, Option, none, some, List,
  [], ◌∷◌, ◌++◌, length, length-append, length-take, length-set, take, take-append, get_or, set,
  arith, ltb, ◌==◌, if◌then◌else◌, Bool-cases, inl, inr,
}
use s.Outcome.{Result, ok, Holds, Holds-bind, Holds-if}
use s.Peer.Serving.{
  Serving, Heard, gone, message, Arrival, accept_first, remove_at, handle, visit, if_ready, round,
}

abbrev pub InBounds : Serving → Type 0
InBounds p = length p.sockets ≤ 64

pub length-remove_at :
    (i : ℕ) (sockets : List ℕ) → length (remove_at i sockets) ≡ length sockets - 1
length-remove_at i sockets =
    unfold remove_at in
    ground (
      arith,
      length-take (length sockets - 1) sockets,
      length-take (length sockets - 1) (set sockets i (get_or sockets (length sockets - 1) 0)),
      length-set sockets i (get_or sockets (length sockets - 1) 0),
    )

accept_first-InBounds :
    (a : Option ℕ) (p : Serving) → InBounds p → Holds (λ r. InBounds r.1) (accept_first a p)
accept_first-InBounds none p h = unfold accept_first in h
accept_first-InBounds (some client) p h =
    unfold accept_first in
    Holds-if (λ (r : ℕ × Serving). InBounds r.1) (ltb (length p.sockets) 64) _ _
      (λ e. ground (arith, length-append p.sockets (client ∷ []))) (λ e. tt)

handle-InBounds :
    (socket : ℕ) (heard : Heard) (i : ℕ) (p : Serving)
    → InBounds p
    → InBounds (handle socket heard i p).1
handle-InBounds socket gone i p h = unfold handle in omega (arith, length-remove_at i p.sockets)
handle-InBounds socket (message path) i p h = unfold handle in h

visit-InBounds :
    (i : ℕ) (a : Arrival) (p : Serving) → InBounds p → Holds (λ r. InBounds r.1) (visit i a p)
visit-InBounds i a p h =
    unfold visit in
    Holds-if (λ (r : ℕ × Serving). InBounds r.1) (i == 0) _ _
      (λ e.
        Holds-bind (λ (r : ℕ × Serving). InBounds r.1) (λ (r : ℕ × Serving). InBounds r.1)
          (accept_first a.accepted p) _ (accept_first-InBounds a.accepted p h)
          (λ r k. handle-InBounds r.0 a.heard i r.1 k))
      (λ e. handle-InBounds (get_or p.sockets i 0) a.heard i p h)

if_ready-InBounds :
    (o : Option Arrival) (skip : Result Serving) (busy : Arrival → Result Serving)
    → Holds InBounds skip
    → ((a : Arrival) → Holds InBounds (busy a))
    → Holds InBounds (if_ready o skip busy)
if_ready-InBounds none skip busy h k = unfold if_ready in h
if_ready-InBounds (some a) skip busy h k = unfold if_ready in k a

pub round-InBounds :
    (fuel i : ℕ) (ready : ℕ → Option Arrival) (p : Serving)
    → length p.sockets ≤ 64
    → Holds (λ p'. length p'.sockets ≤ 64) (round fuel i ready p)
unfolding round
round-InBounds zero i ready p h = tt
round-InBounds (suc fuel) i ready p h =
    Holds-if InBounds (ltb i (length p.sockets)) _ _
      (λ e.
        if_ready-InBounds (ready (get_or p.sockets i 0)) _ _ (round-InBounds fuel (i + 1) ready p h)
          (λ a.
            Holds-bind (λ (r : ℕ × Serving). InBounds r.1) InBounds (visit i a p) _
              (visit-InBounds i a p h) (λ r k. round-InBounds fuel r.0 ready r.1 k)))
      (λ e. h)

get_or-last : (xs : List ℕ) (x d : ℕ) → get_or (xs ++ x ∷ []) (length xs) d ≡ x
get_or-last [] x d = refl
get_or-last (y ∷ xs) x d = get_or-last xs x d

get_or-take : (xs : List ℕ) (n d : ℕ) → 1 ≤ n → get_or (take n xs) 0 d ≡ get_or xs 0 d
get_or-take [] zero d h = refl
get_or-take [] (suc n) d h = refl
get_or-take (x ∷ xs) zero d h = absurd (omega arith)
get_or-take (x ∷ xs) (suc n) d h = refl

get_or-set_first : (xs : List ℕ) (i v d : ℕ) → 1 ≤ i → get_or (set xs i v) 0 d ≡ get_or xs 0 d
get_or-set_first [] i v d h = refl
get_or-set_first (x ∷ xs) zero v d h = absurd (omega arith)
get_or-set_first (x ∷ xs) (suc i) v d h = refl

remove_at-first :
    (i : ℕ) (sockets : List ℕ) (d : ℕ)
    → 1 ≤ i
    → i < length sockets
    → get_or (remove_at i sockets) 0 d ≡ get_or sockets 0 d
remove_at-first i sockets d h lt =
    let last = length sockets - 1 in
    unfold remove_at in
    elim (Bool-cases (ltb i last)) [
      | inl e ↦ rw e (
          get_or-take (set sockets i (get_or sockets last 0)) last d (omega arith)
          ∙ get_or-set_first sockets i (get_or sockets last 0) d h)
      | inr e ↦ rw e (get_or-take sockets last d (omega arith))
    ]

pub remove_at-newest :
    (first client : ℕ) (others : List ℕ)
    → remove_at 0 (first ∷ (others ++ client ∷ [])) ≡ client ∷ others
remove_at-newest first client others =
    let all = first ∷ (others ++ client ∷ []) in
    let last : length all - 1 ≡ suc (length others) =
      omega (arith, length-append others (client ∷ [])) in
    let some_left : ltb 0 (suc (length others)) ≡ true = ground arith in
    let kept : take (suc (length others)) (set all 0 (get_or all (suc (length others)) 0))
        ≡ client ∷ others =
      ap (λ c. c ∷ take (length others) (others ++ client ∷ [])) (get_or-last others client 0)
      ∙ ap (λ t. client ∷ t) (take-append (length others) others (client ∷ []) refl) in
    unfold remove_at in
    subst
      (λ n. (if ltb 0 n then take n (set all 0 (get_or all n 0)) else take n all) ≡ client ∷ others)
      (sym last) (rw some_left kept)

handle-first :
    (socket : ℕ) (heard : Heard) (i : ℕ) (p : Serving)
    → 1 ≤ i
    → i < length p.sockets
    → get_or (handle socket heard i p).1.sockets 0 0 ≡ get_or p.sockets 0 0
handle-first socket gone i p h lt = unfold handle in remove_at-first i p.sockets 0 h lt
handle-first socket (message path) i p h lt = unfold handle in refl

visit-first :
    (i : ℕ) (a : Arrival) (p : Serving)
    → 1 ≤ i
    → i < length p.sockets
    → Holds (λ r. get_or r.1.sockets 0 0 ≡ get_or p.sockets 0 0) (visit i a p)
visit-first i a p h lt =
    unfold visit in
    Holds-if (λ (r : ℕ × Serving). get_or r.1.sockets 0 0 ≡ get_or p.sockets 0 0) (i == 0) _ _
      (λ e. absurd (ground arith)) (λ e. handle-first (get_or p.sockets i 0) a.heard i p h lt)

pub visit-lost :
    (listener client : ℕ) (others : List ℕ) (p : Serving)
    → p.sockets ≡ listener ∷ others
    → length p.sockets < 64
    → visit 0 (record { accepted = some client; heard = gone }) p
      ≡ ok (0, record p { sockets = client ∷ others; closed = p.closed ++ client ∷ [] })
visit-lost listener client others p e room =
    let fits : ltb (length p.sockets) 64 ≡ true = ground arith in
    let moved =
      ap (λ s. remove_at 0 (s ++ client ∷ [])) e ∙ remove_at-newest listener client others in
    unfold visit accept_first handle in
    rw fits (ap (λ s. ok (0, record p { sockets = s; closed = p.closed ++ client ∷ [] })) moved)

-- With a table that is not full, the listening socket keeps the first place when another place
-- is visited, whatever happens there; but a client that closes right after it was accepted takes
-- its place, and the listening socket stands in the table no more, and is not closed.
pub visit-listener :
    (listener : ℕ) (others : List ℕ) (p : Serving)
    → p.sockets ≡ listener ∷ others
    → length p.sockets < 64
    → ((i : ℕ) (a : Arrival)
        → 1 ≤ i
        → i < length p.sockets
        → Holds (λ r. get_or r.1.sockets 0 0 ≡ listener) (visit i a p))
      × ((client : ℕ)
          → visit 0 (record { accepted = some client; heard = gone }) p
            ≡ ok (0, record p { sockets = client ∷ others; closed = p.closed ++ client ∷ [] }))
visit-listener listener others p e room = (
  λ i a h lt.
      subst (λ k. Holds (λ r. get_or r.1.sockets 0 0 ≡ k) (visit i a p)) (ap (λ s. get_or s 0 0) e)
        (visit-first i a p h lt),
  λ client. visit-lost listener client others p e room,
)
