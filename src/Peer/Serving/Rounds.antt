-- ===== src/Peer/Serving/Rounds.antt =====
-- How long a round of the peer's server takes.
use s.Prelude.{
  ℕ, zero, suc, ◌+◌, ◌-◌, ◌≤◌, ◌<◌, ◌≡◌, ◌≢◌, ◌∙◌, refl, sym, ap, subst, Bool, true, false, Option,
  none, some, List, [], ◌∷◌, ◌++◌, length, length-append, get_or, arith, ltb, ◌==◌, if◌then◌else◌,
  Bool-cases, inl, inr,
}
use s.Outcome.{Result, ok, err, overflow, endless, ◌>>=◌}
use s.Peer.Serving.Table.{length-remove_at, remove_at-newest}
use s.Peer.Serving.{
  Serving, Heard, gone, message, Arrival, accept_first, remove_at, handle, visit, if_ready, round,
}

-- A result that was not cut off by its fuel.
abbrev pub Ends : Result Serving → Type 0
Ends r = r ≢ err endless

-- Sockets that accept returns are not in the set that select has left.
abbrev pub FreshSockets : (ℕ → Option Arrival) → Type 0
FreshSockets ready =
    (socket client : ℕ) (a : Arrival)
    → ready socket ≡ some a
    → a.accepted ≡ some client
    → ready client ≡ none

Ends-if :
    (b : Bool) (r s : Result Serving)
    → (b ≡ true → Ends r)
    → (b ≡ false → Ends s)
    → Ends (if b then r else s)
Ends-if true r s h k = h refl
Ends-if false r s h k = k refl

Ends-ready :
    (o : Option Arrival) (skip : Result Serving) (busy : Arrival → Result Serving)
    → (o ≡ none → Ends skip)
    → ((a : Arrival) → o ≡ some a → Ends (busy a))
    → Ends (if_ready o skip busy)
Ends-ready none skip busy h k = unfold if_ready in h refl
Ends-ready (some a) skip busy h k = unfold if_ready in k a refl

Ends-visit :
    (fuel : ℕ) (ready : ℕ → Option Arrival) (i : ℕ) (a : Arrival) (p : Serving) {next : ℕ × Serving}
    → visit i a p ≡ ok next
    → Ends (round fuel next.0 ready next.1)
    → Ends (visit i a p >>= λ n. round fuel n.0 ready n.1)
Ends-visit fuel ready i a p {next} e h =
    subst (λ v. Ends (v >>= λ n. round fuel n.0 ready n.1)) (sym e) h

pub visit-later :
    (i : ℕ) (a : Arrival) (p : Serving)
    → 1 ≤ i
    → visit i a p ≡ ok (handle (get_or p.sockets i 0) a.heard i p)
visit-later i a p h = let no : (i == 0) ≡ false = ground arith in unfold visit in rw no refl

-- A visit goes on behind the place, or at the same place of a table that is shorter.
handle-measure :
    (socket : ℕ) (heard : Heard) (i : ℕ) (p : Serving)
    → let n = handle socket heard i p in
      (i ≤ n.0) × (length n.1.sockets - n.0 ≤ length p.sockets - 1 - i)
handle-measure socket gone i p = unfold handle in omega (arith, length-remove_at i p.sockets)
handle-measure socket (message path) i p = unfold handle in omega arith

-- Behind the first place.
Ends-later :
    (fuel i : ℕ) (ready : ℕ → Option Arrival) (p : Serving)
    → 1 ≤ i
    → length p.sockets - i < fuel
    → Ends (round fuel i ready p)
unfolding round
Ends-later zero i ready p h enough = absurd (omega arith)
Ends-later (suc fuel) i ready p h enough =
    Ends-if (ltb i (length p.sockets)) _ _
      (λ e.
        Ends-ready (ready (get_or p.sockets i 0)) _ _
          (λ n. Ends-later fuel (i + 1) ready p (omega arith) (ground arith))
          (λ a s. Ends-visit fuel ready i a p (visit-later i a p h) (
            let m = handle-measure (get_or p.sockets i 0) a.heard i p in
            Ends-later fuel _ ready _ (omega arith) (ground arith))))
      (λ e k. cc)

-- A first place that is not ready.
Ends-passed :
    (fuel : ℕ) (ready : ℕ → Option Arrival) (p : Serving)
    → ready (get_or p.sockets 0 0) ≡ none
    → length p.sockets - 1 < fuel
    → Ends (round (suc fuel) 0 ready p)
Ends-passed fuel ready p e enough =
    unfold round in
    Ends-if (ltb 0 (length p.sockets)) _ _
      (λ l.
        Ends-ready (ready (get_or p.sockets 0 0)) _ _
          (λ n. Ends-later fuel 1 ready p (omega arith) enough)
          (λ a s. absurd (grind (arith, e, s))))
      (λ l k. cc)

visit-accepts :
    (client : ℕ) (heard : Heard) (p : Serving)
    → ltb (length p.sockets) 64 ≡ true
    → visit 0 (record { accepted = some client; heard = heard }) p
      ≡ ok (handle client heard 0 (record p { sockets = p.sockets ++ client ∷ [] }))
visit-accepts client heard p e = unfold visit accept_first in rw e refl

visit-full :
    (client : ℕ) (heard : Heard) (p : Serving)
    → ltb (length p.sockets) 64 ≡ false
    → visit 0 (record { accepted = some client; heard = heard }) p ≡ err overflow
visit-full client heard p e = unfold visit accept_first in rw e refl

-- The table after a client was accepted and closed again: it stands at the first place.
Ends-gone :
    (fuel client : ℕ) (ready : ℕ → Option Arrival) (p : Serving)
    → ready client ≡ none
    → 1 ≤ length p.sockets
    → length p.sockets < fuel
    → Ends (
        round fuel 0 ready
          (handle client gone 0 (record p { sockets = p.sockets ++ client ∷ [] })).1)
Ends-gone zero client ready p none_yet one enough = absurd (omega arith)
Ends-gone (suc fuel) client ready p none_yet one enough =
    let more = p.sockets ++ client ∷ [] in
    let size : length (remove_at 0 more) ≡ length p.sockets =
      omega (arith, length-remove_at 0 more, length-append p.sockets (client ∷ [])) in
    let first : get_or (remove_at 0 more) 0 0 ≡ client = first_of p.sockets one in
    unfold handle in
    Ends-passed fuel ready
      (record p { sockets = remove_at 0 more; closed = p.closed ++ client ∷ [] })
      (ap ready first ∙ none_yet) (omega arith)
  where
    first_of :
        (sockets : List ℕ)
        → 1 ≤ length sockets
        → get_or (remove_at 0 (sockets ++ client ∷ [])) 0 0 ≡ client
    first_of [] h = absurd (omega arith)
    first_of (listener ∷ others) h =
        ap (λ t. get_or t 0 0) (remove_at-newest listener client others)

Ends-first :
    (fuel : ℕ) (ready : ℕ → Option Arrival) (accepted : Option ℕ) (heard : Heard) (p : Serving)
    → ((client : ℕ) → accepted ≡ some client → ready client ≡ none)
    → 1 ≤ length p.sockets
    → length p.sockets < fuel
    → ((p' : Serving) → length p'.sockets + 1 < fuel → Ends (round fuel 0 ready p'))
    → Ends (
        visit 0 (record { accepted = accepted; heard = heard }) p >>= λ n. round fuel n.0 ready n.1)
Ends-first fuel ready none gone p fresh one enough again =
    unfold visit accept_first handle in again _ (omega (arith, length-remove_at 0 p.sockets))
Ends-first fuel ready none (message path) p fresh one enough again =
    unfold visit accept_first handle in Ends-later fuel 1 ready _ (omega arith) (omega arith)
Ends-first fuel ready (some client) heard p fresh one enough again =
    elim (Bool-cases (ltb (length p.sockets) 64)) [
      | inl e ↦
          Ends-visit fuel ready 0 (record { accepted = some client; heard = heard }) p
            (visit-accepts client heard p e) (accepted_one heard)
      | inr e ↦
          subst (λ v. Ends (v >>= λ n. round fuel n.0 ready n.1))
            (sym (visit-full client heard p e)) (λ k. cc)
    ]
  where
    accepted_one :
        (heard : Heard)
        → let n = handle client heard 0 (record p { sockets = p.sockets ++ client ∷ [] }) in
          Ends (round fuel n.0 ready n.1)
    accepted_one gone =
        unfold handle in Ends-gone fuel client ready p (fresh client refl) one enough
    accepted_one (message path) =
        unfold handle in
        Ends-later fuel 1 ready _ (omega arith)
          (omega (arith, length-append p.sockets (client ∷ [])))

-- A round that starts at the first place ends within two more rounds of fuel than there are sockets,
-- since a new socket is not ready yet.
pub round-Ends :
    (fuel : ℕ) (ready : ℕ → Option Arrival) (p : Serving)
    → FreshSockets ready
    → length p.sockets + 1 < fuel
    → Ends (round fuel 0 ready p)
unfolding round
round-Ends zero ready p fresh enough = absurd (omega arith)
round-Ends (suc fuel) ready p fresh enough =
    Ends-if (ltb 0 (length p.sockets)) _ _
      (λ l.
        Ends-ready (ready (get_or p.sockets 0 0)) _ _
          (λ n. Ends-later fuel 1 ready p (omega arith) (omega arith))
          (λ a s.
            Ends-first fuel ready a.accepted a.heard p
              (λ client e. fresh (get_or p.sockets 0 0) client a s e) (ground arith) (omega arith)
              (λ p' h. round-Ends fuel ready p' fresh h)))
      (λ l k. cc)
