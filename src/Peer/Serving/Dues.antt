-- ===== src/Peer/Serving/Dues.antt =====
-- What one round of the peer's server does for its clients.
use s.Prelude.{
  ℕ, zero, suc, ◌+◌, ◌<◌, ◌≡◌, ◌∙◌, refl, sym, ap, subst, true, Option, none, some, List, [], ◌∷◌,
  ◌++◌, length, length-append, get_or, append-nil, ◌≢◌, arith, ltb,
}
use s.Clib.{Text}
use s.Outcome.{ok, ◌>>=◌}
use s.Peer.Serving.Rounds.{FreshSockets}
use s.Peer.Serving.Table.{visit-lost}
use s.Peer.Serving.Sweep.{Deals, Deals-gone, Deals-message, round_at, round-place, sweep}
use s.Peer.Serving.News.{greeted, newcomer, news-append, news_of, news}
use s.Peer.Serving.{
  Serving, Heard, gone, message, Arrival, accept_first, handle, visit, if_ready, round,
}

visit-greets :
    (client : ℕ) (path : Text) (p : Serving)
    → length p.sockets < 64
    → visit 0 (record { accepted = some client; heard = message path }) p
      ≡ ok (
        1,
        record p { sockets = p.sockets ++ client ∷ []; asked = p.asked ++ (client, path) ∷ [] },
      )
visit-greets client path p room =
    let fits : ltb (length p.sockets) 64 ≡ true = ground arith in
    unfold visit accept_first handle in rw fits refl

-- At the first place, once accept has returned a client that is not ready itself.
Deals-greeted :
    (fuel : ℕ) (ready : ℕ → Option Arrival) (listener : ℕ) (others : List ℕ) (client : ℕ)
    (heard : Heard) (p : Serving)
    → p.sockets ≡ listener ∷ others
    → length p.sockets < 64
    → length p.sockets < fuel
    → ready client ≡ none
    → Deals ((client, heard) ∷ news ready others) p (
        visit 0 (record { accepted = some client; heard = heard }) p >>= λ next.
        round fuel next.0 ready next.1)
Deals-greeted fuel ready listener others client (message path) p e room enough quiet =
    let p' = record p {
      sockets = p.sockets ++ client ∷ [];
      asked = p.asked ++ (client, path) ∷ [];
    } in
    let due : news ready (others ++ client ∷ []) ≡ news ready others =
      news-append ready others (client ∷ [])
      ∙ ap (λ o. news ready others ++ (news_of client o ++ [])) quiet
      ∙ append-nil (news ready others) in
    rw (visit-greets client path p room) (
      Deals-message client path (news ready others) p p'.sockets _ (
        subst (λ d. Deals d p' (round fuel 1 ready p')) due
          (sweep fuel ready (listener ∷ []) (others ++ client ∷ []) p' (omega arith)
            (omega (arith, ap length e, length-append others (client ∷ [])))
            (ap (λ t. t ++ client ∷ []) e))))
Deals-greeted zero ready listener others client gone p e room enough quiet = absurd (omega arith)
Deals-greeted (suc fuel) ready listener others client gone p e room enough quiet =
    let p' = record p { sockets = client ∷ others; closed = p.closed ++ client ∷ [] } in
    rw (visit-lost listener client others p e room) (
      Deals-gone client (news ready others) p (client ∷ others) _ (
        subst (Deals (news ready others) p')
          (sym (
            round-place fuel ready p' 0 client (omega arith) refl
            ∙ ap (round_at fuel ready 0 p') quiet))
          (unfold if_ready in
            sweep fuel ready (client ∷ []) others p' (omega arith) (omega (arith, ap length e))
              refl)))

Deals-welcomed :
    (fuel : ℕ) (ready : ℕ → Option Arrival) (listener : ℕ) (others : List ℕ) (accepted : Option ℕ)
    (heard : Heard) (p : Serving)
    → p.sockets ≡ listener ∷ others
    → length p.sockets < 64
    → length p.sockets < fuel
    → ((client : ℕ) → accepted ≡ some client → ready client ≡ none)
    → accepted ≢ none
    → Deals (greeted accepted heard ++ news ready others) p (
        visit 0 (record { accepted = accepted; heard = heard }) p >>= λ next.
        round fuel next.0 ready next.1)
Deals-welcomed fuel ready listener others none heard p e room enough quiet welcome =
    absurd (welcome refl)
Deals-welcomed fuel ready listener others (some client) heard p e room enough quiet welcome =
    Deals-greeted fuel ready listener others client heard p e room enough (quiet client refl)

-- A round of the peer's server deals with each socket that is ready exactly once, though closing a
-- socket moves the last one to its place: it has a result, the files asked for in it are those of the
-- client that accept returned and of the other ready sockets, in some order, and the sockets closed
-- are those of them that are gone. The table has the listening socket first and is not full, the
-- fuel is at least two above its length, accept does not fail, and a socket that it returns is not
-- in the set that select has left.
pub round-Deals :
    (fuel : ℕ) (ready : ℕ → Option Arrival) (listener : ℕ) (others : List ℕ) (p : Serving)
    → p.sockets ≡ listener ∷ others
    → length p.sockets < 64
    → length p.sockets + 1 < fuel
    → FreshSockets ready
    → ((a : Arrival) → ready listener ≡ some a → a.accepted ≢ none)
    → Deals (newcomer (ready listener) ++ news ready others) p (round fuel 0 ready p)
round-Deals zero ready listener others p e room enough fresh welcome = absurd (omega arith)
round-Deals (suc fuel) ready listener others p e room enough fresh welcome =
    subst (Deals (newcomer (ready listener) ++ news ready others) p)
      (sym (
        round-place fuel ready p 0 listener (omega (arith, ap length e))
          (ap (λ t. get_or t 0 0) e)))
      (by_ready (ready listener) refl)
  where
    by_ready :
        (o : Option Arrival)
        → ready listener ≡ o
        → Deals (newcomer o ++ news ready others) p (round_at fuel ready 0 p o)
    by_ready none k =
        unfold if_ready in
        sweep fuel ready (listener ∷ []) others p (omega arith) (omega (arith, ap length e)) e
    by_ready (some a) k =
        unfold if_ready in
        Deals-welcomed fuel ready listener others a.accepted a.heard p e room (omega arith)
          (λ client c. fresh listener client a k c) (welcome a k)
