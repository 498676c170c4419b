-- ===== src/Peer/Serving/Sweep.antt =====
-- A round of the peer's server behind the listening socket, where closing moves sockets.
use mathlib.Core.List.{Perm}
use s.Prelude.{
  ℕ, zero, suc, ◌+◌, ◌-◌, ◌≤◌, ◌<◌, ◌≡◌, ◌∙◌, refl, sym, ap, subst, true, false, Option, none, some,
  List, [], ◌∷◌, ◌++◌, length, length-append, take, take-append, get_or, set, append-nil,
  append_assoc, arith, ltb,
}
use s.Clib.{Text}
use s.Outcome.{Result, ok, err, ◌>>=◌}
use s.Peer.Serving.Rounds.{visit-later}
use s.Peer.Serving.News.{
  News, news_of, news, asked_in, gone_in, Dealt, Dealt-nil, last_first, length-last_first,
  Dealt-last_first,
}
use s.Peer.Serving.{
  Serving, Heard, gone, message, Arrival, remove_at, handle, visit, if_ready, round,
}

-- A result that is a value, with the news dealt with.
abbrev pub Deals : List News → Serving → Result Serving → Type 0
Deals due p (ok p') = Dealt due p p'
Deals due p (err e) = ⊥

remove_at-place :
    (pre more : List ℕ) (socket : ℕ)
    → remove_at (length pre) (pre ++ socket ∷ more) ≡ pre ++ last_first more
remove_at-place pre [] socket =
    let size : length (pre ++ socket ∷ []) - 1 ≡ length pre =
      omega (arith, length-append pre (socket ∷ [])) in
    let no : ltb (length pre) (length pre) ≡ false = ground arith in
    unfold remove_at in
    rw size (rw no (take-append (length pre) pre (socket ∷ []) refl ∙ sym (append-nil pre)))
remove_at-place pre (x ∷ more) socket =
    let all = pre ++ socket ∷ x ∷ more in
    let size : length all - 1 ≡ length pre + suc (length more) =
      omega (arith, length-append pre (socket ∷ x ∷ more)) in
    let yes : ltb (length pre) (length all - 1) ≡ true = ground arith in
    unfold remove_at in rw yes (moved pre (length all - 1) size)
  where
    moved :
        (pre : List ℕ) (last : ℕ)
        → last ≡ length pre + suc (length more)
        → let all = pre ++ socket ∷ x ∷ more in
          take last (set all (length pre) (get_or all last 0)) ≡ pre ++ last_first (x ∷ more)
    moved [] zero e = absurd (omega arith)
    moved [] (suc last) e = let size : last ≡ length more = omega arith in rw size refl
    moved (y ∷ pre) zero e = absurd (omega arith)
    moved (y ∷ pre) (suc last) e = ap (λ t. y ∷ t) (moved pre last (omega arith))

-- The rest of a round from a place that stands in the table, with what happens there.
abbrev pub round_at : ℕ → (ℕ → Option Arrival) → ℕ → Serving → Option Arrival → Result Serving
round_at fuel ready i p o =
    if_ready o (round fuel (i + 1) ready p)
      (λ a. visit i a p >>= λ next. round fuel next.0 ready next.1)

round-end :
    (fuel : ℕ) (ready : ℕ → Option Arrival) (p : Serving) (i : ℕ)
    → length p.sockets ≤ i
    → round (suc fuel) i ready p ≡ ok p
round-end fuel ready p i h =
    let no : ltb i (length p.sockets) ≡ false = ground arith in unfold round in rw no refl

pub round-place :
    (fuel : ℕ) (ready : ℕ → Option Arrival) (p : Serving) (i socket : ℕ)
    → i < length p.sockets
    → get_or p.sockets i 0 ≡ socket
    → round (suc fuel) i ready p ≡ round_at fuel ready i p (ready socket)
round-place fuel ready p i socket h e =
    let yes : ltb i (length p.sockets) ≡ true = ground arith in unfold round in rw yes (rw e refl)

get_or-place :
    (pre more : List ℕ) (socket : ℕ) → get_or (pre ++ socket ∷ more) (length pre) 0 ≡ socket
get_or-place [] more socket = refl
get_or-place (x ∷ pre) more socket = get_or-place pre more socket

-- One more thing dealt with.
pub Deals-gone :
    (socket : ℕ) (due : List News) (p : Serving) (sockets : List ℕ) (r : Result Serving)
    → Deals due (record p { sockets = sockets; closed = p.closed ++ socket ∷ [] }) r
    → Deals ((socket, gone) ∷ due) p r
Deals-gone socket due p sockets (err fault) d = elim d [ ]
Deals-gone socket due p sockets (ok p') d = record {
  asked = d.asked;
  closed = subst (Perm p'.closed) (append_assoc p.closed (socket ∷ []) (gone_in due)) d.closed;
}

pub Deals-message :
    (socket : ℕ) (path : Text) (due : List News) (p : Serving) (sockets : List ℕ)
    (r : Result Serving)
    → Deals due (record p { sockets = sockets; asked = p.asked ++ (socket, path) ∷ [] }) r
    → Deals ((socket, message path) ∷ due) p r
Deals-message socket path due p sockets (err fault) d = elim d [ ]
Deals-message socket path due p sockets (ok p') d = record {
  asked = subst (Perm p'.asked) (append_assoc p.asked ((socket, path) ∷ []) (asked_in due)) d.asked;
  closed = d.closed;
}

Deals-last_first :
    (ready : ℕ → Option Arrival) (todo : List ℕ) (p : Serving) (r : Result Serving)
    → Deals (news ready (last_first todo)) p r
    → Deals (news ready todo) p r
Deals-last_first ready todo p (err fault) d = elim d [ ]
Deals-last_first ready todo p (ok p') d = Dealt-last_first ready todo d

-- What a place behind the first needs: that the places behind it are dealt with.
abbrev Swept : ℕ → (ℕ → Option Arrival) → Type 0
Swept fuel ready =
    (pre todo : List ℕ) (p : Serving)
    → 1 ≤ length pre
    → length todo < fuel
    → p.sockets ≡ pre ++ todo
    → Deals (news ready todo) p (round fuel (length pre) ready p)

sweep-next :
    (fuel : ℕ) (ready : ℕ → Option Arrival) (pre more : List ℕ) (socket : ℕ) (p : Serving)
    → Swept fuel ready
    → length more < fuel
    → p.sockets ≡ pre ++ socket ∷ more
    → Deals (news ready more) p (round fuel (length pre + 1) ready p)
sweep-next fuel ready pre more socket p rest enough e =
    let size : length (pre ++ socket ∷ []) ≡ length pre + 1 = length-append pre (socket ∷ []) in
    subst (λ i. Deals (news ready more) p (round fuel i ready p)) size
      (rest (pre ++ socket ∷ []) more p (omega arith) enough
        (e ∙ sym (append_assoc pre (socket ∷ []) more)))

sweep-busy :
    (fuel : ℕ) (ready : ℕ → Option Arrival) (pre more : List ℕ) (socket : ℕ) (heard : Heard)
    (p : Serving)
    → Swept fuel ready
    → 1 ≤ length pre
    → length more < fuel
    → p.sockets ≡ pre ++ socket ∷ more
    → let n = handle socket heard (length pre) p in
      Deals ((socket, heard) ∷ news ready more) p (round fuel n.0 ready n.1)
sweep-busy fuel ready pre more socket gone p rest one enough e =
    let left = remove_at (length pre) p.sockets in
    let p' = record p { sockets = left; closed = p.closed ++ socket ∷ [] } in
    let place : left ≡ pre ++ last_first more =
      ap (remove_at (length pre)) e ∙ remove_at-place pre more socket in
    unfold handle in
    Deals-gone socket (news ready more) p left _ (
      Deals-last_first ready more p' _
        (rest pre (last_first more) p' one (omega (arith, length-last_first more)) place))
sweep-busy fuel ready pre more socket (message path) p rest one enough e =
    unfold handle in
    Deals-message socket path (news ready more) p p.sockets _
      (sweep-next fuel ready pre more socket _ rest enough e)

sweep-ready :
    (fuel : ℕ) (ready : ℕ → Option Arrival) (pre more : List ℕ) (socket : ℕ) (o : Option Arrival)
    (p : Serving)
    → Swept fuel ready
    → 1 ≤ length pre
    → length more < fuel
    → p.sockets ≡ pre ++ socket ∷ more
    → Deals (news_of socket o ++ news ready more) p (round_at fuel ready (length pre) p o)
sweep-ready fuel ready pre more socket none p rest one enough e =
    unfold if_ready in sweep-next fuel ready pre more socket p rest enough e
sweep-ready fuel ready pre more socket (some a) p rest one enough e =
    let at = ap (λ t. get_or t (length pre) 0) e ∙ get_or-place pre more socket in
    let went : visit (length pre) a p ≡ ok (handle socket a.heard (length pre) p) =
      visit-later (length pre) a p one ∙ ap (λ s. ok (handle s a.heard (length pre) p)) at in
    unfold if_ready in rw went (sweep-busy fuel ready pre more socket a.heard p rest one enough e)

-- Behind the first place, the round deals with what is left, whatever it is.
pub sweep : (fuel : ℕ) (ready : ℕ → Option Arrival) → Swept fuel ready
sweep zero ready pre todo p one enough e = absurd (omega arith)
sweep (suc fuel) ready pre [] p one enough e =
    let over : length p.sockets ≤ length pre = omega (arith, ap length e, length-append pre []) in
    subst (Deals [] p) (sym (round-end fuel ready p (length pre) over)) (Dealt-nil p)
sweep (suc fuel) ready pre (socket ∷ more) p one enough e =
    let size : length pre < length p.sockets =
      omega (arith, ap length e, length-append pre (socket ∷ more)) in
    let at = ap (λ t. get_or t (length pre) 0) e ∙ get_or-place pre more socket in
    subst (Deals (news ready (socket ∷ more)) p)
      (sym (round-place fuel ready p (length pre) socket size at))
      (sweep-ready fuel ready pre more socket (ready socket) p (sweep fuel ready) one (omega arith)
        e)
