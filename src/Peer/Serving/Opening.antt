-- ===== src/Peer/Serving/Opening.antt =====
-- When the peer's server can serve at all.
use s.Prelude.{
  ℕ, suc, ◌<◌, ◌≡◌, ◌↔◌, refl, ap, Bool, true, false, Option, List, [], ◌∷◌, length, ltb, arith,
  ◌⊎◌, inl, inr, ◌≢◌,
}
use s.Outcome.{ok}
use s.Peer.Winsock.{
  make_word, low_byte, high_byte, Start, started, no_library, wrong_version, start_winsock,
}
use s.Peer.Serving.{Serving, Arrival, round, opened, construct}
use s.Peer.Serving.Answering.{worker_thread}

start_winsock-started :
    (error version : ℕ)
    → version < 65536
    → (start_winsock error version ≡ started) ↔ ((error ≡ 0) × (version ≡ make_word 2 2))
unfolding start_winsock make_word low_byte high_byte
start_winsock-started error version word = (λ e. ground (arith, e), λ h. ground (arith, h.0, h.1))

-- With an empty table the rounds change nothing.
worker_thread-nil :
    (fuel : ℕ) (sets : List (ℕ → Option Arrival)) (p : Serving)
    → p.sockets ≡ []
    → worker_thread (suc fuel) sets p ≡ ok p
unfolding worker_thread round
worker_thread-nil fuel [] p e = refl
worker_thread-nil fuel (ready ∷ sets) p e =
    let none_left : length p.sockets ≡ 0 = ap length e in
    let over : ltb 0 (length p.sockets) ≡ false = ground (arith, none_left) in
    rw over (worker_thread-nil fuel sets p e)

-- A server whose Winsock is not of version 2.2, or whose bind fails, serves no one, however often
-- select returns.
construct-idle :
    (error version socket fuel : ℕ) (binds listens : Bool) (sets : List (ℕ → Option Arrival))
    → (start_winsock error version ≢ started) ⊎ (binds ≡ false)
    → let p = construct (start_winsock error version) socket binds listens in
      worker_thread (suc fuel) sets p ≡ ok p
unfolding construct opened
construct-idle error version socket fuel binds listens sets h =
    worker_thread-nil fuel sets _ (empty (start_winsock error version) binds h)
  where
    empty :
        (start : Start) (b : Bool)
        → (start ≢ started) ⊎ (b ≡ false)
        → (construct start socket b listens).sockets ≡ []
    empty no_library b k = refl
    empty wrong_version b k = refl
    empty started b (inl differs) = absurd (differs refl)
    empty started false (inr e) = refl
    empty started true (inr e) = cc
