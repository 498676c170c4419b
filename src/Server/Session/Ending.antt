-- ===== src/Server/Session/Ending.antt =====
-- When a session ends.
use s.Prelude.{
  ℕ, zero, suc, ◌≡◌, ◌≢◌, ◌∙◌, refl, ap, true, false, inl, inr, List, [], ◌∷◌, ◌++◌, replicate, All,
  arith, append-nil, append_assoc, Bool-cases,
}
use s.Clib.{Text, codes, starts_with, text_eq, token, c_string}
use s.Net.{Received, arrived, with_nul}
use s.Outcome.{Result, ok, Holds, Holds-bind, Holds-of_eq}
use s.Server.Messages.{read_line, recv_msg, clean_string}
use s.Server.Sqlite.{Sqlite}
use s.Server.Commands.{command_of}
use s.Server.Replies.{accept_line, unknown_line}
use s.Server.Session.{
  World, send_msg, handle, buffer_after, Progress, passed, waiting, greet, handshake, serve,
}

-- The first word of a line that begins with another letter than Q is not QUIT.
token-ne_quit :
    (c : ℕ) (p line : Text)
    → c ≢ 81
    → starts_with line (c ∷ p) ≡ true
    → text_eq (token line) (codes "QUIT") ≡ false
unfolding starts_with token text_eq
token-ne_quit c p [] other h = cc
token-ne_quit c p (b ∷ line) other h = ground arith

-- A command other than QUIT leaves no QUIT behind.
pub buffer_after-ne_quit :
    (q : Sqlite) (line : Text)
    → text_eq line (codes "QUIT") ≡ false
    → text_eq (buffer_after q (command_of line) line) (codes "QUIT") ≡ false
unfolding command_of buffer_after
buffer_after-ne_quit q line h = elim (Bool-cases (starts_with line (codes "ADD"))) [
  | inl e ↦ rw e (token-ne_quit 65 (codes "DD") line (omega arith) e)
  | inr e ↦ rw e (elim (Bool-cases (starts_with line (codes "DELETE"))) [
    | inl e' ↦ rw e' (token-ne_quit 68 (codes "ELETE") line (omega arith) e')
    | inr e' ↦ rw e' (elim (Bool-cases (text_eq line (codes "LIST"))) [
      | inl l ↦ rw l h
      | inr l ↦
          rw (l, h)
            (elim (Bool-cases (starts_with line (codes "REQUEST"))) [
              | inl r ↦ rw r (token-ne_quit 82 (codes "EQUEST") line (omega arith) r)
              | inr r ↦ rw r h
            ])
    ])
  ])
]

module _ (q : Sqlite) (fuel : ℕ) (peer : Text) where
  abbrev Unfinished : Progress q → Type 0
  Unfinished (passed rs buffer w) = ⊥
  Unfinished (waiting w) = Unit

  abbrev Survives : Result (Progress q) → Type 0
  Survives r = Holds Unfinished r

  -- The second loop of a session ends only by a line that is QUIT: while none of the lines read is,
  -- it waits for the next one or runs into a fault.
  serve_ends_by_quit :
      (rs : List Received) (buffer : Text) (w : World q)
      → text_eq buffer (codes "QUIT") ≡ false
      → All (λ r. (line : Text) → read_line r ≡ ok line → text_eq line (codes "QUIT") ≡ false) rs
      → Survives (serve q fuel peer rs buffer w)
  unfolding serve
  serve_ends_by_quit [] buffer w hb h = rw hb tt
  serve_ends_by_quit (r ∷ rs) buffer w hb h = rw hb (
      Holds-bind (λ line. text_eq line (codes "QUIT") ≡ false) Unfinished (read_line r) _
        (Holds-of_eq _ (read_line r) h.0)
        λ line other.
          Holds-bind (λ v. Unit {0}) Unfinished (handle q fuel peer (command_of line) line w) _
            (Holds-of_eq _ _ (λ v e. tt))
            λ v _. serve_ends_by_quit rs _ v (buffer_after-ne_quit q line other) h.1)

  silent_round :
      (rs : List Received) (buffer : Text) (w : World q)
      → text_eq buffer (codes "QUIT") ≡ false
      → serve q fuel peer (arrived [] ∷ rs) buffer w
        ≡ serve q fuel peer rs [] (send_msg unknown_line w)
  unfolding serve read_line recv_msg c_string clean_string command_of starts_with text_eq handle
      buffer_after
  silent_round rs buffer w hb = rw hb

  -- A client that closes its connection without QUIT is never let go: recv then returns 0 each
  -- time, and however often, the session goes on, with one more error message for each.
  pub serve-silent :
      (n : ℕ) (buffer : Text) (w : World q)
      → text_eq buffer (codes "QUIT") ≡ false
      → serve q fuel peer (replicate n (arrived [])) buffer w
        ≡ ok (waiting (record w { sent = w.sent ++ replicate n unknown_line }))
  serve-silent zero buffer w hb = unfold serve in rw (hb, append-nil)
  serve-silent (suc n) buffer w hb =
      silent_round (replicate n (arrived [])) buffer w hb
      ∙ serve-silent n [] (send_msg unknown_line w) (unfold text_eq in refl)
      ∙ regroup
    where
      regroup :
          ok (
            waiting (record (send_msg unknown_line w) {
              sent = (send_msg unknown_line w).sent ++ replicate n unknown_line;
            }))
          ≡ ok (waiting (record w { sent = w.sent ++ replicate (suc n) unknown_line }))
      regroup =
          unfold send_msg in
          ap (λ m. ok (waiting (record w { sent = m })))
            (append_assoc w.sent (unknown_line ∷ []) (replicate n unknown_line))

  -- A client that says CONNECT is answered ACCEPT, and the second loop goes on from there, unless
  -- the uninitialised buffer holds CONNECT or QUIT.
  handshake-connect :
      (rest : Text) (rs : List Received) (buffer : Text) (w : World q)
      → text_eq buffer (codes "CONNECT") ≡ false
      → text_eq buffer (codes "QUIT") ≡ false
      → handshake q (arrived (with_nul (codes "CONNECT") ++ rest) ∷ rs) buffer w
        ≡ ok (passed rs (codes "CONNECT") (send_msg accept_line w))
  unfolding handshake read_line recv_msg c_string clean_string greet text_eq
  handshake-connect rest [] buffer w hc hq = rw (hc, hq)
  handshake-connect rest (r ∷ rs) buffer w hc hq = rw (hc, hq)
