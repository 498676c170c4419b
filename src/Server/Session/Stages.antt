-- ===== src/Server/Session/Stages.antt =====
-- p2p as a machine that stops at each recv: the stage of a session tells in which loop it waits.
use s.Prelude.{
  ℕ, ◌≡◌, ◌∙◌, sym, refl, Bool, inl, inr, ◌||◌, List, [], ◌∷◌, Bool-cases, if◌then◌else◌,
}
use s.Clib.{Text, codes, text_eq}
use s.Outcome.{Result, ok, ◌>>=◌, >>=_assoc, >>=_ext}
use s.Server.Messages.{Received, read_line}
use s.Server.Sqlite.{Sqlite}
use s.Server.Commands.{command_of}
use s.Server.Session.{
  World, greet, handle, buffer_after, Progress, handshake, serve, serve_after, Outcome,
  still_waiting, leave, leave_after, p2p,
}

-- The session waits for CONNECT, waits for a command, or has read QUIT.
pub data Stage : Type 0 where
  greeting serving leaving : Stage

-- Where the loops go on with what is in the buffer.
unfoldable pub serving_stage : Text → Stage
serving_stage buffer = if text_eq buffer (codes "QUIT") then leaving else serving

unfoldable pub greeting_stage : Text → Stage
unfolding serving_stage
greeting_stage buffer =
    if text_eq buffer (codes "CONNECT") || text_eq buffer (codes "QUIT")
    then serving_stage buffer
    else greeting

module _ (q : Sqlite) where
  -- What the session does from one recv to the next. After QUIT it reads no more.
  unfoldable pub read_step : ℕ → Text → Stage → Received → World q → Result (Stage × World q)
  read_step fuel peeraddr greeting r w = do
    line ← read_line r
    ok (greeting_stage line, greet q line w)
  read_step fuel peeraddr serving r w = do
    line ← read_line r
    w' ← handle q fuel peeraddr (command_of line) line w
    ok (serving_stage (buffer_after q (command_of line) line), w')
  read_step fuel peeraddr leaving r w = ok (leaving, w)

  -- A session alone: step by step, and the end of p2p.
  unfoldable pub session : ℕ → Text → Bool → List Received → Stage → World q → Result (Outcome q)
  session fuel peeraddr closes [] greeting w = ok (still_waiting w)
  session fuel peeraddr closes [] serving w = ok (still_waiting w)
  session fuel peeraddr closes [] leaving w = leave q peeraddr closes w
  session fuel peeraddr closes (r ∷ rs) greeting w = do
    next ← read_step fuel peeraddr greeting r w
    session fuel peeraddr closes rs next.0 next.1
  session fuel peeraddr closes (r ∷ rs) serving w = do
    next ← read_step fuel peeraddr serving r w
    session fuel peeraddr closes rs next.0 next.1
  session fuel peeraddr closes (r ∷ rs) leaving w = leave q peeraddr closes w

module _ (q : Sqlite) (fuel : ℕ) (peeraddr : Text) (closes : Bool) where
  abbrev served : Result (Progress q) → Result (Outcome q)
  served m = m >>= leave_after q peeraddr closes

  serve-session :
      (rs : List Received) (buffer : Text) (w : World q)
      → served (serve q fuel peeraddr rs buffer w)
        ≡ session q fuel peeraddr closes rs (serving_stage buffer) w
  unfolding serve session serving_stage leave_after read_step
  serve-session [] buffer w = elim (Bool-cases (text_eq buffer (codes "QUIT"))) [
    | inl e ↦ rw e refl
    | inr e ↦ rw e refl
  ]
  serve-session (r ∷ rs) buffer w = elim (Bool-cases (text_eq buffer (codes "QUIT"))) [
    | inl e ↦ rw e refl
    | inr e ↦ rw e (
        >>=_assoc (read_line r) _ _
        ∙ >>=_ext (read_line r) _ _ (λ line.
          >>=_assoc (handle q fuel peeraddr (command_of line) line w) _ _
          ∙ >>=_ext (handle q fuel peeraddr (command_of line) line w) _ _
              (λ w'. serve-session rs (buffer_after q (command_of line) line) w')
          ∙ sym (>>=_assoc (handle q fuel peeraddr (command_of line) line w) _ _))
        ∙ sym (>>=_assoc (read_line r) _ _))
  ]

  handshake-session :
      (rs : List Received) (buffer : Text) (w : World q)
      → served (handshake q rs buffer w >>= serve_after q fuel peeraddr)
        ≡ session q fuel peeraddr closes rs (greeting_stage buffer) w
  unfolding handshake session greeting_stage serve_after read_step
  handshake-session [] buffer w =
      elim (Bool-cases (text_eq buffer (codes "CONNECT") || text_eq buffer (codes "QUIT"))) [
        | inl e ↦ rw e (serve-session [] buffer w)
        | inr e ↦ rw e (unfold leave_after in refl)
      ]
  handshake-session (r ∷ rs) buffer w =
      elim (Bool-cases (text_eq buffer (codes "CONNECT") || text_eq buffer (codes "QUIT"))) [
        | inl e ↦ rw e (serve-session (r ∷ rs) buffer w)
        | inr e ↦ rw e (
            >>=_assoc (read_line r >>= _) _ _
            ∙ >>=_assoc (read_line r) _ _
            ∙ >>=_ext (read_line r) _ _ (λ line.
              sym (>>=_assoc (handshake q rs line (greet q line w)) _ _)
              ∙ handshake-session rs line (greet q line w))
            ∙ sym (>>=_assoc (read_line r) _ _))
      ]

  -- p2p does, from recv to recv, what the steps of its stages do, and then its end.
  pub p2p-session :
      (rs : List Received) (buffer : Text) (w : World q)
      → p2p q fuel peeraddr closes rs buffer w
        ≡ session q fuel peeraddr closes rs (greeting_stage buffer) w
  p2p-session rs buffer w =
      unfold p2p in sym (>>=_assoc (handshake q rs buffer w) _ _) ∙ handshake-session rs buffer w
