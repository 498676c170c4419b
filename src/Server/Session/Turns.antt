-- ===== src/Server/Session/Turns.antt =====
-- Several clients at one table: their sessions handle lines in any order, one line at a time.
use s.Prelude.{
  ℕ, ◌≡◌, ◌≢◌, ◌∙◌, refl, sym, ap, inl, inr, List, [], ◌∷◌, All, Bool-cases, if◌then◌else◌,
}
use s.Clib.{Text, text_eq}
use s.Clib.Strings.{Avoids, text_eq_sound}
use s.Outcome.{Result, ok, Holds, Holds-bind, Holds-weaken, ◌>>=◌}
use s.Server.Sqlite.{Sqlite}
use s.Server.Commands.{command_of}
use s.Server.Session.{World, handle}
use s.Server.Session.Table.{Row, FilesTable, without_peer}
use s.Server.Session.Others.{KeepsOthers}
use s.Server.Session.Isolation.{handle-KeepsOthers}

-- A line that a client's session has read.
pub record Turn : Type 0 where
  pub peeraddr : Text
  pub line : Text

-- What the lines do in turn; `sent` collects what all the sessions send.
unfoldable pub turns : (q : Sqlite) → ℕ → List Turn → World q → Result (World q)
turns q fuel [] w = ok w
turns q fuel (t ∷ ts) w = do
  w' ← handle q fuel t.peeraddr (command_of t.line) t.line w
  turns q fuel ts w'

-- The rows of one peer.
abbrev pub only_peer : Text → List Row → List Row
only_peer peer [] = []
only_peer peer (r ∷ rows) =
    let rest = only_peer peer rows in if text_eq r.peeraddr peer then r ∷ rest else rest

only_peer-without_peer :
    (peer other : Text) (rows : List Row)
    → other ≢ peer
    → only_peer peer (without_peer other rows) ≡ only_peer peer rows
unfolding without_peer
only_peer-without_peer peer other [] h = refl
only_peer-without_peer peer other (r ∷ rows) h =
    let again = only_peer-without_peer peer other rows h in
    elim (Bool-cases (text_eq r.peeraddr other)) [
      | inl e ↦ elim (Bool-cases (text_eq r.peeraddr peer)) [
        | inl f ↦
            absurd (h (sym (text_eq_sound r.peeraddr other e) ∙ text_eq_sound r.peeraddr peer f))
        | inr f ↦ rw (e, f) again
      ]
      | inr e ↦ elim (Bool-cases (text_eq r.peeraddr peer)) [
        | inl f ↦ rw (e, f) (ap (λ rs. r ∷ rs) again)
        | inr f ↦ rw (e, f) again
      ]
    ]

-- A turn of someone else than the peer, without a quote in its line and its address.
pub record IsForeign (peer : Text) (t : Turn) : Type 0 where
  pub other : t.peeraddr ≢ peer
  pub plain_address : Avoids 39 t.peeraddr
  pub plain_line : Avoids 39 t.line

module _ (q : Sqlite) (t : FilesTable q) (peer : Text) where
  abbrev SameRows : World q → World q → Type 0
  SameRows w w' = only_peer peer (t.rows w'.db) ≡ only_peer peer (t.rows w.db)

  turn-SameRows :
      (fuel : ℕ) (turn : Turn) (w : World q)
      → IsForeign peer turn
      → Holds (λ w'. SameRows w w') (handle q fuel turn.peeraddr (command_of turn.line) turn.line w)
  turn-SameRows fuel turn w f =
      Holds-weaken (KeepsOthers q t turn.peeraddr w) (SameRows w) _
        (handle-KeepsOthers q t turn.peeraddr f.plain_address fuel turn.line w f.plain_line)
        (λ w' k.
          sym (only_peer-without_peer peer turn.peeraddr (t.rows w'.db) f.other)
          ∙ (ap (only_peer peer) k.others
              ∙ only_peer-without_peer peer turn.peeraddr (t.rows w.db) f.other))

  -- Whatever other clients send, in whatever order their lines are handled, the rows of a peer that
  -- sends nothing meanwhile are as before, if the lines and the addresses of the others hold no quote.
  pub turns-foreign :
      (fuel : ℕ) (ts : List Turn) (w : World q)
      → All (IsForeign peer) ts
      → Holds
          (λ w'. only_peer peer (t.rows w'.db) ≡ only_peer peer (t.rows w.db))
          (turns q fuel ts w)
  unfolding turns
  turns-foreign fuel [] w f = refl
  turns-foreign fuel (turn ∷ ts) w f =
      Holds-bind (SameRows w) (SameRows w)
        (handle q fuel turn.peeraddr (command_of turn.line) turn.line w) _
        (turn-SameRows fuel turn w f.0)
        (λ w1 e.
          Holds-weaken (SameRows w1) (SameRows w) (turns q fuel ts w1)
            (turns-foreign fuel ts w1 f.1) (λ w2 e'. e' ∙ e))
