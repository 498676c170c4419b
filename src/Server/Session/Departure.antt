-- ===== src/Server/Session/Departure.antt =====
-- What a whole session leaves behind when its client sends no quote.
use s.Prelude.{
  ◌||◌, ℕ, ◌≡◌, ◌∙◌, refl, ap, Bool, true, false, inl, inr, List, [], ◌∷◌, ◌++◌, All, arith, ◌==◌,
  ==_iff, Bool-cases, if◌then◌else◌,
}
use s.Prelude.Int.{negsuc, ◌+ℤ◌}
use s.Clib.{Text, codes, text_eq}
use s.Clib.Strings.{Avoids}
use s.Outcome.{ok, Holds, Holds-bind, Holds-if, Holds-sprintf, Holds-of_eq}
use s.Server.Messages.{Received, read_line}
use s.Server.Sqlite.{Sqlite, run, sqlite_done}
use s.Server.Queries.{leave_query}
use s.Server.Commands.{command_of}
use s.Server.Replies.{goodbye_line}
use s.Server.Session.{
  World, send_msg, client_count, buffer_after, Progress, passed, waiting, greet, handshake, serve,
  Outcome, ended, still_waiting, leave_answer, leave, leave_after, serve_after, p2p,
}
use s.Server.Session.Table.{FilesTable, without_peer, without_peer_twice}
use s.Server.Session.Words.{NeverReceives, read_line-Avoids}
use s.Server.Session.Others.{KeepsOthers, KeepsOthers-refl, KeepsOthers-trans}
use s.Server.Session.Isolation.{handle-KeepsOthers}

module _ (q : Sqlite) (t : FilesTable q) (peer : Text) where
  -- A loop of the session got from `u` to here.
  abbrev pub Reached : World q → Progress q → Type 0
  Reached u (passed rs buffer w) = All (NeverReceives 39) rs × KeepsOthers q t peer u w
  Reached u (waiting w) = KeepsOthers q t peer u w

  -- How a session that began in `u` may stand. When p2p returned 0, the table is the one of the
  -- beginning less the rows of this peer, one client is counted off and the socket is closed.
  -- When it returned -1, the rows of the others are as at the beginning.
  abbrev pub Left : World q → Outcome q → Type 0
  Left u (ended w true) =
      (t.rows w.db ≡ without_peer peer (t.rows u.db))
      × (w.c_count ≡ u.c_count +ℤ negsuc 0)
      × (w.closed ≡ true)
  Left u (ended w false) =
      (without_peer peer (t.rows w.db) ≡ without_peer peer (t.rows u.db))
      × (w.c_count ≡ u.c_count +ℤ negsuc 0)
      × (w.closed ≡ u.closed)
  Left u (still_waiting w) = KeepsOthers q t peer u w

  handshake-Reached :
      (rs : List Received) (buffer : Text) (u w : World q)
      → All (NeverReceives 39) rs
      → KeepsOthers q t peer u w
      → Holds (Reached u) (handshake q rs buffer w)
  unfolding handshake
  handshake-Reached [] buffer u w h k =
      Holds-if (Reached u) (text_eq buffer (codes "CONNECT") || text_eq buffer (codes "QUIT"))
        (ok (passed [] buffer w)) (ok (waiting w)) (λ e. (tt, k)) (λ e. k)
  handshake-Reached (r ∷ rs) buffer u w h k =
      Holds-if (Reached u) (text_eq buffer (codes "CONNECT") || text_eq buffer (codes "QUIT"))
        (ok (passed (r ∷ rs) buffer w)) _ (λ e. (h, k))
        λ e.
          Holds-bind (Avoids 39) (Reached u) (read_line r) _
            (Holds-of_eq (Avoids 39) (read_line r) (λ line. read_line-Avoids 39 r line h.0))
            λ line plain_line. handshake-Reached rs line u (greet q line w) h.1 (greeted line)
    where
      greeted : (line : Text) → KeepsOthers q t peer u (greet q line w)
      greeted line = unfold greet in ground (arith, k)

module _ (q : Sqlite) (t : FilesTable q) (peer : Text) (plain : Avoids 39 peer) where
  serve-Reached :
      (fuel : ℕ) (rs : List Received) (buffer : Text) (u w : World q)
      → All (NeverReceives 39) rs
      → KeepsOthers q t peer u w
      → Holds (Reached q t peer u) (serve q fuel peer rs buffer w)
  unfolding serve
  serve-Reached fuel [] buffer u w h k =
      Holds-if (Reached q t peer u) (text_eq buffer (codes "QUIT")) (ok (passed [] buffer w))
        (ok (waiting w)) (λ e. (tt, k)) (λ e. k)
  serve-Reached fuel (r ∷ rs) buffer u w h k =
      Holds-if (Reached q t peer u) (text_eq buffer (codes "QUIT")) (ok (passed (r ∷ rs) buffer w))
        _ (λ e. (h, k))
        λ e.
          Holds-bind (Avoids 39) (Reached q t peer u) (read_line r) _
            (Holds-of_eq (Avoids 39) (read_line r) (λ line. read_line-Avoids 39 r line h.0))
            λ line plain_line.
              Holds-bind (KeepsOthers q t peer w) (Reached q t peer u) _ _
                (handle-KeepsOthers q t peer plain fuel line w plain_line)
                λ v kept.
                  serve-Reached fuel rs (buffer_after q (command_of line) line) u v h.1
                    (KeepsOthers-trans q t peer k kept)

  pub leave-Left :
      (closes : Bool) (u w : World q)
      → KeepsOthers q t peer u w
      → Holds (Left q t peer u) (leave q peer closes w)
  unfolding leave client_count send_msg leave_answer
  leave-Left closes u w k =
      let query = leave_query peer in
      Holds-sprintf _ 256 query _ (elim (Bool-cases ((run q w.db query).2 == sqlite_done)) [
        | inl done ↦
            let gone = t.leave_done w.db peer plain ((==_iff _ _).0 done) in
            rw done (
              by_socket closes
                (record w { db = (run q w.db query).0; sent = w.sent ++ goodbye_line ∷ [] })
                (gone ∙ k.others)
                (ap (without_peer peer) gone ∙ without_peer_twice peer (t.rows w.db) ∙ k.others))
        | inr fails ↦ rw fails (
          ap (without_peer peer) (t.leave_failed w.db peer plain (λ d. ground arith)) ∙ k.others,
          ap (λ c. c +ℤ negsuc 0) k.count,
          k.socket,
        )
      ])
    where
      by_socket :
          (b : Bool) (v : World q)
          → t.rows v.db ≡ without_peer peer (t.rows u.db)
          → without_peer peer (t.rows v.db) ≡ without_peer peer (t.rows u.db)
          → Left q t peer u (
              if b
              then ended (record v { c_count = w.c_count +ℤ negsuc 0; closed = true }) true
              else ended (record v { c_count = w.c_count +ℤ negsuc 0; closed = w.closed }) false)
      by_socket true v e e' = (e, ap (λ c. c +ℤ negsuc 0) k.count, refl)
      by_socket false v e e' = (e', ap (λ c. c +ℤ negsuc 0) k.count, k.socket)

  -- For a client whose bytes and address hold no quote: if p2p returns 0, the table holds what
  -- it held before, less the rows with the client's address, the client is counted off and its
  -- socket closed. If p2p returns -1, the client is counted off and the rows of the other peers
  -- are as before, as they are while it still waits.
  pub p2p-Left :
      (fuel : ℕ) (closes : Bool) (rs : List Received) (buffer : Text) (w : World q)
      → All (NeverReceives 39) rs
      → Holds (Left q t peer w) (p2p q fuel peer closes rs buffer w)
  unfolding p2p
  p2p-Left fuel closes rs buffer w h =
      Holds-bind (Reached q t peer w) (Left q t peer w) _ _
        (handshake-Reached q t peer rs buffer w w h (KeepsOthers-refl q t peer w))
        λ greeted reached.
          Holds-bind (Reached q t peer w) (Left q t peer w) _ _ (served greeted reached) left
    where
      served :
          (p : Progress q)
          → Reached q t peer w p
          → Holds (Reached q t peer w) (serve_after q fuel peer p)
      served (passed rest buffer' v) r =
          unfold serve_after in serve-Reached fuel rest buffer' w v r.0 r.1
      served (waiting v) r = unfold serve_after in r

      left :
          (p : Progress q)
          → Reached q t peer w p
          → Holds (Left q t peer w) (leave_after q peer closes p)
      left (passed rest buffer' v) r = unfold leave_after in leave-Left closes w v r.1
      left (waiting v) r = unfold leave_after in r
