-- ===== src/Server/System/Ownership/Reading.antt =====
-- A session that receives, and the owners of the rows.
use s.Prelude.{
  ℕ, ◌≡◌, ◌∙◌, refl, sym, ap, subst, true, ◌||◌, some, get_elem?, set, All, All-weaken, All-get,
  arith,
}
use s.Clib.{Text}
use s.Clib.Strings.{Avoids}
use s.Outcome.{Holds, Holds-bind, Holds-then, Holds-of_eq}
use s.Server.Messages.{Received, read_line}
use s.Server.Sqlite.{Sqlite}
use s.Server.Session.{World, greet, send_msg}
use s.Server.Session.Table.{FilesTable, without_peer}
use s.Server.Session.Words.{NeverReceives, read_line-Avoids}
use s.Server.Session.Others.{KeepsOthers}
use s.Server.Session.Isolation.{handle-KeepsOthers}
use s.Server.Session.Stages.{Stage, greeting, serving, leaving, read_step}
use s.Server.System.{Session, System, world_of, shared, receive}
use s.Server.System.Known.{
  is_served, is_known, was_left, is_served-set, is_served-get, All-of_others, All-others,
}
use s.Server.System.Ownership.{OwnsRows, Owned}

module _ {q : Sqlite} (t : FilesTable q) where
  read_step-others :
      (fuel : ℕ) (peer : Text) (stage : Stage) (r : Received) (w : World q)
      → Avoids 39 peer
      → NeverReceives 39 r
      → Holds
          (λ next. without_peer peer (t.rows next.1.db) ≡ without_peer peer (t.rows w.db))
          (read_step q fuel peer stage r w)
  unfolding read_step
  read_step-others fuel peer greeting r w plain h =
      Holds-then _ (read_line r) _ (λ line. unfold greet send_msg in ground arith)
  read_step-others fuel peer serving r w plain h =
      Holds-bind (Avoids 39) _ (read_line r) _
        (Holds-of_eq (Avoids 39) (read_line r) (λ line. read_line-Avoids 39 r line h))
        (λ line plain_line.
          Holds-bind (KeepsOthers q t peer w) _ _ _
            (handle-KeepsOthers q t peer plain fuel line w plain_line) (λ w' k. k.others))
  read_step-others fuel peer leaving r w plain h = refl

  pub receive-OwnsRows :
      (fuel i : ℕ) (x : Session) (r : Received) (s : System q)
      → get_elem? s.sessions i ≡ some x
      → NeverReceives 39 r
      → Owned t s
      → Holds (OwnsRows t) (receive fuel i (some x) r s)
  unfolding receive
  receive-OwnsRows fuel i x r s e plain h =
      Holds-bind {A = Stage × World q} _ (OwnsRows t) _ _
        (read_step-others fuel x.peeraddr x.stage r (world_of s x) plain_address plain) after
    where
      plain_address : Avoids 39 x.peeraddr
      plain_address = All-get _ s.sessions i x e h.plain.sessions

      still :
          (y : Session)
          → y.peeraddr ≡ x.peeraddr
          → (peer : Text) → is_known s peer ≡ true
          → is_served peer (set s.sessions i y) || was_left peer s.returned ≡ true
      still y same peer known =
          ap (λ b. b || was_left peer s.returned) (is_served-set peer s.sessions i x y e same)
          ∙ known

      served : (peer : Text) → peer ≡ x.peeraddr → is_known s peer ≡ true
      served peer same =
          subst (λ a. is_known s a ≡ true) (sym same)
            (ap (λ b. b || was_left x.peeraddr s.returned) (is_served-get s.sessions i x e))

      after :
          (next : Stage × World q)
          → without_peer x.peeraddr (t.rows next.1.db) ≡ without_peer x.peeraddr (t.rows s.db)
          → OwnsRows t (
              let s' = shared next.1 s in
              record s' {
                sessions = set s.sessions i (record x { stage = next.0; sent = next.1.sent });
              })
      after next kept =
          let y : Session = record x { stage = next.0; sent = next.1.sent } in
          All-of_others _ x.peeraddr (t.rows next.1.db)
            (λ r' own. still y refl r'.peeraddr (served r'.peeraddr own))
            (subst (All _) (sym kept) (
              All-weaken _ _ _ (λ r' k. still y refl r'.peeraddr k.0)
                (All-others _ x.peeraddr (t.rows s.db) h.rows)))
