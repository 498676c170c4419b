-- ===== src/Server/System/Ownership/Leaving.antt =====
-- A session that ends, and the owners of the rows.
use s.Prelude.{
  ℕ, ◌≡◌, ◌∙◌, sym, subst, Bool, true, false, ◌||◌, some, List, [], ◌∷◌, ◌++◌, get_elem?, All,
  All-weaken, All-get, arith,
}
use s.Clib.{Text, text_eq}
use s.Clib.Strings.{text_eq_iff, text_eq_comm}
use s.Outcome.{Holds, Holds-bind}
use s.Server.Sqlite.{Sqlite}
use s.Server.Session.{Outcome, ended, still_waiting}
use s.Server.Session.Table.{FilesTable, without_peer}
use s.Server.Session.Others.{KeepsOthers-refl}
use s.Server.Session.Departure.{Left, leave-Left}
use s.Server.Session.Stages.{Stage, greeting, serving, leaving}
use s.Server.System.{Session, System, without_session, world_of, departed, depart_from}
use s.Server.System.Known.{
  is_served, is_known, was_left, is_served-without_session, was_left-append, All-of_others,
  All-others,
}
use s.Server.System.Ownership.{OwnsRows, Owned}

module _ {q : Sqlite} (t : FilesTable q) where
  pub depart-OwnsRows :
      (i : ℕ) (stage : Stage) (x : Session) (closes : Bool) (s : System q)
      → get_elem? s.sessions i ≡ some x
      → Owned t s
      → Holds (OwnsRows t) (depart_from i stage x closes s)
  unfolding depart_from departed
  depart-OwnsRows i greeting x closes s e h = h.rows
  depart-OwnsRows i serving x closes s e h = h.rows
  depart-OwnsRows i leaving x closes s e h =
      Holds-bind (Left q t x.peeraddr (world_of s x)) (OwnsRows t) _ _
        (leave-Left q t x.peeraddr (All-get _ s.sessions i x e h.plain.sessions) closes
          (world_of s x) (world_of s x) (KeepsOthers-refl q t x.peeraddr (world_of s x)))
        after
    where
      rest : List Session
      rest = without_session i s.sessions

      -- A client with another address is known as before.
      still :
          (peer : Text) (success : Bool)
          → is_known s peer ≡ true
          → text_eq peer x.peeraddr ≡ false
          → is_served peer rest || was_left peer (s.returned ++ (x.peeraddr, success) ∷ []) ≡ true
      still peer success known other =
          let out =
            is_served-without_session peer s.sessions i x e
              (text_eq_comm x.peeraddr peer ∙ other) in
          let more = was_left-append peer s.returned x.peeraddr success in
          ground (arith, known, out, more)

      others :
          (success : Bool)
          → All
              (λ r.
                is_served r.peeraddr rest
                  || was_left r.peeraddr (s.returned ++ (x.peeraddr, success) ∷ [])
                ≡ true)
              (without_peer x.peeraddr (t.rows s.db))
      others success =
          All-weaken _ _ _ (λ r k. still r.peeraddr success k.0 k.1)
            (All-others _ x.peeraddr (t.rows s.db) h.rows)

      left_behind :
          (peer : Text)
          → peer ≡ x.peeraddr
          → is_served peer rest || was_left peer (s.returned ++ (x.peeraddr, false) ∷ []) ≡ true
      left_behind peer same =
          let more = was_left-append peer s.returned x.peeraddr false in
          let self = (text_eq_iff x.peeraddr peer).1 (sym same) in ground (arith, more, self)

      after : (o : Outcome q) → Left q t x.peeraddr (world_of s x) o → OwnsRows t (departed i x o s)
      after (ended w true) l = subst (All _) (sym l.0) (others true)
      after (ended w false) l =
          All-of_others _ x.peeraddr (t.rows w.db) (λ r own. left_behind r.peeraddr own)
            (subst (All _) (sym l.0) (others false))
      after (still_waiting w) l = h.rows
