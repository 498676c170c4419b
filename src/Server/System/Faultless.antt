-- ===== src/Server/System/Faultless.antt =====
-- Acts of the running server that no fault ends.
use s.Prelude.{
  ℕ, Bool, ◌≤◌, ◌<◌, refl, inl, inr, get_elem?, All, All-get, arith, length, Option-cases, some,
  none,
}
use s.Clib.{c_string}
use s.Outcome.{Succeeds}
use s.Server.Messages.{arrived, failed}
use s.Server.Sqlite.{Sqlite}
use s.Server.Replies.{add_failed}
use s.Server.Session.Stages.{Stage, greeting, serving, leaving}
use s.Server.Session.Fitting.{Answers, read_step-Succeeds, leave-Succeeds}
use s.Server.System.Ownership.{PlainAct}
use s.Server.System.{
  Session, System, Act, connects, begins, receives, departs, world_of, receive, depart, depart_from,
  act,
}

-- recv does not fail, and brings at most 145 bytes before the first NUL.
abbrev pub ShortAct : Act → Type 0
ShortAct (connects none) = Unit
ShortAct (connects (some client)) = length client.ipaddr ≤ 15
ShortAct (begins buffer) = Unit
ShortAct (receives i failed) = ⊥
ShortAct (receives i (arrived bytes)) = length (c_string bytes) ≤ 145
ShortAct (departs i closes) = Unit

module _ {q : Sqlite} (messages : (db : q.Db) → length (add_failed (q.errmsg db)) < 512)
    (fuel : ℕ) where
  depart_from-Succeeds :
      (i : ℕ) (stage : Stage) (x : Session) (closes : Bool) (s : System q)
      → length x.peeraddr ≤ 15
      → Succeeds (depart_from i stage x closes s)
  unfolding depart_from
  depart_from-Succeeds i greeting x closes s short = (_, refl)
  depart_from-Succeeds i serving x closes s short = (_, refl)
  depart_from-Succeeds i leaving x closes s short =
      let left = leave-Succeeds q messages x.peeraddr closes (world_of s x) (omega arith) in
      rw left.1 (_, refl)

  -- In the running server no act ends in a fault: no buffer is written over, and no loop over rows
  -- goes on without an end. recv does not fail and brings at most 145 bytes before the first NUL,
  -- the addresses of the clients that are served have at most 15, SQLite's error messages fit the
  -- answer, and its statements for LIST and REQUEST come to an end within the
  -- steps allowed, by lines that fit the buffer.
  pub act-Succeeds :
      (n : ℕ) (a : Act) (s : System q)
      → ShortAct a
      → All (λ x. length x.peeraddr ≤ 15) s.sessions
      → PlainAct a
      → Answers q fuel s.db
      → Succeeds (act n fuel a s)
  unfolding act receive depart
  act-Succeeds n (connects client) s short addresses plain answers = (_, refl)
  act-Succeeds n (begins buffer) s short addresses plain answers = (_, refl)
  act-Succeeds n (receives i failed) s short addresses plain answers = absurd short
  act-Succeeds n (receives i (arrived bytes)) s short addresses plain answers =
      elim (Option-cases (get_elem? s.sessions i)) [
        | inl e ↦ rw e (_, refl)
        | inr (x, e) ↦
            let known = All-get _ s.sessions i x e addresses in
            let next =
              read_step-Succeeds q messages x.peeraddr fuel x.stage bytes (world_of s x)
                (omega arith) plain answers in
            rw e (rw next.1 (_, refl))
      ]
  act-Succeeds n (departs i closes) s short addresses plain answers =
      elim (Option-cases (get_elem? s.sessions i)) [
        | inl e ↦ rw e (_, refl)
        | inr (x, e) ↦
            rw e (depart_from-Succeeds i x.stage x closes s (All-get _ s.sessions i x e addresses))
      ]
