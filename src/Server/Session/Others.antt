-- ===== src/Server/Session/Others.antt =====
-- The answers and statements of a session, and the rows of the other clients.
use s.Prelude.{ℕ, zero, suc, ◌≡◌, ◌∙◌, refl, ap, inl, inr, List, arith, ◌==◌, ==_iff, Bool-cases}
use s.Clib.{Text}
use s.Clib.Strings.{Avoids}
use s.Outcome.{Result, ok, err, Holds, Holds-if, Holds-sprintf}
use s.Server.Sqlite.{Sqlite, run, sqlite_done, sqlite_error, sqlite_constraint}
use s.Server.Queries.{insert_query, delete_query}
use s.Server.Replies.{add_failed}
use s.Server.Session.{World, send_msg, add_answer, send_rows}
use s.Server.Session.Table.{
  FilesTable, without_peer, without_peer-append_own, without_peer-without_file,
}

module _ (q : Sqlite) (t : FilesTable q) (peer : Text) where
  -- The rows of the other peers, the count and the socket are as before.
  pub record KeepsOthers (w w' : World q) : Type 0 where
    pub others : without_peer peer (t.rows w'.db) ≡ without_peer peer (t.rows w.db)
    pub count : w'.c_count ≡ w.c_count
    pub socket : w'.closed ≡ w.closed

  pub KeepsOthers-refl : (w : World q) → KeepsOthers w w
  KeepsOthers-refl w = record { others = refl; count = refl; socket = refl }

  pub KeepsOthers-trans : {u v w : World q} → KeepsOthers u v → KeepsOthers v w → KeepsOthers u w
  KeepsOthers-trans a b = record {
    others = b.others ∙ a.others;
    count = b.count ∙ a.count;
    socket = b.socket ∙ a.socket;
  }

  pub Holds-trans :
      {u v : World q} (m : Result (World q))
      → KeepsOthers u v
      → Holds (KeepsOthers v) m
      → Holds (KeepsOthers u) m
  Holds-trans (ok w) k h = KeepsOthers-trans k h
  Holds-trans (err e) k h = tt

  -- Only the messages differ, behind a database with the same rows of others.
  pub sent_KeepsOthers :
      (w : World q) (db : q.Db) (sent : List Text)
      → without_peer peer (t.rows db) ≡ without_peer peer (t.rows w.db)
      → KeepsOthers w (record w { db = db; sent = sent })
  sent_KeepsOthers w db sent e = record { others = e; count = refl; socket = refl }

  pub add_answer-KeepsOthers :
      (status : ℕ) (w : World q) → Holds (KeepsOthers w) (add_answer q status w)
  unfolding add_answer
  add_answer-KeepsOthers status w =
      Holds-if _ (status == sqlite_done) _ _ (λ e. sent_KeepsOthers w w.db _ refl)
        λ e.
          Holds-if _ (status == sqlite_constraint) _ _ (λ e'. sent_KeepsOthers w w.db _ refl)
            λ e'.
              Holds-sprintf _ 512 (add_failed (q.errmsg w.db)) _ (sent_KeepsOthers w w.db _ refl)

  pub send_rows-KeepsOthers :
      (fuel : ℕ) (line : q.Stmt → Text) (failure : Text) (stmt : q.Stmt) (u w : World q)
      → t.IsSelect stmt
      → KeepsOthers u w
      → Holds (KeepsOthers u) (send_rows q fuel line failure stmt w)
  unfolding send_rows
  send_rows-KeepsOthers zero line failure stmt u w sel k = tt
  send_rows-KeepsOthers (suc fuel) line failure stmt u w sel k =
      let stepped = q.step w.db stmt in
      let kept = t.select_step w.db stmt sel in
      let same = ap (without_peer peer) kept.0 in
      let after =
        λ (sent : List Text). KeepsOthers-trans k (sent_KeepsOthers w stepped.0 sent same) in
      Holds-if _ (stepped.2 == sqlite_done) _ _ (λ e. after w.sent)
        λ e.
          Holds-if _ (stepped.2 == sqlite_error) _ _
            (λ e'. send_rows-KeepsOthers fuel line failure stepped.1 u _ kept.1 (after _))
            λ e'.
              Holds-sprintf _ 512 (line stepped.1) _
                (send_rows-KeepsOthers fuel line failure stepped.1 u _ kept.1 (after _))

  -- Sending one more line changes no row.
  pub then_send :
      (u : World q) (m : Text) (v : World q) → KeepsOthers u v → KeepsOthers u (send_msg m v)
  then_send u m v k = KeepsOthers-trans k (unfold send_msg in sent_KeepsOthers v v.db _ refl)

module _ (q : Sqlite) (t : FilesTable q) (peer : Text) (plain : Avoids 39 peer) where
  pub insert_others :
      (db : q.Db) (name hash : Text) (n : ℕ)
      → Avoids 39 name
      → Avoids 39 hash
      → without_peer peer (t.rows (run q db (insert_query name hash n peer)).0)
        ≡ without_peer peer (t.rows db)
  insert_others db name hash n hn hh =
      elim (Bool-cases ((run q db (insert_query name hash n peer)).2 == sqlite_done)) [
        | inl e ↦
            rw (t.insert_done db name hash n peer hn hh plain ((==_iff _ _).0 e))
              (without_peer-append_own peer (t.rows db) _ refl)
        | inr e ↦
            ap (without_peer peer)
              (t.insert_failed db name hash n peer hn hh plain (λ d. ground arith))
      ]

  pub delete_others :
      (db : q.Db) (name hash : Text)
      → Avoids 39 name
      → Avoids 39 hash
      → without_peer peer (t.rows (run q db (delete_query name hash peer)).0)
        ≡ without_peer peer (t.rows db)
  delete_others db name hash hn hh =
      elim (Bool-cases ((run q db (delete_query name hash peer)).2 == sqlite_done)) [
        | inl e ↦
            rw (t.delete_done db name hash peer hn hh plain ((==_iff _ _).0 e))
              (without_peer-without_file name hash peer (t.rows db))
        | inr e ↦
            ap (without_peer peer)
              (t.delete_failed db name hash peer hn hh plain (λ d. ground arith))
      ]
