-- ===== src/Server/System/Ownership.antt =====
-- Whose files the table lists while the server runs.
pub mod Reading
pub mod Leaving
pub mod Runs
use s.Prelude.{
  ℕ, ◌≡◌, true, ◌&&◌, inl, inr, none, some, [], ◌∷◌, ◌++◌, length, ltb, All, All-weaken, arith,
  Bool-cases,
}
use s.Clib.{Text}
use s.Clib.Strings.{Avoids}
use s.Server.Sqlite.{Sqlite}
use s.Server.System.Addresses.{Addresses}
use s.Server.Session.Table.{FilesTable}
use s.Server.Session.Words.{NeverReceives}
use s.Server.Listen.{Listener, start_job}
use s.Server.System.{Session, System, Act, connects, begins, receives, departs, begin}
use s.Server.System.Known.{is_known, is_served-append}

-- No quote arrives: in a client's address, or in what it sends.
abbrev pub PlainAct : Act → Type 0
PlainAct (connects none) = Unit
PlainAct (connects (some client)) = Avoids 39 client.ipaddr
PlainAct (begins buffer) = Unit
PlainAct (receives i r) = NeverReceives 39 r
PlainAct (departs i closes) = Unit

module _ {q : Sqlite} (t : FilesTable q) where
  -- Every row is of a client that is served, or of one whose session returned -1.
  abbrev pub OwnsRows : System q → Type 0
  OwnsRows s = All (λ r. is_known s r.peeraddr ≡ true) (t.rows s.db)

  -- And the addresses that the server keeps hold no quote.
  pub record Owned (s : System q) : Type 0 where
    pub rows : All (λ r. is_known s r.peeraddr ≡ true) (t.rows s.db)
    pub plain : Addresses (Avoids 39) s

  begun-OwnsRows :
      (x : Session) (l : Listener) (s : System q)
      → OwnsRows s
      → OwnsRows (record s { listener = l; sessions = s.sessions ++ x ∷ [] })
  begun-OwnsRows x l s h =
      All-weaken _ _ (t.rows s.db)
        (λ r known. ground (arith, known, is_served-append r.peeraddr s.sessions x)) h

  pub begin-OwnsRows :
      (n : ℕ) (buffer : Text) (s : System q) → OwnsRows s → OwnsRows (begin n buffer s)
  unfolding begin
  begin-OwnsRows n buffer s h =
      elim (Bool-cases (ltb 0 s.listener.queued && ltb (length s.sessions) n)) [
        | inl e ↦ rw e (begun-OwnsRows _ (start_job s.listener) s h)
        | inr e ↦ rw e h
      ]
