-- ===== src/Peer/Menu/Protocol.antt =====
-- The order in which the menu calls the client: connected by 1, and let go by 6 or 7.
use s.Prelude.{
  ℕ, ◌≡◌, ◌∙◌, refl, sym, ap, subst, Bool, true, false, Option, none, some, List, [], ◌∷◌, ◌++◌,
  length, ltb, ◌==◌, arith, if◌then◌else◌, Bool-cases, inl, inr,
}
use s.Clib.{Text}
use s.Outcome.{ok, Holds, Holds-if, Holds-bind, Holds-eq-ok, ◌>>=◌}
use s.Peer.Menu.{
  Call, connect, list, quit, add, delete, get, Menu, start, called, read_path, with_path, choose,
  typed, menu,
}

-- What a call is allowed to follow: CONNECT when not connected, all else when connected.
abbrev pub after_call : Bool → Call → Option Bool
after_call false connect = some true
after_call true list = some true
after_call true quit = some false
after_call true (add path) = some true
after_call true (delete path) = some true
after_call true (get path) = some true
after_call _ _ = none

abbrev pub follow : Option Bool → List Call → Option Bool
follow none cs = none
follow (some b) [] = some b
follow (some b) (c ∷ cs) = follow (after_call b c) cs

follow-nil : (o : Option Bool) → follow o [] ≡ o
follow-nil none = refl
follow-nil (some b) = refl

follow-last :
    (o : Option Bool) (cs : List Call) (c : Call) (l : Bool)
    → follow o cs ≡ some l
    → follow o (cs ++ c ∷ []) ≡ after_call l c
follow-last none cs c l h = absurd (grind (arith, h))
follow-last (some b) [] c l h =
    follow-nil (after_call b c) ∙ ap (λ k. after_call k c) (grind (arith, h))
follow-last (some b) (d ∷ cs) c l h = follow-last (after_call b d) cs c l h

-- The calls so far keep the order and leave the connection as `logged` says; the menu is left only
-- when not connected.
record InOrder (m : Menu) : Type 0 where
  kept : follow (some false) m.calls ≡ some m.logged
  left : m.flag ≡ false → m.logged ≡ false

called-InOrder :
    (c : Call) (m : Menu) (l f : Bool)
    → InOrder m
    → after_call m.logged c ≡ some l
    → (f ≡ false → l ≡ false)
    → InOrder (record (called c m) { logged = l; flag = f })
called-InOrder c m l f h e k =
    unfold called in
    record { kept = follow-last (some false) m.calls c m.logged h.kept ∙ e; left = k }

with_path-InOrder :
    (word : Text) (c : Text → Call) (m : Menu)
    → InOrder m
    → ((w : Text) → after_call true (c w) ≡ some true)
    → Holds InOrder (with_path word c m)
with_path-InOrder word c m h e =
    unfold with_path read_path in
    Holds-if InOrder m.logged _ _
      (λ l.
        Holds-if InOrder (ltb (length word) 1024) _ _
          (λ b.
            called-InOrder (c word) m m.logged m.flag h
              (ap (λ k. after_call k (c word)) l ∙ (e word ∙ ap (λ k. some k) (sym l))) h.left)
          (λ b. tt))
      (λ l. h)

InOrder-if :
    (b : Bool) (m n : Menu)
    → (b ≡ true → InOrder m)
    → (b ≡ false → InOrder n)
    → InOrder (if b then m else n)
InOrder-if true m n h k = h refl
InOrder-if false m n h k = k refl

logged_call :
    (c : Call) (m : Menu) (b l : Bool)
    → m.logged ≡ b
    → after_call b c ≡ some l
    → after_call m.logged c ≡ some l
logged_call c m b l e h = ap (λ k. after_call k c) e ∙ h

choose-InOrder :
    (op : ℕ) (word : Text) (m : Menu) → m.flag ≡ true → InOrder m → Holds InOrder (choose op word m)
choose-InOrder op word m f h =
    unfold choose called in
    Holds-if InOrder (op == 1) _ _
      (λ e.
        InOrder-if m.logged _ _ (λ l. h)
          (λ l.
            called-InOrder connect m true m.flag h (logged_call connect m false true l refl)
              (λ k. absurd (ground (arith, f, k)))))
      (λ e.
        Holds-if InOrder (op == 2) _ _ (λ e. with_path-InOrder word add m h (λ w. refl))
          (λ e.
            Holds-if InOrder (op == 3) _ _ (λ e. with_path-InOrder word delete m h (λ w. refl))
              (λ e.
                Holds-if InOrder (op == 4) _ _
                  (λ e.
                    InOrder-if m.logged _ _
                      (λ l.
                        called-InOrder list m m.logged m.flag h
                          (logged_call list m true m.logged l (ap (λ k. some k) (sym l))) h.left)
                      (λ l. h))
                  (λ e.
                    Holds-if InOrder (op == 5) _ _ (λ e. with_path-InOrder word get m h (λ w. refl))
                      (λ e.
                        Holds-if InOrder (op == 6) _ _
                          (λ e.
                            InOrder-if m.logged _ _
                              (λ l.
                                called-InOrder quit m false true h
                                  (logged_call quit m true false l refl) (λ k. refl))
                              (λ l. h))
                          (λ e.
                            Holds-if InOrder (op == 7) _ _
                              (λ e.
                                InOrder-if m.logged _ _
                                  (λ l.
                                    called-InOrder quit m false false h
                                      (logged_call quit m true false l refl) (λ k. refl))
                                  (λ l. record { kept = h.kept; left = λ k. l }))
                              (λ e. h)))))))

typed-InOrder :
    (op : Option ℕ) (word : Text) (m : Menu)
    → m.flag ≡ true
    → InOrder m
    → Holds InOrder (typed op word m)
typed-InOrder none word m f h = unfold typed in record { kept = h.kept; left = h.left }
typed-InOrder (some op) word m f h =
    unfold typed in Holds-if InOrder m.good _ _ (λ e. choose-InOrder op word m f h) (λ e. h)

menu-InOrder :
    (inputs : List (Option ℕ × Text)) (m : Menu) → InOrder m → Holds InOrder (menu inputs m)
unfolding menu
menu-InOrder [] m h = h
menu-InOrder ((op, word) ∷ inputs) m h =
    Holds-if InOrder m.flag _ _
      (λ f.
        Holds-bind InOrder InOrder (typed op word m) _ (typed-InOrder op word m f h)
          (λ m' h'. menu-InOrder inputs m' h'))
      (λ f. h)

-- Whatever the user types, the menu connects before any other call, connects again only after it
-- has quit, calls nothing in between, and when it is left, the peer has quit if it was connected.
pub menu-follow :
    (inputs : List (Option ℕ × Text)) (m : Menu)
    → menu inputs start ≡ ok m
    → (follow (some false) m.calls ≡ some m.logged)
      × (m.flag ≡ false → follow (some false) m.calls ≡ some false)
menu-follow inputs m e =
    let h =
      Holds-eq-ok InOrder (menu inputs start) m
        (menu-InOrder inputs start (record { kept = refl; left = λ k. refl })) e in
    (h.kept, λ f. h.kept ∙ ap (λ k. some k) (h.left f))

abbrev unreadable : Menu → Menu
unreadable m = record m { good = false }

typed-unreadable :
    (op : Option ℕ) (word : Text) (m : Menu) → typed op word (unreadable m) ≡ ok (unreadable m)
unfolding typed
typed-unreadable none word m = refl
typed-unreadable (some op) word m = refl

menu-unreadable :
    (inputs : List (Option ℕ × Text)) (m : Menu) → menu inputs (unreadable m) ≡ ok (unreadable m)
unfolding menu
menu-unreadable [] m = refl
menu-unreadable ((op, word) ∷ inputs) m =
    let next : (do m' ← typed op word (unreadable m); menu inputs m') ≡ ok (unreadable m) =
      ap (λ r. r >>= menu inputs) (typed-unreadable op word m) ∙ menu-unreadable inputs m in
    elim (Bool-cases m.flag) [ inl e ↦ rw e (rw e at next) | inr e ↦ rw e refl ]

-- Once the user has typed what is no number, in a menu that was not left, every later input
-- fails too: nothing is called any more and the menu is never left.
pub menu-no_number :
    (word : Text) (inputs : List (Option ℕ × Text)) (m : Menu)
    → m.flag ≡ true
    → menu ((none, word) ∷ inputs) m ≡ ok (record m { good = false })
menu-no_number word inputs m f =
    unfold menu in
    subst (λ b. (if b then (typed none word m >>= menu inputs) else ok m) ≡ ok (unreadable m))
      (sym f) (unfold typed in menu-unreadable inputs m)
