-- ===== src/Server/Index.antt =====
-- What the server promises to its clients: an index of files, in which the order of the rows does
-- not count, and the three ways in which clients change it.
pub mod Asking
pub mod Refinement
pub mod Order
pub mod History
pub mod Sizes
pub mod Projection
use s.Prelude.{
  ℕ, ◌+◌, ◌≡◌, ◌≢◌, ◌∙◌, refl, sym, ap, Bool, true, false, ◌&&◌, inl, inr, Option, none, some, List,
  [], ◌∷◌, ◌++◌, arith, ◌==◌, Bool-cases, if◌then◌else◌,
}
use mathlib.Core.Quot
use mathlib.Core.Quot.{Quot, Quot-set}
use s.Clib.{Text, text_eq}
use s.Clib.Strings.{text_eq_sound, text_eq_comm}
use s.Server.Session.Table.{Row, without_file, without_peer}

abbrev pub same_row : Row → Row → Bool
same_row x y =
    text_eq x.filename y.filename
    && (text_eq x.filehash y.filehash && (x.f_size == y.f_size && text_eq x.peeraddr y.peeraddr))

abbrev pub count : Row → List Row → ℕ
count r [] = 0
count r (x ∷ rows) = (if same_row x r then 1 else 0) + count r rows

-- Two tables list the same files, as often.
abbrev pub SameRows : List Row → List Row → Type 0
SameRows xs ys = (r : Row) → count r xs ≡ count r ys

abbrev pub Index : Type 0
Index = Quot SameRows

abbrev pub index_of : List Row → Index
index_of rows = Quot.mk rows

-- A client publishes a file, withdraws one, or retires with all its files.
pub data Op : Type 0 where
  publish : Row → Op
  withdraw : Text → Text → Text → Op
  retire : Text → Op

abbrev pub owner : Op → Text
owner (publish r) = r.peeraddr
owner (withdraw name hash peer) = peer
owner (retire peer) = peer

abbrev pub changed : Op → List Row → List Row
changed (publish r) rows = rows ++ r ∷ []
changed (withdraw name hash peer) rows = without_file name hash peer rows
changed (retire peer) rows = without_peer peer rows

-- How often a row is listed after a change.
abbrev pub effect : Op → Row → ℕ → ℕ
effect (publish x) r n = n + (if same_row x r then 1 else 0)
effect (withdraw name hash peer) r n =
    if text_eq r.filename name && (text_eq r.filehash hash && text_eq r.peeraddr peer) then 0 else n
effect (retire peer) r n = if text_eq r.peeraddr peer then 0 else n

count-append :
    (r x : Row) (rows : List Row)
    → count r (rows ++ x ∷ []) ≡ count r rows + (if same_row x r then 1 else 0)
count-append r x [] = omega arith
count-append r x (y ∷ rows) = omega (arith, count-append r x rows)

same_row_sound :
    (x y : Row)
    → same_row x y ≡ true
    → (x.filename ≡ y.filename) × (x.filehash ≡ y.filehash) × (x.peeraddr ≡ y.peeraddr)
same_row_sound x y e = (
  text_eq_sound x.filename y.filename (ground (arith, e)),
  text_eq_sound x.filehash y.filehash (ground (arith, e)),
  text_eq_sound x.peeraddr y.peeraddr (ground (arith, e)),
)

count-without_peer :
    (r : Row) (peer : Text) (rows : List Row)
    → count r (without_peer peer rows) ≡ effect (retire peer) r (count r rows)
unfolding without_peer
count-without_peer r peer [] = ground arith
count-without_peer r peer (x ∷ rows) = elim (Bool-cases (same_row x r)) [
  | inl e ↦
      let same = same_row_sound x r e in
      rw (e, same.2) (ground (arith, count-without_peer r peer rows, e))
  | inr e ↦ ground (arith, count-without_peer r peer rows, e)
]

count-without_file :
    (r : Row) (name hash peer : Text) (rows : List Row)
    → count r (without_file name hash peer rows) ≡ effect (withdraw name hash peer) r (count r rows)
unfolding without_file
count-without_file r name hash peer [] = ground arith
count-without_file r name hash peer (x ∷ rows) = elim (Bool-cases (same_row x r)) [
  | inl e ↦
      let same = same_row_sound x r e in
      rw (e, same.0, same.1, same.2) (ground (arith, count-without_file r name hash peer rows, e))
  | inr e ↦ ground (arith, count-without_file r name hash peer rows, e)
]

pub count-changed :
    (op : Op) (r : Row) (rows : List Row) → count r (changed op rows) ≡ effect op r (count r rows)
count-changed (publish x) r rows = count-append r x rows
count-changed (withdraw name hash peer) r rows = count-without_file r name hash peer rows
count-changed (retire peer) r rows = count-without_peer r peer rows

pub apply : Op → Index → Index
apply op =
    Quot.lift Quot-set (λ rows. Quot.mk (changed op rows))
      (λ xs ys h.
        Quot.sound
          (λ r. count-changed op r xs ∙ ap (effect op r) (h r) ∙ sym (count-changed op r ys)))

apply-index_of : (op : Op) (rows : List Row) → apply op (index_of rows) ≡ index_of (changed op rows)
unfolding apply
apply-index_of op rows = refl

-- What is asked for, if anything.
abbrev pub changed_by : Option Op → List Row → List Row
changed_by none rows = rows
changed_by (some op) rows = changed op rows

abbrev pub apply_asked : Option Op → Index → Index
apply_asked none index = index
apply_asked (some op) index = apply op index

pub apply_asked-index_of :
    (o : Option Op) (rows : List Row) → apply_asked o (index_of rows) ≡ index_of (changed_by o rows)
apply_asked-index_of none rows = refl
apply_asked-index_of (some op) rows = apply-index_of op rows

pub effect-foreign :
    (op : Op) (r : Row) (n : ℕ) → text_eq r.peeraddr (owner op) ≡ false → effect op r n ≡ n
effect-foreign (publish x) r n e = ground (arith, e, text_eq_comm x.peeraddr r.peeraddr)
effect-foreign (withdraw name hash peer) r n e = ground (arith, e)
effect-foreign (retire peer) r n e = ground (arith, e)

effect_comm :
    (a b : Op) (r : Row) (n : ℕ)
    → owner a ≢ owner b
    → effect a r (effect b r n) ≡ effect b r (effect a r n)
effect_comm a b r n differ = elim (Bool-cases (text_eq r.peeraddr (owner a))) [
  | inl e ↦
      let foreign = λ (m : ℕ). effect-foreign b r m (not_both e) in
      ap (effect a r) (foreign n) ∙ sym (foreign (effect a r n))
  | inr e ↦ effect-foreign a r (effect b r n) e ∙ ap (effect b r) (sym (effect-foreign a r n e))
]
  where
    not_both : text_eq r.peeraddr (owner a) ≡ true → text_eq r.peeraddr (owner b) ≡ false
    not_both e = elim (Bool-cases (text_eq r.peeraddr (owner b))) [
      | inl f ↦ absurd (
          differ
            (sym (text_eq_sound r.peeraddr (owner a) e) ∙ text_eq_sound r.peeraddr (owner b) f))
      | inr f ↦ f
    ]

-- What two clients with different addresses do to the index comes to the same in either order.
pub apply_comm :
    (a b : Op)
    → owner a ≢ owner b
    → (index : Index) → apply a (apply b index) ≡ apply b (apply a index)
unfolding apply
apply_comm a b differ =
    Quot.ind (λ i. Quot-set _ _)
      (λ rows. Quot.sound (λ r.
        count-changed a r (changed b rows)
        ∙ ap (effect a r) (count-changed b r rows)
        ∙ effect_comm a b r (count r rows) differ
        ∙ sym (count-changed b r (changed a rows) ∙ ap (effect b r) (count-changed a r rows))))
