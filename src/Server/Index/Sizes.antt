-- ===== src/Server/Index/Sizes.antt =====
-- How long the rows of the index are, and how many.
use s.Prelude.{
  suc, ◌+◌, ◌≤◌, Option, none, some, List, [], ◌∷◌, length, length-append, All, All-append,
  Option-cases, inl, inr, arith,
}
use s.Clib.{Text, c_string, decimal}
use s.Server.Messages.{arrived, kept_bytes}
use s.Server.Messages.Reading.{length-kept_bytes}
use s.Server.Commands.{
  Command, parse_add, parse_delete, command_of, add, delete, list, quit, request, unknown,
}
use s.Server.Session.Table.{Row, without_file, without_peer}
use s.Server.Session.Lengths.{parse_add-short, read_line-kept}
use s.Server.Session.Stages.{Stage, greeting, serving, leaving}
use s.Server.Index.{Op, publish, withdraw, retire, changed_by}
use s.Server.Index.Asking.{asked}
use s.Server.Index.Refinement.{asked_by_read, asked_by_end}

-- A row whose line fits the buffer of a session.
pub record IsShort (r : Row) : Type 0 where
  pub words : length r.filename + length r.peeraddr ≤ 160
  pub digits : length (decimal r.f_size) ≤ 10

abbrev pub AsksShort : Option Op → Type 0
AsksShort none = Unit
AsksShort (some (publish r)) = IsShort r
AsksShort (some (withdraw name hash peer)) = Unit
AsksShort (some (retire peer)) = Unit

without_file-IsShort :
    (name hash peer : Text) (rows : List Row)
    → All IsShort rows
    → All IsShort (without_file name hash peer rows)
      × (length (without_file name hash peer rows) ≤ length rows)
unfolding without_file
without_file-IsShort name hash peer [] h = (tt, omega arith)
without_file-IsShort name hash peer (r ∷ rows) h =
    ground (arith, without_file-IsShort name hash peer rows h.1)

without_peer-IsShort :
    (peer : Text) (rows : List Row)
    → All IsShort rows
    → All IsShort (without_peer peer rows) × (length (without_peer peer rows) ≤ length rows)
unfolding without_peer
without_peer-IsShort peer [] h = (tt, omega arith)
without_peer-IsShort peer (r ∷ rows) h = ground (arith, without_peer-IsShort peer rows h.1)

-- A change adds at most one row, and a short one where a short one is asked for.
pub changed_by-IsShort :
    (o : Option Op) (rows : List Row)
    → AsksShort o
    → All IsShort rows
    → All IsShort (changed_by o rows) × (length (changed_by o rows) ≤ suc (length rows))
changed_by-IsShort none rows a h = (h, omega arith)
changed_by-IsShort (some (publish r)) rows a h =
    (All-append IsShort rows r h a, omega (arith, length-append rows (r ∷ [])))
changed_by-IsShort (some (withdraw name hash peer)) rows a h =
    let k = without_file-IsShort name hash peer rows h in (k.0, omega (arith, k.1))
changed_by-IsShort (some (retire peer)) rows a h =
    let k = without_peer-IsShort peer rows h in (k.0, omega (arith, k.1))

asked-AsksShort :
    (peer : Text) (c : Command) (line : Text)
    → length line + length peer ≤ 160
    → AsksShort (asked peer c line)
asked-AsksShort peer add line h = elim (Option-cases (parse_add line)) [
  | inl e ↦ rw e tt
  | inr (words, e) ↦
      let fits = parse_add-short line words e in
      rw e (record { words = omega (arith, fits.0); digits = fits.1 })
]
asked-AsksShort peer delete line h = elim (Option-cases (parse_delete line)) [
  | inl e ↦ rw e tt
  | inr (words, e) ↦ rw e tt
]
asked-AsksShort peer list line h = tt
asked-AsksShort peer quit line h = tt
asked-AsksShort peer request line h = tt
asked-AsksShort peer unknown line h = tt

-- What a session with a short address asks for is short, if it reads no more than 145 bytes.
pub asked_by_read-AsksShort :
    (stage : Stage) (peer bytes : Text)
    → length (c_string bytes) ≤ 145
    → length peer ≤ 15
    → AsksShort (asked_by_read stage peer (arrived bytes))
asked_by_read-AsksShort greeting peer bytes h k = tt
asked_by_read-AsksShort serving peer bytes h k =
    let line = kept_bytes (c_string bytes) in
    let shorter = length-kept_bytes (c_string bytes) in
    rw (read_line-kept bytes (omega arith))
      (asked-AsksShort peer (command_of line) line (omega (arith, shorter)))
asked_by_read-AsksShort leaving peer bytes h k = tt

pub asked_by_end-AsksShort : (stage : Stage) (peer : Text) → AsksShort (asked_by_end stage peer)
asked_by_end-AsksShort greeting peer = tt
asked_by_end-AsksShort serving peer = tt
asked_by_end-AsksShort leaving peer = tt
