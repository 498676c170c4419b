-- ===== src/Tests/Orders.antt =====
-- The order of two clients' lines, at a concrete table.
use s.Prelude.{ℕ, ◌≡◌, refl, false, List, [], ◌∷◌, arith}
use s.Prelude.Int.{ℤ, pos, negsuc, ◌+ℤ◌}
use s.Server.Count.{Half, Counter, loads, stores, halves, apart, calls_of, client_count-overlaps}
use s.Clib.{
  Text, codes, text_eq, token, strtok, token_of, after_token, skip_spaces, atoi, starts_with,
  isdigit, decimal,
}
use s.Outcome.{sprintf, ok}
use s.Server.Messages.{validate_int}
use s.Server.Queries.{insert_query}
use s.Server.Commands.{command_of, parse_add}
use s.Server.Replies.{ok_line}
use s.Server.Session.{World, send_msg, handle, handle_add, add_file, add_answer}
use s.Server.Session.Table.{Row}
use s.Server.Index.{index_of}
use s.Server.Index.Order.{AllGranted, turns-swap}
use s.Server.Session.Turns.{Turn, turns}
use s.Prelude.{ap, get_or}
use s.Tests.Memory.{memory, memory_table, step, upto, past, inserted_row}

abbrev home : Text
home = codes "10.0.0.7"

abbrev added : Row
added = record { filename = codes "a"; filehash = codes "b"; f_size = 7; peeraddr = home }

abbrev adding : Turn
adding = record { peeraddr = home; line = codes "ADD a b 7" }

abbrev other_adding : Turn
other_adding = record { peeraddr = codes "10.0.0.8"; line = codes "ADD c d 9" }

abbrev other_row : Row
other_row = record {
  filename = codes "c";
  filehash = codes "d";
  f_size = 9;
  peeraddr = codes "10.0.0.8";
}

abbrev after_turns : List Row → World memory
after_turns rows = record {
  db = rows;
  c_count = pos 2;
  sent = ok_line ∷ ok_line ∷ [];
  closed = false;
}

abbrev before_turns : World memory
before_turns = record { db = []; c_count = pos 2; sent = []; closed = false }

both_orders :
    (turns memory 9 (adding ∷ other_adding ∷ []) before_turns
      ≡ ok (after_turns (added ∷ other_row ∷ [])))
    × (turns memory 9 (other_adding ∷ adding ∷ []) before_turns
        ≡ ok (after_turns (other_row ∷ added ∷ [])))
unfolding turns handle handle_add add_file add_answer send_msg command_of parse_add validate_int
    insert_query token strtok token_of after_token skip_spaces atoi starts_with isdigit text_eq
    sprintf step upto past inserted_row decimal
both_orders = (refl, refl)

both_granted :
    AllGranted memory 9 (adding ∷ other_adding ∷ []) before_turns
    × AllGranted memory 9 (other_adding ∷ adding ∷ []) before_turns
unfolding handle handle_add add_file add_answer send_msg command_of parse_add validate_int
    insert_query token strtok token_of after_token skip_spaces atoi starts_with isdigit text_eq
    sprintf step upto past inserted_row decimal
both_granted = ((refl, (refl, tt)), (refl, (refl, tt)))

turns-swap_example : index_of (added ∷ other_row ∷ []) ≡ index_of (other_row ∷ added ∷ [])
turns-swap_example =
    turns-swap memory_table 9 [] adding other_adding [] before_turns
      (after_turns (added ∷ other_row ∷ [])) (after_turns (other_row ∷ added ∷ [])) (grind arith)
      (λ e. grind (arith, ap (λ t. get_or t 7 0) e)) both_granted.0 both_granted.1 both_orders.0
      both_orders.1

-- Two clients leave at the same time, and are counted off once.
abbrev two_clients : Counter
two_clients = record { c_count = pos 2; loaded = λ i. pos 0 }

abbrev leaving_twice : List (ℕ × ℤ)
leaving_twice = (1, negsuc 0) ∷ (2, negsuc 0) ∷ []

abbrev overlapping : List Half
overlapping = loads 1 ∷ loads 2 ∷ stores 2 (negsuc 0) ∷ stores 1 (negsuc 0) ∷ []

client_count-overlaps_example :
    ((halves (apart leaving_twice) two_clients).c_count
      ≡ (calls_of leaving_twice before_turns).c_count)
    × ((halves overlapping two_clients).c_count ≡ pos 2 +ℤ negsuc 0)
client_count-overlaps_example =
    client_count-overlaps leaving_twice before_turns two_clients 1 (negsuc 0)
      (loads 2 ∷ stores 2 (negsuc 0) ∷ []) refl (refl, (refl, tt))
