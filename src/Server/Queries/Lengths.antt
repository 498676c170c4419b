-- ===== src/Server/Queries/Lengths.antt =====
-- How long the server's statements are.
use s.Prelude.{ℕ, ◌+◌, ◌≡◌, length, arith, length-append}
use s.Clib.{Text, decimal}
use s.Server.Queries.{insert_query, delete_query, request_query, leave_query}

pub length-insert_query :
    (name hash : Text) (n : ℕ) (peer : Text)
    → length (insert_query name hash n peer)
      ≡ 39 + (length name + length hash + length (decimal n) + length peer)
unfolding insert_query
length-insert_query name hash n peer = grind (arith, length-append)

pub length-delete_query :
    (name hash peer : Text)
    → length (delete_query name hash peer) ≡ 71 + (length name + length hash + length peer)
unfolding delete_query
length-delete_query name hash peer = grind (arith, length-append)

pub length-request_query : (name : Text) → length (request_query name) ≡ 88 + length name
unfolding request_query
length-request_query name = grind (arith, length-append)

pub length-leave_query : (peer : Text) → length (leave_query peer) ≡ 35 + length peer
unfolding leave_query
length-leave_query peer = grind (arith, length-append)
