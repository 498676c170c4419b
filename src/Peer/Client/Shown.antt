-- ===== src/Peer/Client/Shown.antt =====
-- The server's answer to LIST, as the peer's showFileList reads it.
use s.Prelude.{ℕ, ◌<◌, ◌≡◌, ◌∙◌, refl, ap, true, false, some, List, [], ◌∷◌, ◌++◌, map, length, All}
use s.Clib.{Text, codes, starts_with, c_string}
use s.Clib.Strings.{Avoids, IsWord, c_string_self, strtok_blank, strtok_last}
use s.Net.{arrived, with_nul, map-arrived}
use s.Outcome.{ok}
use s.Peer.Files.{base_name}
use s.Peer.Client.{
  contains, item_words, item_size, finished, listed_item, list_loop, show_file_list,
}
use s.Server.Sqlite.{Sqlite}
use s.Server.Queries.{list_query}
use s.Server.Replies.{list_end}
use s.Server.Commands.{command_of}
use s.Server.Session.{World, handle, list_line}
use s.Server.Session.Listing.{Selects, list_answers}

-- A row of the answer: the path and the digits of the size.
abbrev pub Entry : Type 0
Entry = Text × Text

abbrev pub entry_line : Entry → Text
entry_line (path, size) = path ++ 32 ∷ size

-- What the peer can tell from its own marks: words without NUL, a line that does not begin with OK
-- and does not contain ERROR.
pub record IsReadable (e : Entry) : Type 0 where
  pub path_word : IsWord e.0
  pub size_word : IsWord e.1
  pub no_nul : Avoids 0 (entry_line e)
  pub not_ok : starts_with (entry_line e) (codes "OK") ≡ false
  pub not_error : contains (entry_line e) (codes "ERROR") ≡ false

abbrev pub shown : Entry → Text × Text
shown (path, size) = (base_name path, size)

listed_item-entry : (e : Entry) → IsReadable e → listed_item (entry_line e) ≡ some (shown e)
listed_item-entry (path, size) h =
    unfold listed_item item_words item_size in
    ap item_words (strtok_blank path size h.path_word)
    ∙ ap (item_size path) (strtok_last size h.size_word)

list_loop-entries :
    (es : List Entry)
    → All IsReadable es
    → list_loop (map (λ e. arrived (entry_line e)) es ++ arrived list_end ∷ [])
      ≡ finished (map shown es) true
unfolding list_loop
list_loop-entries [] h = unfold c_string starts_with in refl
list_loop-entries (e ∷ es) h =
    rw
      (
        c_string_self (entry_line e) h.0.no_nul,
        h.0.not_ok,
        h.0.not_error,
        listed_item-entry e h.0,
        list_loop-entries es h.1,
      )
      refl

-- A peer that asks for the list and gets each of the server's lines by one recv shows the base names
-- and sizes of all rows that SQLite selects, in order, and returns 0, if there are fewer rows than
-- steps allowed, each line fits the server's buffer of 512 bytes, and each row is readable.
pub show_file_list-shown :
    (q : Sqlite) (fuel : ℕ) (peer : Text) (es : List Entry) (w : World q)
    → w.sent ≡ []
    → length (map entry_line es) < fuel
    → Selects q (list_line q) w.db (q.prepare w.db list_query) (map entry_line es)
    → All IsReadable es
    → (w' : World q) × (handle q fuel peer (command_of (codes "LIST")) (codes "LIST") w ≡ ok w')
      × (show_file_list true (map (λ t. arrived t) w'.sent)
          ≡ (with_nul (codes "LIST") ∷ [], finished (map shown es) true))
show_file_list-shown q fuel peer es w unsent h sel readable =
    let answer = list_answers q fuel peer (map entry_line es) w h sel in
    let sent : answer.0.sent ≡ map entry_line es ++ list_end ∷ [] =
      answer.2 ∙ ap (λ s. s ++ (map entry_line es ++ list_end ∷ [])) unsent in
    (
      answer.0,
      answer.1,
      unfold show_file_list in
          ap (λ l. (with_nul (codes "LIST") ∷ [], l))
            (ap (λ s. list_loop (map (λ t. arrived t) s)) sent
              ∙ (ap list_loop (map-arrived entry_line es list_end)
                  ∙ list_loop-entries es readable)),
    )
