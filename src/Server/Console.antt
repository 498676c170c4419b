-- ===== src/Server/Console.antt =====
-- The server's console: the loop of main over the lines that fgets reads, and shutdown_handler.
use s.Prelude.{ℕ, Bool, true, false, Option, none, some, List, [], ◌∷◌, ◌++◌, ◌==◌, if◌then◌else◌}
use s.Clib.{Text, codes, text_eq}
use s.Server.Sqlite.{sqlite_ok}

-- What the console does for a line; `stop` shuts the server down.
pub data Action : Type 0 where
  clear help stat stop : Action
  unknown : Text → Action

unfoldable pub action_of : Text → Action
action_of command =
    if text_eq command (codes "clear")
    then clear
    else if text_eq command (codes "help")
    then help
    else if text_eq command (codes "stat")
    then stat
    else if text_eq command (codes "stop")
    then stop
    else unknown command

-- console_help: its five lines.
unfoldable pub console_help : List Text
console_help =
    ((codes "Server " ++ (176 ∷ 239 ∷ 214 ∷ 250 ∷ 58 ∷ 10 ∷ [])))
    ∷ (9
        ∷ (codes "clear - "
            ++ (199 ∷ 229 ∷ 179 ∷ 253 ∷ 214 ∷ 213 ∷ 182 ∷ 203 ∷ 208 ∷ 197 ∷ 207 ∷ 162 ∷ 10 ∷ [])))
    ∷ (9
        ∷ (codes " help - "
            ++ (187 ∷ 241 ∷ 200 ∷ 161 ∷ 176 ∷ 239 ∷ 214 ∷ 250 ∷ 208 ∷ 197 ∷ 207 ∷ 162 ∷ 10 ∷ [])))
    ∷ (9
        ∷ (codes " stat - "
            ++ (187 ∷ 241 ∷ 200 ∷ 161 ∷ 181 ∷ 177 ∷ 199 ∷ 176 ∷ 215 ∷ 180 ∷ 204 ∷ 172 ∷ 10 ∷ [])))
    ∷ (9
        ∷ (codes " stop - "
            ++ (205 ∷ 163 ∷ 214 ∷ 185 ∷ 183 ∷ 254 ∷ 206 ∷ 241 ∷ 198 ∷ 247 ∷ 10 ∷ [])))
    ∷ []

-- main's buffer: fgets gives `none` at the end of the input and leaves it; else at most 511 bytes of a
-- line.
unfoldable pub buffer_of : Option Text → Text → Text
buffer_of none buffer = buffer
buffer_of (some line) buffer = line

-- What shutdown_handler does, in order, and the code that it exits with: true for 0, false for -1, and
-- none if it does not come to exit: thpool_destroy waits for the threads of the pool, and `joins` is
-- whether the sessions at work come to their ends.
pub data Effect : Type 0 where
  cancel_listener close_database close_listener destroy_pool : Effect

abbrev pub Ending : Type 0
Ending = List Effect × Option Bool

unfoldable pub shutdown : ℕ → Bool → Bool → Ending
shutdown status closes joins =
    if status == sqlite_ok
    then (if closes
        then (
          cancel_listener ∷ close_database ∷ close_listener ∷ destroy_pool ∷ [],
          if joins then some true else none,
        )
        else (cancel_listener ∷ close_database ∷ close_listener ∷ [], some false))
    else (cancel_listener ∷ close_database ∷ [], some false)
