-- ===== src/Peer/Menu/Login.antt =====
-- The menu's calls as the central server hears them: each sends its text with its NUL, and the
-- session of the connection reads it by one recv.
use s.Prelude.{
  ℕ, ◌<◌, ◌≡◌, ◌⊎◌, inl, inr, refl, sym, ap, subst, ◌∙◌, append-nil, Bool, true, false, Option,
  none, some, Option-cases, List, [], ◌∷◌, length, All,
}
use s.Clib.{Text, codes, text_eq, starts_with}
use s.Net.{arrived, with_nul}
use s.Outcome.{Result, ok, Holds, Holds-then, Holds-bind, ◌>>=◌}
use s.Peer.Client.{add_text, delete_text, request_text}
use s.Peer.Menu.{Menu, Call, connect, list, quit, add, delete, get, start, menu}
use s.Peer.Menu.Protocol.{after_call, follow, menu-follow}
use s.Server.Messages.{read_line}
use s.Server.Messages.Reading.{IsPlain, read_line-with_nul}
use s.Server.Sqlite.{Sqlite}
use s.Server.Commands.{command_of}
use s.Server.Session.{World, handle, buffer_after}
use s.Server.Session.Ending.{buffer_after-ne_quit}
use s.Server.Session.Stages.{
  Stage, greeting, serving, leaving, serving_stage, greeting_stage, read_step,
}

-- The hash and the size of a file on the peer's disk.
pub record Details : Type 0 where
  pub hash_value : Text
  pub file_size : ℕ

-- What the client's method for a call sends.
unfoldable pub message_of : (Text → Details) → Call → Text
message_of disk connect = codes "CONNECT"
message_of disk list = codes "LIST"
message_of disk quit = codes "QUIT"
message_of disk (add path) = add_text path (disk path).hash_value (disk path).file_size
message_of disk (delete path) = delete_text path (disk path).hash_value
message_of disk (get name) = request_text name

module _ (q : Sqlite) (fuel : ℕ) (peer : Text) (disk : Text → Details) where
  -- The stage of the session that hears a call: a new one for each connection.
  abbrev pub stage_for : Call → Option Stage → Stage
  stage_for connect o = greeting
  stage_for c none = leaving
  stage_for c (some stage) = stage

  -- What the calls do at the server: the stage of the last session, none before the first.
  unfoldable pub hear : List Call → Option Stage → World q → Result (Option Stage × World q)
  hear [] o w = ok (o, w)
  hear (c ∷ cs) o w = do
    next ← read_step q fuel peer (stage_for c o) (arrived (with_nul (message_of disk c))) w
    hear cs (some next.0) next.1

  -- The message arrives whole: no byte that clean_string drops, and it fits the buffer.
  abbrev pub Arrives : Call → Type 0
  Arrives c = IsPlain (message_of disk c) × (length (message_of disk c) < 512)

  -- A session serves the client, or none does.
  abbrev pub Served : Bool → Option Stage → Type 0
  Served true o = o ≡ some serving
  Served false o = (o ≡ none) ⊎ (o ≡ some leaving)

  read_message :
      (line : Text)
      → IsPlain line
      → length line < 512
      → read_line (arrived (with_nul line)) ≡ ok line
  read_message line plain short =
      ap (λ t. read_line (arrived t)) (sym (append-nil (with_nul line)))
      ∙ read_line-with_nul line [] plain short

  -- A message other than QUIT keeps the session serving.
  request-serving :
      (line : Text) (w : World q)
      → IsPlain line
      → length line < 512
      → text_eq line (codes "QUIT") ≡ false
      → Holds
          (λ next. some next.0 ≡ some serving)
          (read_step q fuel peer serving (arrived (with_nul line)) w)
  unfolding read_step serving_stage
  request-serving line w plain short other = rw (read_message line plain short) (
      Holds-then _ (handle q fuel peer (command_of line) line w) _
        (λ w'. rw (buffer_after-ne_quit q line other) refl))

  -- What is to hold after a call, if the client may make it.
  abbrev Expected : Call → Option Stage → World q → Option Bool → Type 0
  Expected c o w none = Unit
  Expected c o w (some b) =
      Holds (λ next. Served b (some next.0))
        (read_step q fuel peer (stage_for c o) (arrived (with_nul (message_of disk c))) w)

  serving-Expected :
      (c : Call) (w : World q) → Arrives c → Expected c (some serving) w (after_call true c)
  unfolding message_of
  serving-Expected connect w a = tt
  serving-Expected list w a = request-serving (codes "LIST") w a.0 a.1 (unfold text_eq in refl)
  serving-Expected quit w a =
      unfold read_step serving_stage command_of buffer_after handle text_eq starts_with in
      rw (read_message (codes "QUIT") a.0 a.1) (inr refl)
  serving-Expected (add path) w a = request-serving _ w a.0 a.1 (unfold add_text text_eq in refl)
  serving-Expected (delete path) w a =
      request-serving _ w a.0 a.1 (unfold delete_text text_eq in refl)
  serving-Expected (get name) w a =
      request-serving _ w a.0 a.1 (unfold request_text text_eq in refl)

  call-Expected :
      (c : Call) (b : Bool) (o : Option Stage) (w : World q)
      → Arrives c
      → Served b o
      → Expected c o w (after_call b c)
  unfolding message_of
  call-Expected c true o w a s =
      subst (λ k. Expected c k w (after_call true c)) (sym s) (serving-Expected c w a)
  call-Expected connect false o w a s =
      unfold read_step greeting_stage serving_stage text_eq in
      rw (read_message (codes "CONNECT") a.0 a.1) refl
  call-Expected list false o w a s = tt
  call-Expected quit false o w a s = tt
  call-Expected (add path) false o w a s = tt
  call-Expected (delete path) false o w a s = tt
  call-Expected (get name) false o w a s = tt

  Expected-known :
      (c : Call) (o : Option Stage) (w : World q) (r : Option Bool) (b : Bool)
      → r ≡ some b
      → Expected c o w r
      → Expected c o w (some b)
  Expected-known c o w r b e h = subst (Expected c o w) e h

  hear-Served :
      (cs : List Call) (b b' : Bool) (o : Option Stage) (w : World q)
      → All Arrives cs
      → follow (some b) cs ≡ some b'
      → Served b o
      → Holds (λ last. Served b' last.0) (hear cs o w)
  unfolding hear
  hear-Served [] b b' o w a e s = let it : b ≡ b' = cc in subst (λ k. Served k o) it s
  hear-Served (c ∷ cs) b b' o w a e s = elim (Option-cases (after_call b c)) [
    | inl barred ↦ absurd (let stuck = subst (λ r. follow r cs ≡ some b') barred e in cc)
    | inr (b1, known) ↦
        Holds-bind (λ next. Served b1 (some next.0)) (λ last. Served b' last.0) _ _
          (Expected-known c o w (after_call b c) b1 known (call-Expected c b o w a.0 s))
          (λ next now.
            hear-Served cs b1 b' (some next.0) next.1 a.1
              (subst (λ r. follow r cs ≡ some b') known e) now)
  ]

  -- Whatever is typed at the menu: if each message of its calls arrives whole, the peer holds itself
  -- logged in exactly when the server's session for its connection serves it; else no session has
  -- begun, or the last one has read QUIT.
  pub menu-Served :
      (inputs : List (Option ℕ × Text)) (m : Menu) (w : World q)
      → menu inputs start ≡ ok m
      → All (λ c. IsPlain (message_of disk c) × (length (message_of disk c) < 512)) m.calls
      → Holds (λ last. Served m.logged last.0) (hear m.calls none w)
  menu-Served inputs m w e arrive =
      hear-Served m.calls false m.logged none w arrive (menu-follow inputs m e).0 (inl refl)
