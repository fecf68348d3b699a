-- ===== src/Node/Process/Output.antt =====
-- What a process has said, from the lines of its output.
use stackhour.Prelude.{
  String, ◌≡◌, refl, ap, ◌∙◌, Bool, true, false, Option, none, some, List, [], ◌∷◌, ◌++◌, str_eq,
  if◌then◌else◌, Bool-cases, inl, inr,
}
use stackhour.Domain.Codec.{Codec}
use stackhour.Domain.Json.{Value, get}
use stackhour.Core.Text.{join, is_empty, is_blank}
use stackhour.Core.Engine.{codex_jsonl, plain_lines}
use stackhour.Node.Process.{
  StreamState, new_stream, as_str, or_blank, agent_message, add_message, add_line, set_session,
  feed, feed_all, feed_codex, feed_event,
}
use stackhour.Node.Process.Glue.{
  Filled, glue, glue-empty, glue-append, Filled-append, lone-Filled, either-Filled,
}

-- the message of an event, if it has one that is not empty
abbrev pub message : Value → List String
message event =
    let type = or_blank (as_str (get event "type")) in
    let m = agent_message event in
    if str_eq type "thread.started"
    then []
    else if str_eq type "item.completed"
    then (if is_empty m then [] else m ∷ [])
    else []

-- the session after an event
abbrev pub thread : Option String → Option String → Option String
thread none session = session
thread (some id) session = some id

abbrev pub session_after : Value → Option String → Option String
session_after event session =
    if str_eq (or_blank (as_str (get event "type"))) "thread.started"
    then thread (as_str (get event "thread_id")) session
    else session

module _ (c : Codec) where
  abbrev event_messages : Option Value → List String
  event_messages none = []
  event_messages (some event) = message event

  abbrev event_session : Option Value → Option String → Option String
  event_session none session = session
  event_session (some event) session = session_after event session

  -- the messages of the lines of codex, in their order, and the last thread that they name
  unfoldable pub messages : List String → List String
  messages [] = []
  messages (line ∷ lines) =
      (if is_blank line then [] else event_messages (c.parse_json line)) ++ messages lines

  unfoldable pub last_thread : List String → Option String → Option String
  last_thread [] session = session
  last_thread (line ∷ lines) session =
      last_thread lines
        (if is_blank line then session else event_session (c.parse_json line) session)

  -- the lines that are not blank
  unfoldable pub said : List String → List String
  said [] = []
  said (line ∷ lines) = let rest = said lines in if is_blank line then rest else line ∷ rest

  after : StreamState → List String → Option String → StreamState
  unfolding glue
  after s ms session = record s { text = glue "\n\n" s.text ms; session_id = session }

  add_message-after :
      (m : String) (s : StreamState)
      → add_message m s ≡ after s (if is_empty m then [] else m ∷ []) s.session_id
  unfolding after
  add_message-after m s = elim (Bool-cases (is_empty m)) [
    | inl h ↦ rw h refl
    | inr h ↦ rw h (elim (Bool-cases (is_empty s.text)) [ inl k ↦ rw k refl | inr k ↦ rw k refl ])
  ]

  set_session-after :
      (o : Option String) (s : StreamState) → set_session o s ≡ after s [] (thread o s.session_id)
  unfolding after
  set_session-after none s = refl
  set_session-after (some id) s = refl

  branches :
      (a b : Bool) (o : Option String) (m : String) (s : StreamState)
      → (if a then set_session o s else if b then add_message m s else s)
        ≡ after s
            (if a then [] else if b then (if is_empty m then [] else m ∷ []) else [])
            (if a then thread o s.session_id else s.session_id)
  unfolding after
  branches true b o m s = set_session-after o s
  branches false true o m s = add_message-after m s
  branches false false o m s = refl

  feed_codex-after :
      (event : Value) (s : StreamState)
      → feed_codex event s ≡ after s (message event) (session_after event s.session_id)
  unfolding feed_codex
  feed_codex-after event s = branches _ _ _ _ s

  abbrev codex : String → Option String → StreamState
  codex text session = record { kind = codex_jsonl; text = text; session_id = session }

  feed_event-after :
      (event : Option Value) (text : String) (session : Option String)
      → feed_event c event (codex text session)
        ≡ codex (glue "\n\n" text (event_messages event)) (event_session event session)
  unfolding after
  feed_event-after none text session = refl
  feed_event-after (some event) text session = feed_codex-after event (codex text session)

  feed-after :
      (line text : String) (session : Option String)
      → feed c line (codex text session)
        ≡ codex
            (glue "\n\n" text (if is_blank line then [] else event_messages (c.parse_json line)))
            (if is_blank line then session else event_session (c.parse_json line) session)
  unfolding feed glue
  feed-after line text session = elim (Bool-cases (is_blank line)) [
    | inl h ↦ rw h refl
    | inr h ↦ rw h (feed_event-after (c.parse_json line) text session)
  ]

  feed_all-after :
      (lines : List String) (text : String) (session : Option String)
      → feed_all c lines (codex text session)
        ≡ codex (glue "\n\n" text (messages lines)) (last_thread lines session)
  unfolding feed_all messages last_thread glue
  feed_all-after [] text session = refl
  feed_all-after (line ∷ lines) text session =
      ap (feed_all c lines) (feed-after line text session)
      ∙ feed_all-after lines _ _
      ∙ ap (λ (t : String). codex t (last_thread (line ∷ lines) session))
          (glue-append "\n\n" text
            (if is_blank line then [] else event_messages (c.parse_json line)) (messages lines))

  event_messages-Filled : (event : Option Value) → Filled (event_messages event)
  event_messages-Filled none = tt
  event_messages-Filled (some event) =
      either-Filled (str_eq (or_blank (as_str (get event "type"))) "thread.started") [] _ tt (
        either-Filled (str_eq (or_blank (as_str (get event "type"))) "item.completed") _ []
          (lone-Filled (agent_message event)) tt)

  messages-Filled : (lines : List String) → Filled (messages lines)
  unfolding messages
  messages-Filled [] = tt
  messages-Filled (line ∷ lines) =
      Filled-append _ (messages lines)
        (either-Filled (is_blank line) [] _ tt (event_messages-Filled (c.parse_json line)))
        (messages-Filled lines)

  -- From a process of codex that writes these lines, the answer is the messages of its completed
  -- items, in their order, with an empty line between two, and the session is the last thread that it
  -- names, or else the one that it was started with. Lines that are blank or do not parse, and events
  -- of other types, change nothing.
  pub feed_all-codex :
      (lines : List String) (session : Option String)
      → let s = feed_all c lines (new_stream codex_jsonl session) in
        (s.text ≡ join "\n\n" (messages lines)) × (s.session_id ≡ last_thread lines session)
  feed_all-codex lines session =
      let whole = feed_all-after lines "" session in
      (
        ap (λ (s : StreamState). s.text) whole
            ∙ glue-empty "\n\n" (messages lines) (messages-Filled lines),
        ap (λ (s : StreamState). s.session_id) whole,
      )

  not_blank : (line : String) → is_blank line ≡ false → is_empty line ≡ false
  unfolding is_blank
  not_blank String.[] h = absurd (cc h)
  not_blank (String.◌∷◌ ch s) h = refl

  said-Filled : (lines : List String) → Filled (said lines)
  unfolding said
  said-Filled [] = tt
  said-Filled (line ∷ lines) = elim (Bool-cases (is_blank line)) [
    | inl h ↦ rw h (said-Filled lines)
    | inr h ↦ rw h (not_blank line h, said-Filled lines)
  ]

  abbrev plain : String → Option String → StreamState
  plain text session = record { kind = plain_lines; text = text; session_id = session }

  add_line-glue :
      (line text : String) (session : Option String)
      → add_line line (plain text session) ≡ plain (glue "\n" text (line ∷ [])) session
  unfolding glue
  add_line-glue line text session = elim (Bool-cases (is_empty text)) [
    | inl h ↦ rw h refl
    | inr h ↦ rw h refl
  ]

  feed_all-said :
      (lines : List String) (text : String) (session : Option String)
      → feed_all c lines (plain text session) ≡ plain (glue "\n" text (said lines)) session
  unfolding feed_all feed said glue
  feed_all-said [] text session = refl
  feed_all-said (line ∷ lines) text session = elim (Bool-cases (is_blank line)) [
    | inl h ↦ rw h (feed_all-said lines text session)
    | inr h ↦ rw h (
        ap (feed_all c lines) (add_line-glue line text session)
        ∙ feed_all-said lines (glue "\n" text (line ∷ [])) session)
  ]

  -- From an engine of plain lines, the answer is its lines that are not blank, one to a line.
  pub feed_all-plain :
      (lines : List String) (session : Option String)
      → feed_all c lines (new_stream plain_lines session)
        ≡ record { kind = plain_lines; text = join "\n" (said lines); session_id = session }
  feed_all-plain lines session =
      feed_all-said lines "" session
      ∙ ap (λ (t : String). plain t session) (glue-empty "\n" (said lines) (said-Filled lines))
