-- ===== src/Node/Process.antt =====
-- What a node asks of an engine's process and reads from its output: `RunRequest`, `RunResult`,
-- `apply_system_prompt`, `build_argv` and `StreamState`, of crates/stackhour-node/src/process.rs. The
-- process itself and its threads are left out; its output is the list of its lines.
pub mod Glue
pub mod Output
use Prim.Native.String
use stackhour.Prelude.{
  ℕ, ℤ, String, Bool, true, false, Option, none, some, List, [], ◌∷◌, ◌++◌, leb, str_eq, map_option,
  if◌then◌else◌, is_some, not, ◌&&◌,
}
use stackhour.Domain.Codec.{Codec}
use stackhour.Domain.Json.{Value, Elements, no_elements, element, str, arr, get}
use stackhour.Core.Text.{replace, is_empty, is_blank, size}
use stackhour.Core.Engine.{
  EngineDef, StreamKind, claude_stream_json, codex_jsonl, plain_lines, PromptDelivery, stdin,
  last_arg, ArgvVars, assemble_argv,
}

abbrev system_prompt_turn : String
system_prompt_turn = "[System instructions]\n{{system}}\n\n[User message]\n{{prompt}}"

-- `cwd` is the path's text
pub record RunRequest : Type 0 where
  pub prompt : String
  pub session_id : Option String
  pub model : Option String
  pub permission_mode : Option String
  pub system_prompt : Option String
  pub effort : Option String
  pub cwd : Option String
  pub live_status : Bool
  pub bin : Option String

pub record RunResult : Type 0 where
  pub text : String
  pub session_id : Option String
  pub code : Option ℤ
  pub error : Option String
  pub stderr : String

abbrev pub is_claude : StreamKind → Bool
is_claude claude_stream_json = true
is_claude codex_jsonl = false
is_claude plain_lines = false

abbrev pub with_system : Option String → RunRequest → RunRequest
with_system none request = request
with_system (some system) request =
    let taken = record request { system_prompt = none } in
    if is_blank system then taken else (record taken {
      prompt = replace "{{prompt}}" request.prompt (replace "{{system}}" system system_prompt_turn);
    })

unfoldable pub apply_system_prompt : EngineDef → RunRequest → RunRequest
unfolding is_blank replace
apply_system_prompt def request =
    if is_some def.system_prompt_args
    then request
    else if is_some request.session_id && not (is_claude def.kind)
    then request
    else with_system request.system_prompt request

abbrev pub delivered : PromptDelivery → String → List String → List String
delivered stdin prompt argv = argv
delivered last_arg prompt argv = argv ++ prompt ∷ []

unfoldable pub build_argv : EngineDef → RunRequest → List String
unfolding assemble_argv
build_argv def request = delivered def.prompt_delivery request.prompt (
    assemble_argv def (record {
      session_id = request.session_id;
      model = request.model;
      permission_mode = request.permission_mode;
      system_prompt = request.system_prompt;
      effort = request.effort;
      allow_tools = [];
      deny_tools = [];
      live_status = request.live_status;
    }))

pub record StreamState : Type 0 where
  pub kind : StreamKind
  pub text : String
  pub session_id : Option String

abbrev pub new_stream : StreamKind → Option String → StreamState
new_stream kind session_id = record { kind = kind; text = ""; session_id = session_id }

-- `Value::as_str` and `Value::as_array`, of a value that may be missing
abbrev pub as_str : Option Value → Option String
as_str (some (str s)) = some s
as_str _ = none

abbrev pub as_array : Option Value → Option Elements
as_array (some (arr xs)) = some xs
as_array _ = none

abbrev pub field_of : Option Value → String → Option Value
field_of none k = none
field_of (some v) k = get v k

abbrev pub is_text : String → Option String → Bool
is_text s none = false
is_text s (some t) = str_eq t s

abbrev pub or_blank : Option String → String
or_blank none = ""
or_blank (some s) = s

-- the texts of the items of type "text", together
unfoldable pub text_items : Elements → String
text_items no_elements = ""
text_items (element item rest) =
    let later = text_items rest in
    if is_text "text" (as_str (get item "type"))
    then String.◌++◌ (or_blank (as_str (get item "text"))) later
    else later

abbrev pub set_text : String → StreamState → StreamState
set_text text s = if is_empty text then s else (record s { text = text })

abbrev pub set_session : Option String → StreamState → StreamState
set_session none s = s
set_session (some id) s = record s { session_id = some id }

-- the first two arms of `match event.get("type")` in `feed_claude`
abbrev pub claude_assistant : Option Elements → StreamState → StreamState
claude_assistant none s = s
claude_assistant (some content) s = set_text (text_items content) s

abbrev pub claude_result : Option String → StreamState → StreamState
claude_result none s = s
claude_result (some result) s =
    if leb (size s.text) (size result) then (record s { text = result }) else s

abbrev pub first_session : Value → StreamState → StreamState
first_session event s =
    if is_some s.session_id then s else set_session (as_str (get event "session_id")) s

unfoldable pub feed_claude : Value → StreamState → StreamState
unfolding text_items size
feed_claude event s =
    let s' = first_session event s in
    let type = as_str (get event "type") in
    if is_text "assistant" type
    then claude_assistant (as_array (field_of (get event "message") "content")) s'
    else if is_text "result" type
    then claude_result (as_str (get event "result"))
        (set_session (as_str (get event "session_id")) s')
    else s'

-- the message of an `item.completed`, empty if it has none
abbrev pub agent_message : Value → String
agent_message event =
    let item = get event "item" in
    if is_text "agent_message" (as_str (field_of item "type"))
    then or_blank (as_str (field_of item "text"))
    else ""

abbrev pub add_message : String → StreamState → StreamState
add_message message s =
    if is_empty message
    then s
    else if is_empty s.text
    then (record s { text = message })
    else (record s { text = String.◌++◌ s.text (String.◌++◌ "\n\n" message) })

unfoldable pub feed_codex : Value → StreamState → StreamState
feed_codex event s =
    let type = or_blank (as_str (get event "type")) in
    if str_eq type "thread.started"
    then set_session (as_str (get event "thread_id")) s
    else if str_eq type "item.completed"
    then add_message (agent_message event) s
    else s

abbrev pub add_line : String → StreamState → StreamState
add_line line s =
    if is_empty s.text
    then (record s { text = line })
    else (record s { text = String.◌++◌ s.text (String.◌++◌ "\n" line) })

module _ (c : Codec) where
  abbrev pub feed_event : Option Value → StreamState → StreamState
  feed_event none s = s
  feed_event (some event) s = if is_claude s.kind then feed_claude event s else feed_codex event s

  abbrev pub feed_kind : StreamKind → String → StreamState → StreamState
  feed_kind plain_lines line s = add_line line s
  feed_kind claude_stream_json line s = feed_event (c.parse_json line) s
  feed_kind codex_jsonl line s = feed_event (c.parse_json line) s

  unfoldable pub feed : String → StreamState → StreamState
  unfolding is_blank feed_claude feed_codex
  feed line s = if is_blank line then s else feed_kind s.kind line s

  -- the loop over the lines of the output
  unfoldable pub feed_all : List String → StreamState → StreamState
  unfolding feed
  feed_all [] s = s
  feed_all (line ∷ lines) s = feed_all lines (feed line s)
