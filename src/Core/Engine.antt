-- ===== src/Core/Engine.antt =====
-- The definition of a coding engine and the arguments of its process:
-- crates/stackhour-core/src/engine.rs.
pub mod Argv
pub mod Plain
pub mod Codex
pub mod Claude
use stackhour.Prelude.{
  ℕ, zero, suc, ◌+◌, ◌-◌, String, Bool, true, false, not, ◌&&◌, ◌||◌, Option, none, some, List, [],
  ◌∷◌, ◌++◌, map, length, str_eq, if◌then◌else◌, is_some, min,
}
use stackhour.Core.Text.{replace, contains, join}

abbrev pub bypass_permission_mode : String
bypass_permission_mode = "bypassPermissions"

abbrev pub bypass_sandbox_flag : String
bypass_sandbox_flag = "--dangerously-bypass-approvals-and-sandbox"

abbrev placeholder_session_id : String
placeholder_session_id = "{{session_id}}"

abbrev placeholder_model : String
placeholder_model = "{{model}}"

abbrev placeholder_permission_mode : String
placeholder_permission_mode = "{{permission_mode}}"

abbrev placeholder_system_prompt : String
placeholder_system_prompt = "{{system_prompt}}"

abbrev placeholder_effort : String
placeholder_effort = "{{effort}}"

abbrev placeholder_allowed_tools : String
placeholder_allowed_tools = "{{allowed_tools}}"

abbrev placeholder_disallowed_tools : String
placeholder_disallowed_tools = "{{disallowed_tools}}"

pub data StreamKind : Type 0 where
  claude_stream_json codex_jsonl plain_lines : StreamKind

pub data ResumeStyle : Type 0 where
  flag : (args : List String) → ResumeStyle
  subcommand : (insert : String) → ResumeStyle

pub data PromptDelivery : Type 0 where
  stdin last_arg : PromptDelivery

pub record EngineDef : Type 0 where
  pub name : String
  pub label : String
  pub emoji : String
  pub bin : String
  pub kind : StreamKind
  pub args : List String
  pub resume : ResumeStyle
  pub model_args : Option (List String)
  pub permission_args : Option (List String)
  pub system_prompt_args : Option (List String)
  pub prompt_delivery : PromptDelivery
  pub env : List (String × String)
  pub partial_messages_flag : Option String
  pub effort_args : Option (List String)
  pub allowed_tools_args : Option (List String)
  pub disallowed_tools_args : Option (List String)

pub record ArgvVars : Type 0 where
  pub session_id : Option String
  pub model : Option String
  pub permission_mode : Option String
  pub system_prompt : Option String
  pub effort : Option String
  pub allow_tools : List String
  pub deny_tools : List String
  pub live_status : Bool

abbrev pub default_vars : ArgvVars
default_vars = record {
  session_id = none;
  model = none;
  permission_mode = none;
  system_prompt = none;
  effort = none;
  allow_tools = [];
  deny_tools = [];
  live_status = false;
}

abbrev pub unwrap_or : Option String → String → String
unwrap_or none s = s
unwrap_or (some t) s = t

-- the chain of `replace` calls
unfoldable pub replace_all : List (String × String) → String → String
unfolding replace
replace_all [] text = text
replace_all ((placeholder, value) ∷ rest) text = replace_all rest (replace placeholder value text)

abbrev pub substitutions : ArgvVars → List (String × String)
substitutions vars =
    (placeholder_session_id, unwrap_or vars.session_id "")
    ∷ (placeholder_model, unwrap_or vars.model "")
    ∷ (placeholder_permission_mode, unwrap_or vars.permission_mode "default")
    ∷ (placeholder_system_prompt, unwrap_or vars.system_prompt "")
    ∷ (placeholder_effort, unwrap_or vars.effort "")
    ∷ (placeholder_allowed_tools, join "," vars.allow_tools)
    ∷ (placeholder_disallowed_tools, join "," vars.deny_tools)
    ∷ []

unfoldable pub subst : ArgvVars → String → String
unfolding replace_all join
subst vars = replace_all (substitutions vars)

abbrev pub builtin_claude : EngineDef
builtin_claude = record {
  name = "claude";
  label = "Claude";
  emoji = "🧠";
  bin = "claude";
  kind = claude_stream_json;
  args = "-p" ∷ "--output-format" ∷ "stream-json" ∷ "--verbose" ∷ [];
  resume = flag ("--resume" ∷ placeholder_session_id ∷ []);
  model_args = some ("--model" ∷ placeholder_model ∷ []);
  permission_args = some ("--permission-mode" ∷ placeholder_permission_mode ∷ []);
  system_prompt_args = some ("--append-system-prompt" ∷ placeholder_system_prompt ∷ []);
  prompt_delivery = stdin;
  env = [];
  partial_messages_flag = some "--include-partial-messages";
  effort_args = none;
  allowed_tools_args = some ("--allowedTools" ∷ placeholder_allowed_tools ∷ []);
  disallowed_tools_args = some ("--disallowedTools" ∷ placeholder_disallowed_tools ∷ []);
}

abbrev pub builtin_codex : EngineDef
builtin_codex = record {
  name = "codex";
  label = "Codex";
  emoji = "🛠";
  bin = "codex";
  kind = codex_jsonl;
  args = "exec" ∷ "--json" ∷ "--skip-git-repo-check" ∷ "-" ∷ [];
  resume = subcommand "resume";
  model_args = some ("--model" ∷ placeholder_model ∷ []);
  permission_args = some ("--sandbox" ∷ "workspace-write" ∷ []);
  system_prompt_args = none;
  prompt_delivery = stdin;
  env = [];
  partial_messages_flag = none;
  effort_args = some ("-c" ∷ "model_reasoning_effort=\"{{effort}}\"" ∷ []);
  allowed_tools_args = none;
  disallowed_tools_args = none;
}

unfoldable pub any_contains : String → List String → Bool
unfolding contains
any_contains pattern [] = false
any_contains pattern (a ∷ rest) = contains pattern a || any_contains pattern rest

-- `permission_argv` of a template
abbrev pub permission_of : List String → Option String → List String
permission_of template permission_mode =
    let mode = unwrap_or permission_mode "default" in
    let takes_mode_flag = any_contains placeholder_permission_mode template in
    if str_eq mode bypass_permission_mode && not takes_mode_flag
    then bypass_sandbox_flag ∷ []
    else map (subst (record default_vars { permission_mode = some mode })) template

unfoldable pub permission_argv : EngineDef → (permission_mode : Option String) → List String
unfolding any_contains subst
permission_argv def permission_mode = elim def.permission_args [
  | none ↦ []
  | some template ↦ permission_of template permission_mode
]

-- `Vec::insert`; the code inserts at most at the length
unfoldable pub insert_at : (index : ℕ) (item : String) → List String → List String
insert_at index item [] = item ∷ []
insert_at zero item (x ∷ xs) = item ∷ x ∷ xs
insert_at (suc index) item (x ∷ xs) = x ∷ insert_at index item xs

-- `slice::last`
unfoldable pub last : List String → Option String
last [] = none
last (x ∷ []) = some x
last (x ∷ y ∷ rest) = last (y ∷ rest)

-- the place before a last "-", or the end
unfoldable pub sentinel_at : List String → ℕ
unfolding last
sentinel_at out = elim (last out) [
  | none ↦ length out
  | some a ↦ if str_eq a "-" then length out - 1 else length out
]

-- the loop of `splice_in`; the state is the arguments and the place
unfoldable pub splice_in : List String → List String × ℕ → List String × ℕ
unfolding insert_at
splice_in [] (out, splice) = (out, splice)
splice_in (item ∷ items) (out, splice) = splice_in items (insert_at splice item out, splice + 1)

abbrev pub or_empty : Option (List String) → List String
or_empty none = []
or_empty (some xs) = xs

-- the arguments of a template that is used if `given`
abbrev pub rendered : (given : Bool) → ArgvVars → Option (List String) → List String
rendered given vars template = if given then map (subst vars) (or_empty template) else []

abbrev pub partial_flag : EngineDef → ArgvVars → List String
partial_flag def vars =
    if vars.live_status
    then (elim def.partial_messages_flag [ none ↦ [] | some f ↦ f ∷ [] ])
    else []

abbrev pub not_empty : List String → Bool
not_empty [] = false
not_empty (x ∷ xs) = true

-- with the session that is resumed, if any
unfoldable pub resumed : EngineDef → ArgvVars → List String → List String
unfolding insert_at sentinel_at subst
resumed def vars out = elim vars.session_id [
  | none ↦ out
  | some sid ↦ elim def.resume [
    | flag args ↦ out ++ map (subst vars) args
    | subcommand insert ↦
        let out' = insert_at (min 1 (length out)) insert out in
        insert_at (sentinel_at out') sid out'
  ]
]

-- the splices, in their order
abbrev pub spliced : EngineDef → ArgvVars → List String × ℕ → List String × ℕ
spliced def vars at =
    splice_in (rendered (not_empty vars.deny_tools) vars def.disallowed_tools_args) (
      splice_in (rendered (not_empty vars.allow_tools) vars def.allowed_tools_args) (
        splice_in (rendered (is_some vars.effort) vars def.effort_args) (
          splice_in (rendered (is_some vars.model) vars def.model_args) (
            splice_in (rendered (is_some vars.system_prompt) vars def.system_prompt_args) (
              splice_in (permission_argv def vars.permission_mode)
                (splice_in (partial_flag def vars) at))))))

unfoldable pub assemble_argv : EngineDef → ArgvVars → List String
unfolding splice_in permission_argv sentinel_at resumed
assemble_argv def vars =
    let base = map (subst vars) def.args in
    let (out, _) = spliced def vars (base, sentinel_at base) in resumed def vars out
