-- ===== src/Core/Engine/Claude.antt =====
-- The arguments of claude.
use mathlib.Core.List.{append-nil}
use text.Mathlib.TextLemmas
use stackhour.Prelude.{
  String, ◌≡◌, refl, sym, ap, ◌∙◌, Bool, true, false, ◌&&◌, Option, none, some, List, [], ◌∷◌, ◌++◌,
  map, str_eq, if◌then◌else◌, is_some, drop,
}
use stackhour.Core.Text.{join}
use stackhour.Core.Engine.{
  ArgvVars, default_vars, subst, permission_argv, unwrap_or, builtin_claude, bypass_permission_mode,
  assemble_argv, resumed, rendered, not_empty, replace_all, substitutions,
}
use stackhour.Core.Engine.Argv.{assemble_argv-inserted, before_sentinel, sentinel, inserted}
use stackhour.Core.Engine.Plain.{
  no_brace, replace_all-no_brace, subst_model, subst_system_prompt, subst_session_id,
  subst_permission_mode, pair, plain, rendered-pair, no_partial, model_flag,
}

subst_allowed_tools :
    (vars : ArgvVars)
    → no_brace (join "," vars.allow_tools) ≡ true
    → subst vars "{{allowed_tools}}" ≡ join "," vars.allow_tools
unfolding subst
subst_allowed_tools vars h =
    let rest = drop 6 (substitutions vars) in
    let tools = join "," vars.allow_tools in
    ap (replace_all rest) (TextLemmas.append-nil tools)
    ∙ replace_all-no_brace rest tools (refl, tt) h

subst_disallowed_tools :
    (vars : ArgvVars)
    → no_brace (join "," vars.deny_tools) ≡ true
    → subst vars "{{disallowed_tools}}" ≡ join "," vars.deny_tools
unfolding subst
subst_disallowed_tools vars h =
    let rest = drop 7 (substitutions vars) in
    let tools = join "," vars.deny_tools in
    ap (replace_all rest) (TextLemmas.append-nil tools) ∙ replace_all-no_brace rest tools tt h

-- a flag with the tools, if there are any
abbrev pub tools_pair : String → List String → List String
tools_pair name [] = []
tools_pair name (t ∷ ts) = name ∷ join "," (t ∷ ts) ∷ []

rendered-tools :
    (vars : ArgvVars) (name placeholder : String) (tools : List String)
    → subst vars name ≡ name
    → subst vars placeholder ≡ join "," tools
    → rendered (not_empty tools) vars (some (name ∷ placeholder ∷ [])) ≡ tools_pair name tools
rendered-tools vars name placeholder [] fixed fits = refl
rendered-tools vars name placeholder (t ∷ ts) fixed fits = rw (fixed, fits) refl

abbrev pub live_flag : Bool → List String
live_flag b = if b then "--include-partial-messages" ∷ [] else []

abbrev pub mode_of : Option String → String
mode_of mode = unwrap_or mode "default"

no_bypass : (b : Bool) (x y : List String) → (if b && false then x else y) ≡ y
no_bypass true x y = refl
no_bypass false x y = refl

claude_permission :
    (mode : Option String)
    → no_brace (mode_of mode) ≡ true
    → permission_argv builtin_claude mode ≡ "--permission-mode" ∷ mode_of mode ∷ []
unfolding permission_argv subst
claude_permission mode h =
    let vars : ArgvVars = record default_vars { permission_mode = some (mode_of mode) } in
    no_bypass (str_eq (mode_of mode) bypass_permission_mode) _ _
    ∙ ap (λ (s : String). "--permission-mode" ∷ s ∷ [])
        (subst_permission_mode vars (mode_of mode) refl h)

-- no value that is put into claude's arguments holds an opening brace
pub record IsPlain (vars : ArgvVars) : Type 0 where
  pub session : plain vars.session_id ≡ true
  pub model : plain vars.model ≡ true
  pub mode : no_brace (mode_of vars.permission_mode) ≡ true
  pub system : plain vars.system_prompt ≡ true
  pub allowed : no_brace (join "," vars.allow_tools) ≡ true
  pub disallowed : no_brace (join "," vars.deny_tools) ≡ true

abbrev claude_options : ArgvVars → List String
claude_options vars =
    live_flag vars.live_status
    ++ ("--permission-mode"
        ∷ mode_of vars.permission_mode
        ∷ (pair "--append-system-prompt" vars.system_prompt
            ++ (pair "--model" vars.model
                ++ (tools_pair "--allowedTools" vars.allow_tools
                    ++ tools_pair "--disallowedTools" vars.deny_tools))))

claude_flags :
    (vars : ArgvVars)
    → (subst vars "--append-system-prompt" ≡ "--append-system-prompt")
      × (subst vars "--allowedTools" ≡ "--allowedTools")
      × (subst vars "--disallowedTools" ≡ "--disallowedTools")
      × (subst vars "--resume" ≡ "--resume")
unfolding subst
claude_flags vars = (refl, refl, refl, refl)

claude_inserted :
    (vars : ArgvVars) → IsPlain vars → inserted builtin_claude vars ≡ claude_options vars
claude_inserted vars h =
    rw
      (
        claude_permission vars.permission_mode h.mode,
        no_partial (is_some vars.effort),
        rendered-pair vars "--append-system-prompt" "{{system_prompt}}" vars.system_prompt
            (claude_flags vars).0
            (λ s given.
              subst_system_prompt vars s (ap (λ (o : Option String). unwrap_or o "") given))
            h.system,
        rendered-pair vars "--model" "{{model}}" vars.model (model_flag vars)
            (λ s given. subst_model vars s (ap (λ (o : Option String). unwrap_or o "") given))
            h.model,
        rendered-tools vars "--allowedTools" "{{allowed_tools}}" vars.allow_tools
            (claude_flags vars).1 (subst_allowed_tools vars h.allowed),
        rendered-tools vars "--disallowedTools" "{{disallowed_tools}}" vars.deny_tools
            (claude_flags vars).2 (subst_disallowed_tools vars h.disallowed),
      )
      refl

claude_session :
    (vars : ArgvVars) (v : Option String) (out : List String)
    → plain v ≡ true
    → ((sid : String) → v ≡ some sid → unwrap_or vars.session_id "" ≡ sid)
    → (elim v [
      | none ↦ out
      | some sid ↦ out ++ map (subst vars) ("--resume" ∷ "{{session_id}}" ∷ [])
    ])
      ≡ out ++ pair "--resume" v
claude_session vars none out h given = sym (append-nil out)
claude_session vars (some sid) out h given =
    rw ((claude_flags vars).3, subst_session_id vars sid (given sid refl) h) refl

resumed_claude :
    (vars : ArgvVars) (out : List String)
    → IsPlain vars
    → resumed builtin_claude vars out ≡ out ++ pair "--resume" vars.session_id
unfolding resumed
resumed_claude vars out h =
    claude_session vars vars.session_id out h.session
      (λ sid given. ap (λ (o : Option String). unwrap_or o "") given)

-- For claude the arguments are, whatever the variables are: `-p --output-format stream-json
-- --verbose`, the partial-messages flag if the status is live, the permission mode, the system
-- prompt, model, allowed and denied tools where there are any, and the session to resume if there is
-- one. None of these values holds an opening brace.
pub claude_argv :
    (vars : ArgvVars)
    → IsPlain vars
    → assemble_argv builtin_claude vars
      ≡ ("-p"
          ∷ "--output-format"
          ∷ "stream-json"
          ∷ "--verbose"
          ∷ (live_flag vars.live_status
              ++ ("--permission-mode"
                  ∷ mode_of vars.permission_mode
                  ∷ (pair "--append-system-prompt" vars.system_prompt
                      ++ (pair "--model" vars.model
                          ++ (tools_pair "--allowedTools" vars.allow_tools
                              ++ tools_pair "--disallowedTools" vars.deny_tools))))))
        ++ pair "--resume" vars.session_id
unfolding subst before_sentinel sentinel
claude_argv vars h =
    let front : List String → List String =
      λ l. "-p" ∷ "--output-format" ∷ "stream-json" ∷ "--verbose" ∷ l in
    assemble_argv-inserted builtin_claude vars
    ∙ resumed_claude vars (front (inserted builtin_claude vars) ++ []) h
    ∙ ap (λ (l : List String). l ++ pair "--resume" vars.session_id)
        (append-nil (front (inserted builtin_claude vars)) ∙ ap front (claude_inserted vars h))
