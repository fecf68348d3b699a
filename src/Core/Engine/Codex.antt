-- ===== src/Core/Engine/Codex.antt =====
-- The arguments of codex.
use mathlib.Core.List.{append-nil}
use stackhour.Prelude.{
  ℕ, suc, String, ◌≡◌, refl, ap, ◌∙◌, true, Option, none, some, List, [], ◌∷◌, ◌++◌, str_eq,
  if◌then◌else◌, is_some, arith, Bool-cases, inl, inr, length, min, drop,
}
use stackhour.Core.Text.{replace}
use stackhour.Core.Engine.{
  ArgvVars, subst, permission_argv, unwrap_or, builtin_codex, bypass_permission_mode,
  bypass_sandbox_flag, assemble_argv, resumed, rendered, insert_at, sentinel_at, not_empty,
  replace_all, substitutions,
}
use stackhour.Core.Engine.Argv.{
  assemble_argv-inserted, before_sentinel, sentinel, inserted, insert_at-append, sentinel_at-length,
}
use stackhour.Core.Engine.Plain.{
  no_brace, replace_all-no_brace, subst_model, pair, plain, rendered-pair, no_partial, model_flag,
  no_brace-append,
}

before_sentinel-dash : (xs : List String) → before_sentinel (xs ++ "-" ∷ []) ≡ xs
unfolding before_sentinel
before_sentinel-dash [] = refl
before_sentinel-dash (x ∷ []) = refl
before_sentinel-dash (x ∷ y ∷ rest) =
    ap (λ (l : List String). x ∷ l) (before_sentinel-dash (y ∷ rest))

-- the permission that codex is started with
abbrev pub sandbox : Option String → List String
sandbox mode =
    if str_eq (unwrap_or mode "default") bypass_permission_mode
    then bypass_sandbox_flag ∷ []
    else "--sandbox" ∷ "workspace-write" ∷ []

codex_permission : (mode : Option String) → permission_argv builtin_codex mode ≡ sandbox mode
unfolding permission_argv subst
codex_permission mode =
    elim (Bool-cases (str_eq (unwrap_or mode "default") bypass_permission_mode)) [
      | inl bypass ↦ rw bypass refl
      | inr other ↦ rw other refl
    ]

min-one : (n : ℕ) → min 1 (suc n) ≡ 1
min-one n = omega arith

sentinel_at-append : (xs : List String) → sentinel_at (xs ++ "-" ∷ []) ≡ length xs
sentinel_at-append xs = sentinel_at-length (xs ++ "-" ∷ []) ∙ ap length (before_sentinel-dash xs)

insert_at-zero : (item : String) (ys : List String) → insert_at 0 item ys ≡ item ∷ ys
unfolding insert_at
insert_at-zero item [] = refl
insert_at-zero item (y ∷ ys) = refl

before_dash :
    (sid : String) (xs : List String)
    → insert_at (sentinel_at (xs ++ "-" ∷ [])) sid (xs ++ "-" ∷ []) ≡ xs ++ sid ∷ "-" ∷ []
before_dash sid xs =
    ap (λ (n : ℕ). insert_at n sid (xs ++ "-" ∷ [])) (sentinel_at-append xs)
    ∙ insert_at-append xs ("-" ∷ []) sid

-- the words of a resumed session
abbrev pub resume_word : Option String → List String
resume_word none = []
resume_word (some sid) = "resume" ∷ []

abbrev pub session_word : Option String → List String
session_word none = []
session_word (some sid) = sid ∷ []

with_session : Option String → List String → List String
unfolding insert_at sentinel_at
with_session none out = out
with_session (some sid) out =
    let out' = insert_at (min 1 (length out)) "resume" out in insert_at (sentinel_at out') sid out'

with_session_lem :
    (sid : Option String) (xs : List String)
    → with_session sid ("exec" ∷ (xs ++ "-" ∷ []))
      ≡ "exec" ∷ (resume_word sid ++ (xs ++ (session_word sid ++ "-" ∷ [])))
unfolding with_session
with_session_lem none xs = refl
with_session_lem (some sid) xs =
    ap (λ (out : List String). insert_at (sentinel_at out) sid out)
      (ap (λ (n : ℕ). insert_at n "resume" ("exec" ∷ (xs ++ "-" ∷ [])))
          (min-one (length (xs ++ "-" ∷ [])))
        ∙ ap (λ (l : List String). "exec" ∷ l) (insert_at-zero "resume" (xs ++ "-" ∷ [])))
    ∙ before_dash sid ("exec" ∷ "resume" ∷ xs)

resumed_codex :
    (vars : ArgvVars) (out : List String)
    → resumed builtin_codex vars out ≡ with_session vars.session_id out
unfolding resumed with_session
resumed_codex vars out = ground arith

abbrev effort_template : String
effort_template = "model_reasoning_effort=\"{{effort}}\""

abbrev pub effort_pair : Option String → List String
effort_pair none = []
effort_pair (some e) = "-c" ∷ replace "{{effort}}" e effort_template ∷ []

subst_effort :
    (vars : ArgvVars) (e : String)
    → unwrap_or vars.effort "" ≡ e
    → no_brace e ≡ true
    → subst vars effort_template ≡ replace "{{effort}}" e effort_template
unfolding subst
subst_effort vars e given h =
    let rest = drop 5 (substitutions vars) in
    ap (λ (v : String). replace_all rest (replace "{{effort}}" v effort_template)) given
    ∙ replace_all-no_brace rest (replace "{{effort}}" e effort_template) (refl, (refl, tt))
        (no_brace-append e "\"" h refl)

rendered-effort :
    (vars : ArgvVars) (v : Option String)
    → (plain v ≡ true)
    → ((e : String) → v ≡ some e → unwrap_or vars.effort "" ≡ e)
    → rendered (is_some v) vars (some ("-c" ∷ effort_template ∷ [])) ≡ effort_pair v
unfolding subst
rendered-effort vars none h given = refl
rendered-effort vars (some e) h given =
    ap (λ (t : String). "-c" ∷ t ∷ []) (subst_effort vars e (given e refl) h)

codex_inserted :
    (vars : ArgvVars)
    → plain vars.model ≡ true
    → plain vars.effort ≡ true
    → inserted builtin_codex vars
      ≡ sandbox vars.permission_mode ++ (pair "--model" vars.model ++ effort_pair vars.effort)
codex_inserted vars model effort =
    rw
      (
        no_partial vars.live_status,
        codex_permission vars.permission_mode,
        no_partial (is_some vars.system_prompt),
        no_partial (not_empty vars.allow_tools),
        no_partial (not_empty vars.deny_tools),
        append-nil (rendered (is_some vars.effort) vars builtin_codex.effort_args),
        rendered-pair vars "--model" "{{model}}" vars.model (model_flag vars)
            (λ s given. subst_model vars s (ap (λ (o : Option String). unwrap_or o "") given))
            model,
        rendered-effort vars vars.effort effort
            (λ e given. ap (λ (o : Option String). unwrap_or o "") given),
      )
      refl

-- For codex the arguments are, whatever the variables are: `exec`, `resume` if there is a session,
-- `--json --skip-git-repo-check`, the sandbox or its bypass, the model if there is one, the effort if
-- there is one, the session if there is one, and a last `-`. Neither the model nor the effort holds an
-- opening brace.
pub codex_argv :
    (vars : ArgvVars)
    → plain vars.model ≡ true
    → plain vars.effort ≡ true
    → assemble_argv builtin_codex vars
      ≡ "exec"
        ∷ (resume_word vars.session_id
            ++ (("--json"
                  ∷ "--skip-git-repo-check"
                  ∷ (sandbox vars.permission_mode
                      ++ (pair "--model" vars.model ++ effort_pair vars.effort)))
                ++ (session_word vars.session_id ++ "-" ∷ [])))
unfolding subst before_sentinel resumed sentinel
codex_argv vars model effort =
    let front : List String → List String = λ l. "--json" ∷ "--skip-git-repo-check" ∷ l in
    assemble_argv-inserted builtin_codex vars
    ∙ resumed_codex vars ("exec" ∷ (front (inserted builtin_codex vars) ++ "-" ∷ []))
    ∙ with_session_lem vars.session_id (front (inserted builtin_codex vars))
    ∙ ap
        (λ (l : List String).
          "exec"
          ∷ (resume_word vars.session_id
              ++ (front l ++ (session_word vars.session_id ++ "-" ∷ []))))
        (codex_inserted vars model effort)
