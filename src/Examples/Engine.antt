-- ===== src/Examples/Engine.antt =====
-- The arguments and the output of engines.
use stackhour.Prelude.{◌≡◌, refl, none, some, [], ◌∷◌, ◌++◌, map}
use stackhour.Domain.Codec.{Codec}
use stackhour.Domain.Json.{obj, member, no_members, str}
use stackhour.Core.Text.{join}
use stackhour.Core.Engine.{
  ArgvVars, default_vars, builtin_codex, builtin_claude, subst, resumed, assemble_argv, codex_jsonl,
  plain_lines,
}
use stackhour.Core.Engine.Argv.{before_sentinel, sentinel, inserted, assemble_argv-inserted}
use stackhour.Core.Engine.Plain.{pair}
use stackhour.Core.Engine.Codex.{sandbox, resume_word, session_word, effort_pair, codex_argv}
use stackhour.Core.Engine.Claude.{live_flag, mode_of, tools_pair, IsPlain, claude_argv}
use stackhour.Node.Process.{new_stream, feed_all}
use stackhour.Node.Process.Output.{messages, last_thread, said, feed_all-codex, feed_all-plain}
use stackhour.Examples.World.{codec}

abbrev asked : ArgvVars
asked = record default_vars {
  session_id = some "s1";
  model = some "gpt";
  permission_mode = some "bypassPermissions";
  effort = some "high";
}

resumed_run :
    assemble_argv builtin_codex asked
    ≡ "exec" ∷ "resume" ∷ "--json" ∷ "--skip-git-repo-check"
      ∷ "--dangerously-bypass-approvals-and-sandbox" ∷ "--model" ∷ "gpt" ∷ "-c"
      ∷ "model_reasoning_effort=\"high\"" ∷ "s1" ∷ "-" ∷ []
unfolding assemble_argv
resumed_run = refl

-- a system prompt that names a placeholder loses it
expanded :
    subst
      (record default_vars { system_prompt = some "keep {{effort}} as it is" })
      "{{system_prompt}}"
    ≡ "keep  as it is"
unfolding subst
expanded = refl

assemble_argv-inserted_example :
    assemble_argv builtin_codex asked
    ≡ let base = map (subst asked) builtin_codex.args in
      resumed builtin_codex asked
        (before_sentinel base ++ inserted builtin_codex asked ++ sentinel base)
assemble_argv-inserted_example = assemble_argv-inserted builtin_codex asked

codex_argv_example :
    assemble_argv builtin_codex asked
    ≡ "exec"
      ∷ (resume_word asked.session_id
          ++ (("--json"
                ∷ "--skip-git-repo-check"
                ∷ (sandbox asked.permission_mode
                    ++ (pair "--model" asked.model ++ effort_pair asked.effort)))
              ++ (session_word asked.session_id ++ "-" ∷ [])))
codex_argv_example = codex_argv asked refl refl

asked-IsPlain : IsPlain asked
unfolding join
asked-IsPlain = record {
  session = refl;
  model = refl;
  mode = refl;
  system = refl;
  allowed = refl;
  disallowed = refl;
}

claude_argv_example :
    assemble_argv builtin_claude asked
    ≡ ("-p"
        ∷ "--output-format"
        ∷ "stream-json"
        ∷ "--verbose"
        ∷ (live_flag asked.live_status
            ++ ("--permission-mode"
                ∷ mode_of asked.permission_mode
                ∷ (pair "--append-system-prompt" asked.system_prompt
                    ++ (pair "--model" asked.model
                        ++ (tools_pair "--allowedTools" asked.allow_tools
                            ++ tools_pair "--disallowedTools" asked.deny_tools))))))
      ++ pair "--resume" asked.session_id
claude_argv_example = claude_argv asked asked-IsPlain

-- a codec that reads every line as one message
abbrev speaking : Codec
speaking = record codec {
  parse_json = λ s. some (
      obj (
        member "type" (str "item.completed") (
          member "item"
            (obj (member "type" (str "agent_message") (member "text" (str s) no_members)))
            no_members)));
}

two_messages :
    (feed_all speaking ("one" ∷ " " ∷ "two" ∷ []) (new_stream codex_jsonl none)).text ≡ "one\n\ntwo"
unfolding feed_all stackhour.Domain.Json.get_field
two_messages = refl

feed_all-codex_example :
    let s = feed_all speaking ("one" ∷ " " ∷ "two" ∷ []) (new_stream codex_jsonl none) in
    (s.text ≡ join "\n\n" (messages speaking ("one" ∷ " " ∷ "two" ∷ [])))
    × (s.session_id ≡ last_thread speaking ("one" ∷ " " ∷ "two" ∷ []) none)
feed_all-codex_example = feed_all-codex speaking ("one" ∷ " " ∷ "two" ∷ []) none

feed_all-plain_example :
    feed_all codec ("a" ∷ "" ∷ "b" ∷ []) (new_stream plain_lines (some "s")) ≡ record {
      kind = plain_lines;
      text = join "\n" (said codec ("a" ∷ "" ∷ "b" ∷ []));
      session_id = some "s";
    }
feed_all-plain_example = feed_all-plain codec ("a" ∷ "" ∷ "b" ∷ []) (some "s")
