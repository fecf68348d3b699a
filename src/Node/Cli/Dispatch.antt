-- ===== src/Node/Cli/Dispatch.antt =====
-- `dispatch` and `cancel` of `CliEngine`, of crates/stackhour-node/src/engine.rs.
use Prim.Native.String
use stackhour.Prelude.{
  ℕ, ◌+◌, String, Bool, true, false, Option, none, some, ◌∷◌, str_eq, if◌then◌else◌,
}
use stackhour.Domain.Ids.{TaskId, RunId, CommandId}
use stackhour.Domain.AccessPolicy.{AccessPolicy, full_access, supervised, automatic}
use stackhour.Domain.Protocol.{NodeWork, start_run, send_prompt, interrupt_run, update}
use stackhour.Hub.Table
use stackhour.Core.Engine.{EngineDef, builtin_claude, builtin_codex}
use stackhour.Node.Process.{RunRequest, apply_system_prompt, build_argv}
use stackhour.Node.Cli.State.{
  CliEngineConfig, RunSpec, Process, acknowledge, refuse, watch, Engine, same_id, has, spawn_task,
  stop_run, unwrap_or,
}

abbrev pub or_else : Option String → Option String → Option String
or_else none b = b
or_else (some a) b = some a

abbrev pub definition : String → Option EngineDef
definition engine =
    if str_eq engine "claude"
    then some builtin_claude
    else if str_eq engine "codex"
    then some builtin_codex
    else none

abbrev pub permission_mode : AccessPolicy → String
permission_mode full_access = "bypassPermissions"
permission_mode supervised = "default"
permission_mode automatic = "default"

abbrev pub configured_bin : CliEngineConfig → String → Option String
configured_bin config engine =
    if str_eq engine "claude"
    then config.claude_bin
    else if str_eq engine "codex"
    then config.codex_bin
    else none

abbrev pub run_request : CliEngineConfig → RunSpec → Option String → String → RunRequest
run_request config spec session_id text = record {
  prompt = text;
  session_id = session_id;
  model = spec.model;
  permission_mode = some (permission_mode spec.access_policy);
  system_prompt = spec.system_prompt;
  effort = spec.reasoning_effort;
  cwd = spec.workspace;
  live_status = true;
  bin = configured_bin config spec.engine;
}

-- `spawn_engine`, under the next number; `spawns` says that the operating system started the process
unfoldable pub spawn_engine : (spawns : Bool) → CommandId → EngineDef → RunRequest → Engine → Engine
spawn_engine spawns command_id def request e =
    let asked = apply_system_prompt def request in
    let process : Process = record {
      job = e.next_job;
      command_id = command_id;
      binary = unwrap_or asked.bin def.bin;
      argv = build_argv def asked;
      cwd = asked.cwd;
      prompt = asked.prompt;
    } in
    let e' = record e { next_job = e.next_job + 1 } in
    if spawns
    then (record e' { processes = process ∷ e.processes; live = e.next_job ∷ e.live })
    else e'

abbrev pub remember_job : RunId → CommandId → ℕ → Engine → Engine
remember_job run_id command_id job e = record e {
  state = record e.state {
    jobs = Table.insert same_id run_id job e.state.jobs;
    command_runs = Table.insert same_id command_id run_id e.state.command_runs;
  };
}

module _ (config : CliEngineConfig) where
  -- the arms of `match work` in `dispatch`, from a prompt on
  abbrev pub start_prompt :
      (spawns : Bool)
      → CommandId
      → TaskId
      → RunId
      → RunSpec
      → String
      → Option EngineDef
      → Engine
      → Engine
  start_prompt spawns command_id task_id run_id spec text none e =
      spawn_task (refuse command_id task_id run_id (String.◌++◌ "unsupported engine: " spec.engine))
        e
  start_prompt spawns command_id task_id run_id spec text (some def) e =
      let request = run_request config spec (Table.get same_id run_id e.state.sessions) text in
      spawn_task (watch false command_id run_id spec)
        (remember_job run_id command_id e.next_job (spawn_engine spawns command_id def request e))

  abbrev pub prompt_run :
      (spawns : Bool) → CommandId → TaskId → RunId → String → Option RunSpec → Engine → Engine
  prompt_run spawns command_id task_id run_id text none e =
      spawn_task (refuse command_id task_id run_id "run is not initialized on this node") e
  prompt_run spawns command_id task_id run_id text (some spec) e =
      start_prompt spawns command_id task_id run_id spec text (definition spec.engine) e

  -- the update itself starts another program and leaves this state alone
  unfoldable pub work_on : (spawns : Bool) → CommandId → NodeWork → Engine → Engine
  unfolding stop_run spawn_engine
  work_on spawns command_id (start_run run_id task_id spec) e =
      spawn_task (acknowledge command_id) (record e {
        state = record e.state {
          runs =
              Table.insert same_id run_id
                (record {
                  task_id = task_id;
                  engine = spec.engine;
                  model = spec.model;
                  reasoning_effort = spec.reasoning_effort;
                  system_prompt = spec.system_prompt;
                  access_policy = spec.access_policy;
                  workspace = or_else spec.workspace_path config.default_workspace;
                })
                e.state.runs;
        };
      })
  work_on spawns command_id (send_prompt task_id run_id text _) e =
      prompt_run spawns command_id task_id run_id text (Table.get same_id run_id e.state.runs) e
  work_on spawns command_id (interrupt_run run_id) e =
      spawn_task (acknowledge command_id) (stop_run run_id e)
  work_on spawns command_id (update version) e = spawn_task (acknowledge command_id) e

  unfoldable pub dispatch : (spawns : Bool) → CommandId → NodeWork → Engine → Engine
  unfolding work_on has
  dispatch spawns command_id work e =
      if has command_id e.state.seen
      then spawn_task (acknowledge command_id) e
      else work_on spawns command_id work
          (record e { state = record e.state { seen = command_id ∷ e.state.seen } })

unfoldable pub cancel : CommandId → Engine → Engine
unfolding stop_run
cancel command_id e = elim (Table.get same_id command_id e.state.command_runs) [
  | none ↦ e
  | some run_id ↦ stop_run run_id e
]
