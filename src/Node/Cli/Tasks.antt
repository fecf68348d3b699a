-- ===== src/Node/Cli/Tasks.antt =====
-- The tasks that `dispatch` spawns, of crates/stackhour-node/src/engine.rs.
use Prim.Native.String
use stackhour.Prelude.{
  ℤ, pos, eq_ℤ, String, Bool, true, false, Option, none, some, List, ◌&&◌, not, if◌then◌else◌,
  is_some,
}
use stackhour.Domain.Ids.{TaskId, RunId, EventId, CommandId, NodeId, Time}
use stackhour.Domain.EventKind.{
  EventKind, run_failed, run_completed, run_interrupted, message_assistant_completed,
}
use stackhour.Domain.Event.{new, with_run, with_payload}
use stackhour.Domain.Json.{Value, null, num, str, obj, no_members, member}
use stackhour.Hub.Table
use stackhour.Core.Text.{trim, is_empty}
use stackhour.Node.Process.{RunResult}
use stackhour.Node.Outbox.{ack, emit, emit_draft}
use stackhour.Node.Cli.State.{
  RunSpec, Task, acknowledge, refuse, watch, CliState, Engine, same_id, has, remove, spawn_task,
  unwrap_or,
}

-- the node's name, the clock and the fresh ids that a stretch of a task reads
pub record Fresh : Type 0 where
  pub node_id : NodeId
  pub now : Time
  pub first : EventId
  pub second : EventId

abbrev pub acked : CommandId → Engine → Engine
acked command_id e = record e { outbox = ack command_id e.outbox }

abbrev pub told : Fresh → EventId → EventKind → TaskId → RunId → Value → Engine → Engine
told fresh event_id kind task_id run_id payload e = record e {
  outbox = emit fresh.node_id event_id fresh.now kind task_id (some run_id) payload e.outbox;
}

abbrev pub error_payload : String → Value
error_payload error = obj (member "error" (str error) no_members)

abbrev pub keep_session : RunId → Option RunResult → List (RunId × String) → List (RunId × String)
keep_session run_id none sessions = sessions
keep_session run_id (some result) sessions = elim result.session_id [
  | none ↦ sessions
  | some session ↦ Table.insert same_id run_id session sessions
]

-- the end of a process: its tables are cleared, and its session is kept
abbrev pub clear : CommandId → RunId → Option RunResult → CliState → CliState
clear command_id run_id result s = record s {
  jobs = Table.remove same_id run_id s.jobs;
  command_runs = Table.remove same_id command_id s.command_runs;
  sessions = keep_session run_id result s.sessions;
  interrupted = remove run_id s.interrupted;
}

-- the answer of a process that succeeded
abbrev pub answered : Fresh → RunId → RunSpec → RunResult → Engine → Engine
answered fresh run_id spec result e =
    let draft =
      with_payload
        (with_run (new message_assistant_completed spec.task_id fresh.node_id fresh.now) run_id)
        (obj (member "text" (str result.text) no_members)) in
    record e {
      outbox =
          emit_draft fresh.first (record draft { provider_session_id = result.session_id })
            e.outbox;
    }

abbrev pub succeeded : RunResult → Bool
succeeded result =
    (elim result.code [ none ↦ false | some code ↦ eq_ℤ code (pos 0) ])
    && not (is_some result.error)

-- `number` is the decimal text of an exit code
module _ (number : ℤ → String) where
  abbrev debug_code : Option ℤ → String
  debug_code none = "None"
  debug_code (some code) = String.◌++◌ "Some(" (String.◌++◌ (number code) ")")

  abbrev error_of : RunResult → String
  error_of result = unwrap_or result.error (
      let stderr = trim result.stderr in
      if is_empty stderr
      then String.◌++◌ "engine exited with code " (debug_code result.code)
      else stderr)

  abbrev code_value : Option ℤ → Value
  code_value none = null
  code_value (some code) = num (number code)

  abbrev pub report : Fresh → RunId → RunSpec → Option RunResult → Engine → Engine
  report fresh run_id spec none e =
      told fresh fresh.first run_failed spec.task_id run_id
        (error_payload "engine supervisor failed") e
  report fresh run_id spec (some result) e =
      if succeeded result
      then told fresh fresh.second run_completed spec.task_id run_id (obj no_members)
          (answered fresh run_id spec result e)
      else told fresh fresh.first run_failed spec.task_id run_id
          (obj (
            member "error" (str (error_of result))
              (member "code" (code_value result.code) no_members)))
          e

  unfoldable pub finish : Fresh → CommandId → RunId → RunSpec → Option RunResult → Engine → Engine
  unfolding has remove
  finish fresh command_id run_id spec result e =
      let was_interrupted = has run_id e.state.interrupted in
      let e' = record e { state = clear command_id run_id result e.state } in
      if was_interrupted
      then told fresh fresh.first run_interrupted spec.task_id run_id (obj no_members) e'
      else report fresh run_id spec result e'

  -- one stretch of a task; `result` is what its process came to, where it waits for one
  unfoldable pub run_task : Fresh → Option RunResult → Task → Engine → Engine
  unfolding finish
  run_task fresh result (acknowledge command_id) e = acked command_id e
  run_task fresh result (refuse command_id task_id run_id error) e =
      told fresh fresh.first run_failed task_id run_id (error_payload error) (acked command_id e)
  run_task fresh result (watch false command_id run_id spec) e =
      spawn_task (watch true command_id run_id spec) (acked command_id e)
  run_task fresh result (watch true command_id run_id spec) e =
      finish fresh command_id run_id spec result e
