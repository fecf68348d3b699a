-- ===== src/Examples/World.antt =====
-- A small database: one task with a run, and a dispatched prompt.
use stackhour.Prelude.{none, some, List, [], ◌∷◌, pos, ◌≡◌, refl, true}
use stackhour.Domain.Codec.{Codec, IsLawful}
use stackhour.Domain.Json.{null}
use stackhour.Domain.Protocol.{HubToNode}
use stackhour.Domain.EventKind.{message_user, run_completed}
use stackhour.Domain.Event.{EventDraft}
use stackhour.Domain.TaskStatus
use stackhour.Domain.RunStatus
use stackhour.Domain.AccessPolicy
use stackhour.Domain.Entities.{Task, Run}
use stackhour.Store.Db.{Db, empty}
use stackhour.Result.{ok}
use stackhour.Store.Rows.{event_row, task_row, run_row}
use stackhour.Store.Append
use stackhour.Store.Append.{
  AppendOutcome, no_entity, task_entity, append_command_bundle, append_node_event,
}
use stackhour.Store.Machine
use stackhour.Store.Machine.{Step, history}
use stackhour.Examples.Unary.{unary, unary-IsLawful}

abbrev pub codec : Codec
codec = unary HubToNode.heartbeat

pub codec-IsLawful : IsLawful codec
codec-IsLawful = unary-IsLawful HubToNode.heartbeat

abbrev pub prompt : EventDraft
prompt = record {
  kind = message_user;
  task_id = 1;
  run_id = some 2;
  provider_session_id = none;
  node_id = "hub";
  protocol_version = pos 5;
  occurred_at = 3;
  payload = null;
}

abbrev pub completion : EventDraft
completion = record prompt { kind = run_completed; node_id = "laptop" }

abbrev pub a_task : Task
a_task = record { id = 1; title = "port"; status = TaskStatus.running; created_at = 1 }

abbrev pub a_run : Run
a_run = record {
  id = 2;
  task_id = 1;
  node_id = "laptop";
  engine = "codex";
  model = none;
  reasoning_effort = none;
  system_prompt = none;
  access_policy = AccessPolicy.supervised;
  workspace_path = none;
  status = RunStatus.started;
  started_at = 2;
}

-- a task, its run, the assistant's interest in it, and one dispatched command
abbrev pub steps : List Step
steps =
    Machine.task_row a_task
    ∷ Machine.run_row a_run
    ∷ Machine.worker 2 "chat" 1
    ∷ Machine.command 3 7 8 prompt no_entity (some ("laptop", HubToNode.heartbeat))
    ∷ []

-- the same tables, written out
abbrev pub world : Db
world = record empty {
  events = event_row codec 1 7 (some 8) prompt 3 ∷ [];
  command_receipts =
      record {
        command_id = codec.uuid_text 8;
        sequence = 1;
        event_id = codec.uuid_text 7;
        received_at = codec.time_text 3;
      }
      ∷ [];
  tasks = task_row codec a_task ∷ [];
  runs = run_row codec a_run ∷ [];
  assistant_workers =
      record { task_id = codec.uuid_text 1; channel = "chat"; created_at = codec.time_text 2 } ∷ [];
}

-- the dispatched command on the empty tables
abbrev pub dispatched : Db
dispatched =
    (append_command_bundle codec 3 7 8 prompt (task_entity a_task)
      (some ("laptop", HubToNode.heartbeat)) empty).1

abbrev pub first_outcome : AppendOutcome
first_outcome = record { sequence = 1; event_id = 7; created = true }

pub dispatched_lem :
    append_command_bundle codec 3 7 8 prompt
      (task_entity a_task)
      (some ("laptop", HubToNode.heartbeat))
      empty
    ≡ (ok first_outcome, dispatched)
unfolding append_command_bundle stackhour.Store.Append.bundle stackhour.Sql.first
    stackhour.Store.Append.append_new stackhour.Store.Tables.next_sequence stackhour.Sql.max_of
    stackhour.Store.Tables.insert_event stackhour.Sql.insert
    stackhour.Store.Tables.insert_receipt_row stackhour.Store.Append.write_entity
    stackhour.Store.Append.write_dispatch
dispatched_lem = refl

-- the run's completion, on the tables of its task, its run and its worker
abbrev pub second_outcome : AppendOutcome
second_outcome = record { sequence = 2; event_id = 20; created = true }

abbrev pub finished : Db
finished = (append_node_event codec 5 20 completion world).1

pub finished_lem : append_node_event codec 5 20 completion world ≡ (ok second_outcome, finished)
unfolding append_node_event Append.node_event Append.append_fresh_node_event
    Append.apply_terminal_lifecycle_and_wake Append.wake_assistant Append.terminal_effect
    Append.worker_channel Append.set_run_status Append.set_task_status Append.insert_wake_row
    Append.find_event stackhour.Sql.first stackhour.Sql.exists stackhour.Sql.insert
    stackhour.Sql.update stackhour.Sql.max_of stackhour.Store.Tables.next_sequence
    stackhour.Store.Tables.insert_event event_row unary stackhour.Examples.Unary.strokes
finished_lem = refl
