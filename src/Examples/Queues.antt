-- ===== src/Examples/Queues.antt =====
-- Dispatches, approvals and wakes.
use stackhour.Prelude.{◌+◌, ◌*◌, ◌≡◌, refl, none, some, List, [], ◌∷◌, leb, arith}
use stackhour.Result.{ok}
use stackhour.Sql
use stackhour.Domain.Decision
use stackhour.Domain.Entities.{Approval}
use stackhour.Store.Rows.{WakeRow}
use stackhour.Store.Db.{Db, empty}
use stackhour.Store.Append.{append_command_bundle, task_entity}
use stackhour.Store.Machine
use stackhour.Store.Machine.{Step, history}
use stackhour.Store.Dispatch.{waiting, acknowledge_dispatch_from}
use stackhour.Store.Dispatch.Queue.{left_by, acknowledge_dispatch_from-waiting}
use stackhour.Store.Reads.{get_approval}
use stackhour.Store.Approvals.{request_approval, resolve_approval}
use stackhour.Store.Approvals.Forever.{history-decided}
use stackhour.Store.Wakes.{
  delay_seconds, nanos_per_second, open_wake, due_rows, defer_assistant_wake,
}
use stackhour.Store.Wakes.Timing.{wake_of, defer_assistant_wake-due}
use stackhour.Examples.World.{codec, codec-IsLawful, dispatched, finished}

acknowledge_dispatch_from-waiting_example :
    waiting "laptop" (acknowledge_dispatch_from codec 4 8 "laptop" dispatched).1
    ≡ left_by (codec.uuid_text 8) "laptop" (waiting "laptop" dispatched)
acknowledge_dispatch_from-waiting_example =
    acknowledge_dispatch_from-waiting codec 4 8 "laptop" "laptop" dispatched

abbrev request : Approval
request = record {
  id = 30;
  run_id = 2;
  task_id = 1;
  tool_call_id = "call";
  scope = "shell";
  options = [];
  expires_at = some 50;
  decision = Decision.pending;
  resolved_by = none;
  created_at = 4;
  resolved_at = none;
}

abbrev asked : Db
asked = (request_approval codec 30 4 2 1 "call" "shell" [] (some 50) empty).1

abbrev answered : Approval
answered = record request {
  decision = Decision.denied;
  resolved_by = some "owner";
  resolved_at = some 6;
}

abbrev denied_db : Db
denied_db = (resolve_approval codec 30 Decision.denied "owner" 6 asked).1

denied_lem : get_approval codec 30 denied_db ≡ ok (some answered)
unfolding get_approval Sql.first resolve_approval stackhour.Store.Approvals.resolve request_approval
    Sql.insert stackhour.Examples.Unary.unary stackhour.Examples.Unary.strokes
    stackhour.Store.Rows.row_to_approval Decision.from_db Decision.as_str
    stackhour.Store.Approvals.settle_approval Sql.update stackhour.Examples.Unary.count_strokes
denied_lem = refl

abbrev attempts : List Step
attempts =
    Machine.resolution 30 Decision.allowed "guest" 9
    ∷ Machine.approval 30 10 2 1 "call" "shell" [] none
    ∷ []

history-decided_example :
    get_approval codec 30 (history codec attempts denied_db) ≡ ok (some answered)
unfolding stackhour.Domain.Entities.is_pending
history-decided_example = history-decided codec 30 answered attempts denied_db denied_lem refl

abbrev wake : WakeRow
wake = record {
  event_id = codec.uuid_text 20;
  sequence = 2;
  channel = "chat";
  task_id = codec.uuid_text 1;
  run_id = codec.uuid_text 2;
  kind = "run.completed";
  created_at = codec.time_text 5;
  attempt_count = 0;
  next_attempt_at = codec.time_text 5;
  last_error = none;
  processed_at = none;
}

wake_lem : Sql.first (open_wake (codec.uuid_text 20)) finished.assistant_wakes ≡ some wake
unfolding Sql.first stackhour.Store.Append.append_node_event stackhour.Store.Append.node_event
    stackhour.Store.Rows.event_row stackhour.Examples.Unary.unary stackhour.Examples.Unary.strokes
    stackhour.Store.Append.append_fresh_node_event stackhour.Store.Tables.next_sequence Sql.max_of
    stackhour.Store.Tables.insert_event Sql.insert
    stackhour.Store.Append.apply_terminal_lifecycle_and_wake stackhour.Store.Append.terminal_effect
    stackhour.Store.Append.set_run_status stackhour.Store.Append.set_task_status
    stackhour.Store.Append.wake_assistant stackhour.Store.Append.worker_channel
    stackhour.Domain.EventKind.as_str Sql.exists Sql.update stackhour.Store.Append.find_event
    stackhour.Store.Append.insert_wake_row stackhour.Store.Append.wake_row
wake_lem = refl

defer_assistant_wake-due_example :
    Sql.exists
      (wake_of (codec.uuid_text 20))
      (due_rows "chat" (codec.time_text 12) (defer_assistant_wake codec 10 20 "busy" finished).1)
    ≡ leb (10 + delay_seconds 1 * nanos_per_second) 12
unfolding delay_seconds
defer_assistant_wake-due_example =
    defer_assistant_wake-due codec codec-IsLawful 10 12 20 "busy" finished {r = wake} wake_lem
      (omega arith) (omega arith)
