-- ===== src/Domain/Event.antt =====
-- `EventDraft`, `Event` and their builders, of crates/stackhour-domain/src/event.rs.
use stackhour.Prelude.{ℕ, String, Option, none, some, ℤ, pos}
use stackhour.Domain.Ids.{TaskId, RunId, EventId, CommandId, NodeId, Time}
use stackhour.Domain.EventKind.{EventKind}
use stackhour.Domain.Json.{Value, null}

abbrev pub protocol_version_now : ℤ
protocol_version_now = pos 5

pub record EventDraft : Type 0 where
  pub kind : EventKind
  pub task_id : TaskId
  pub run_id : Option RunId
  pub provider_session_id : Option String
  pub node_id : NodeId
  pub protocol_version : ℤ
  pub occurred_at : Time
  pub payload : Value

-- `EventDraft::new`; `now` is `Utc::now()`.
unfoldable pub new : EventKind → TaskId → NodeId → Time → EventDraft
new kind task_id node_id now = record {
  kind = kind;
  task_id = task_id;
  run_id = none;
  provider_session_id = none;
  node_id = node_id;
  protocol_version = protocol_version_now;
  occurred_at = now;
  payload = null;
}

unfoldable pub with_run : EventDraft → RunId → EventDraft
with_run d run_id = record d { run_id = some run_id }

unfoldable pub with_payload : EventDraft → Value → EventDraft
with_payload d payload = record d { payload = payload }

pub record Event : Type 0 where
  pub sequence : ℕ
  pub event_id : EventId
  pub command_id : Option CommandId
  pub kind : EventKind
  pub task_id : TaskId
  pub run_id : Option RunId
  pub provider_session_id : Option String
  pub node_id : NodeId
  pub protocol_version : ℤ
  pub occurred_at : Time
  pub hub_received_at : Time
  pub payload : Value
