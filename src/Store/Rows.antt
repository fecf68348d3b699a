-- ===== src/Store/Rows.antt =====
-- The tables' rows, as the columns of the schema in crates/stackhour-domain/src/store.rs, and the
-- mappers between rows and values.
use stackhour.Prelude.{ℕ, String, Option, none, some, List, ℤ}
pub mod Roundtrip
use stackhour.Result.{Result, ok, err, conversion, or_fail, map_err, ◌>>=◌}
use stackhour.Domain.Ids.{Uuid, TaskId, RunId, EventId, CommandId, NodeId, Time}
use stackhour.Domain.Codec.{Codec}
use stackhour.Domain.EventKind
use stackhour.Domain.TaskStatus
use stackhour.Domain.RunStatus
use stackhour.Domain.AccessPolicy
use stackhour.Domain.Decision
use stackhour.Domain.ConnectionStatus
use stackhour.Domain.Event.{Event, EventDraft}
use stackhour.Domain.Entities.{Node, Task, Run, Approval}

pub record EventRow : Type 0 where
  pub sequence : ℕ
  pub event_id : String
  pub command_id : Option String
  pub kind : String
  pub task_id : String
  pub run_id : Option String
  pub provider_session_id : Option String
  pub node_id : String
  pub protocol_version : ℤ
  pub occurred_at : String
  pub hub_received_at : String
  pub payload : String

pub record ReceiptRow : Type 0 where
  pub command_id : String
  pub sequence : ℕ
  pub event_id : String
  pub received_at : String

pub record TaskRow : Type 0 where
  pub task_id : String
  pub title : String
  pub status : String
  pub created_at : String

pub record RunRow : Type 0 where
  pub run_id : String
  pub task_id : String
  pub node_id : String
  pub engine : String
  pub model : Option String
  pub reasoning_effort : Option String
  pub system_prompt : Option String
  pub access_policy : String
  pub workspace_path : Option String
  pub status : String
  pub started_at : String

pub record ApprovalRow : Type 0 where
  pub approval_id : String
  pub run_id : String
  pub task_id : String
  pub tool_call_id : String
  pub scope : String
  pub options : String
  pub expires_at : Option String
  pub decision : String
  pub resolved_by : Option String
  pub created_at : String
  pub resolved_at : Option String

pub record NodeRow : Type 0 where
  pub node_id : String
  pub label : String
  pub status : String
  pub software_version : String
  pub capabilities : String
  pub last_seen_sequence : Option ℤ

pub record DispatchRow : Type 0 where
  pub command_id : String
  pub node_id : String
  pub message : String
  pub created_at : String
  pub acked_at : Option String

pub record SettingRow : Type 0 where
  pub key : String
  pub value : String
  pub updated_at : String

pub record WorkerRow : Type 0 where
  pub task_id : String
  pub channel : String
  pub created_at : String

pub record WakeRow : Type 0 where
  pub event_id : String
  pub sequence : ℕ
  pub channel : String
  pub task_id : String
  pub run_id : String
  pub kind : String
  pub created_at : String
  pub attempt_count : ℕ
  pub next_attempt_at : String
  pub last_error : Option String
  pub processed_at : Option String

abbrev pub map_text : (ℕ → String) → Option ℕ → Option String
map_text f none = none
map_text f (some u) = some (f u)

module _ (c : Codec) where
  abbrev pub req_id : String → Result Uuid
  req_id s = or_fail (c.parse_uuid s) conversion

  abbrev pub opt_id : Option String → Result (Option Uuid)
  opt_id none = ok none
  opt_id (some s) = do u ← req_id s; ok (some u)

  abbrev pub read_time : String → Result Time
  read_time s = or_fail (c.parse_time s) conversion

  abbrev pub opt_time : Option String → Result (Option Time)
  opt_time none = ok none
  opt_time (some s) = do t ← read_time s; ok (some t)

  -- the parameters of the INSERT of `insert_event`
  unfoldable pub event_row : ℕ → EventId → Option CommandId → EventDraft → Time → EventRow
  event_row sequence event_id command_id draft received_at = record {
    sequence = sequence;
    event_id = c.uuid_text event_id;
    command_id = map_text c.uuid_text command_id;
    kind = EventKind.as_str draft.kind;
    task_id = c.uuid_text draft.task_id;
    run_id = map_text c.uuid_text draft.run_id;
    provider_session_id = draft.provider_session_id;
    node_id = draft.node_id;
    protocol_version = draft.protocol_version;
    occurred_at = c.time_text draft.occurred_at;
    hub_received_at = c.time_text received_at;
    payload = c.json_text draft.payload;
  }

  unfoldable pub row_to_event : EventRow → Result Event
  row_to_event row = do
    kind ← or_fail (EventKind.from_dotted row.kind) conversion
    payload ← or_fail (c.parse_json row.payload) conversion
    event_id ← req_id row.event_id
    command_id ← opt_id row.command_id
    task_id ← req_id row.task_id
    run_id ← opt_id row.run_id
    occurred_at ← read_time row.occurred_at
    hub_received_at ← read_time row.hub_received_at
    ok (record {
      sequence = row.sequence;
      event_id = event_id;
      command_id = command_id;
      kind = kind;
      task_id = task_id;
      run_id = run_id;
      provider_session_id = row.provider_session_id;
      node_id = row.node_id;
      protocol_version = row.protocol_version;
      occurred_at = occurred_at;
      hub_received_at = hub_received_at;
      payload = payload;
    })

  unfoldable pub task_row : Task → TaskRow
  task_row t = record {
    task_id = c.uuid_text t.id;
    title = t.title;
    status = TaskStatus.as_str t.status;
    created_at = c.time_text t.created_at;
  }

  unfoldable pub row_to_task : TaskRow → Result Task
  row_to_task row = do
    id ← req_id row.task_id
    status ← map_err (TaskStatus.from_db row.status) conversion
    created_at ← read_time row.created_at
    ok (record { id = id; title = row.title; status = status; created_at = created_at })

  unfoldable pub run_row : Run → RunRow
  run_row r = record {
    run_id = c.uuid_text r.id;
    task_id = c.uuid_text r.task_id;
    node_id = r.node_id;
    engine = r.engine;
    model = r.model;
    reasoning_effort = r.reasoning_effort;
    system_prompt = r.system_prompt;
    access_policy = AccessPolicy.as_str r.access_policy;
    workspace_path = r.workspace_path;
    status = RunStatus.as_str r.status;
    started_at = c.time_text r.started_at;
  }

  unfoldable pub row_to_run : RunRow → Result Run
  row_to_run row = do
    id ← req_id row.run_id
    task_id ← req_id row.task_id
    access_policy ← map_err (AccessPolicy.from_db row.access_policy) conversion
    status ← map_err (RunStatus.from_db row.status) conversion
    started_at ← read_time row.started_at
    ok (record {
      id = id;
      task_id = task_id;
      node_id = row.node_id;
      engine = row.engine;
      model = row.model;
      reasoning_effort = row.reasoning_effort;
      system_prompt = row.system_prompt;
      access_policy = access_policy;
      workspace_path = row.workspace_path;
      status = status;
      started_at = started_at;
    })

  -- the parameters of the INSERT of `request_approval`, where `resolved_by` and `resolved_at` are NULL
  unfoldable pub approval_row : Approval → ApprovalRow
  approval_row a = record {
    approval_id = c.uuid_text a.id;
    run_id = c.uuid_text a.run_id;
    task_id = c.uuid_text a.task_id;
    tool_call_id = a.tool_call_id;
    scope = a.scope;
    options = c.texts_text a.options;
    expires_at = map_text c.time_text a.expires_at;
    decision = Decision.as_str a.decision;
    resolved_by = none;
    created_at = c.time_text a.created_at;
    resolved_at = none;
  }

  unfoldable pub row_to_approval : ApprovalRow → Result Approval
  row_to_approval row = do
    options ← or_fail (c.parse_texts row.options) conversion
    id ← req_id row.approval_id
    run_id ← req_id row.run_id
    task_id ← req_id row.task_id
    expires_at ← opt_time row.expires_at
    decision ← map_err (Decision.from_db row.decision) conversion
    created_at ← read_time row.created_at
    resolved_at ← opt_time row.resolved_at
    ok (record {
      id = id;
      run_id = run_id;
      task_id = task_id;
      tool_call_id = row.tool_call_id;
      scope = row.scope;
      options = options;
      expires_at = expires_at;
      decision = decision;
      resolved_by = row.resolved_by;
      created_at = created_at;
      resolved_at = resolved_at;
    })

  unfoldable pub node_row : Node → NodeRow
  node_row n = record {
    node_id = n.id;
    label = n.label;
    status = ConnectionStatus.as_str n.status;
    software_version = n.software_version;
    capabilities = c.json_text n.capabilities;
    last_seen_sequence = n.last_seen_sequence;
  }

  unfoldable pub row_to_node : NodeRow → Result Node
  row_to_node row = do
    capabilities ← or_fail (c.parse_json row.capabilities) conversion
    status ← map_err (ConnectionStatus.from_db row.status) conversion
    ok (record {
      id = row.node_id;
      label = row.label;
      status = status;
      software_version = row.software_version;
      capabilities = capabilities;
      last_seen_sequence = row.last_seen_sequence;
    })
