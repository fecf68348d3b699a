-- ===== src/Hub/Commands/Parts.antt =====
-- The drafts, dispatches and refusals of `apply_command_inner`, of crates/stackhour-hub/src/lib.rs.
use stackhour.Prelude.{
  String, Bool, true, false, Option, none, some, str_eq, ◌&&◌, is_some, if◌then◌else◌,
}
use stackhour.Result.{Result, ok, err}
use stackhour.Domain.Ids.{Uuid, TaskId, RunId, EventId, CommandId, NodeId, Time}
use stackhour.Domain.Json.{Value, str, obj, no_members, member, or_null}
use stackhour.Domain.AccessPolicy
use stackhour.Domain.RunStatus
use stackhour.Domain.EventKind.{message_user, run_started}
use stackhour.Domain.Event.{EventDraft, new, with_run, with_payload}
use stackhour.Domain.Entities.{Run, Node}
use stackhour.Domain.Protocol.{
  ClientCommand, RunSpec, HubToNode, dispatch_command, NodeWork, ProtocolError, accepted_receipt,
  rejected_receipt,
}
use stackhour.Domain.Protocol
use stackhour.Store.Append.{AppendOutcome, EntityWrite, run_entity}
use stackhour.Hub.Table
use stackhour.Hub.State.{HubState, remember_run, route_to_node}
use stackhour.Hub.Checks.{node_accepts_engine}
use stackhour.Hub.Publish.{CommandEffect}

-- what the handler of one command takes from the clock and from `Uuid::new_v4`
pub record Fresh : Type 0 where
  pub id : Uuid
  pub event_id : EventId
  pub created_at : Time
  pub occurred_at : Time
  pub received_at : Time

abbrev pub hub_node : NodeId
hub_node = "hub"

abbrev pub system_task : TaskId
system_task = 0

abbrev pub rejected : CommandId → ProtocolError → CommandEffect
rejected command_id error = record { receipt = rejected_receipt command_id error; dispatch = none }

abbrev pub wanted : Option NodeId → NodeId → Bool
wanted none id = true
wanted (some preferred) id = str_eq preferred id

abbrev pub eligible : String → Option NodeId → HubState → Node → Bool
eligible engine preferred s node =
    wanted preferred node.id
    && (is_some (Table.get str_eq node.id s.nodes) && node_accepts_engine node.capabilities engine)

abbrev pub is_hub : Option NodeId → Bool
is_hub none = false
is_hub (some node) = str_eq node hub_node

abbrev pub node_or_hub : Option NodeId → NodeId
node_or_hub none = hub_node
node_or_hub (some node) = node

abbrev pub dispatch_to : CommandId → Option NodeId → NodeWork → Option (NodeId × HubToNode)
dispatch_to command_id none work = none
dispatch_to command_id (some node) work = some (node, dispatch_command command_id none work)

-- `.or_else(…)` on options
abbrev pub or_node : Option NodeId → Option NodeId → Option NodeId
or_node none other = other
or_node (some node) other = some node

-- the message's draft, whose run is the command's
abbrev pub user_message : Fresh → TaskId → Option RunId → NodeId → String → String → EventDraft
user_message fresh task_id run_id node text client_message_id =
    record (with_payload (new message_user task_id node fresh.occurred_at) (
      obj (
        member "text" (str text)
          (member "client_message_id" (str client_message_id) no_members)))) { run_id = run_id }

abbrev pub prompt_dispatch :
    CommandId
    → TaskId
    → Option RunId
    → Option NodeId
    → String
    → String
    → Option (NodeId × HubToNode)
prompt_dispatch command_id task_id none target text client_message_id = none
prompt_dispatch command_id task_id (some run_id) target text client_message_id =
    dispatch_to command_id target (NodeWork.send_prompt task_id run_id text client_message_id)

abbrev pub run_of_spec : Fresh → TaskId → NodeId → RunSpec → Run
run_of_spec fresh task_id node_id spec = record {
  id = fresh.id;
  task_id = task_id;
  node_id = node_id;
  engine = spec.engine;
  model = spec.model;
  reasoning_effort = spec.reasoning_effort;
  system_prompt = spec.system_prompt;
  access_policy = spec.access_policy;
  workspace_path = spec.workspace_path;
  status = RunStatus.started;
  started_at = fresh.created_at;
}

abbrev pub run_payload : RunSpec → Value
run_payload spec = obj (
    member "engine" (str spec.engine) (
      member "model" (or_null spec.model) (
        member "reasoning_effort" (or_null spec.reasoning_effort) (
          member "access_policy" (str (AccessPolicy.as_str spec.access_policy))
            (member "workspace_path" (or_null spec.workspace_path) no_members)))))

-- the binding is remembered for a genuinely started run
abbrev pub bind_run : RunId → NodeId → TaskId → CommandEffect × HubState → CommandEffect × HubState
bind_run run_id node_id task_id (effect, s) =
    (effect, if is_some effect.dispatch then remember_run run_id node_id task_id s else s)

abbrev pub task_of : Option (NodeId × TaskId) → TaskId
task_of none = system_task
task_of (some b) = b.1

abbrev pub bound_node : Option (NodeId × TaskId) → Option NodeId
bound_node none = none
bound_node (some b) = some b.0

-- the draft, the dispatch and the entity of a new run
abbrev pub started :
    Fresh
    → CommandId
    → TaskId
    → NodeId
    → RunSpec
    → EventDraft × Option (NodeId × HubToNode) × EntityWrite
started fresh command_id task_id node_id spec = (
  with_payload (with_run (new run_started task_id node_id fresh.occurred_at) fresh.id)
      (run_payload spec),
  some (node_id, dispatch_command command_id none (NodeWork.start_run fresh.id task_id spec)),
  run_entity (run_of_spec fresh task_id node_id spec),
)

-- a known command is answered from its receipt, and any other one takes the effect `fresh_effect`
abbrev pub answer :
    ClientCommand
    → CommandEffect × HubState
    → HubState
    → Result (Option AppendOutcome)
    → CommandEffect × HubState
answer cmd fresh_effect s (ok (some outcome)) = (
  record {
    receipt = accepted_receipt (Protocol.command_id cmd) outcome.sequence outcome.event_id;
    dispatch = none;
  },
  s,
)
answer cmd fresh_effect s (ok none) = fresh_effect
answer cmd fresh_effect s (err e) = fresh_effect

abbrev pub route_dispatch : Option (NodeId × HubToNode) → HubState → HubState
route_dispatch none s = s
route_dispatch (some (node_id, work)) s = (route_to_node node_id work s).1
