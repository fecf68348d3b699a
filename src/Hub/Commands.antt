-- ===== src/Hub/Commands.antt =====
-- Client commands: `apply_command_inner`, `eligible_execution_node` and `submit_command`, of
-- crates/stackhour-hub/src/lib.rs.
pub mod Parts
use stackhour.Prelude.{
  String, Bool, true, false, Option, none, some, str_eq, ◌&&◌, is_some, ◌⊎◌, inl, inr,
  if◌then◌else◌,
}
use stackhour.Result.{Result, ok, err}
use stackhour.Sql
use stackhour.Domain.Codec.{Codec}
use stackhour.Domain.Ids.{Uuid, TaskId, RunId, EventId, CommandId, ApprovalId, NodeId, Time}
use stackhour.Domain.Json.{Value, str, obj, no_members, member, or_null}
use stackhour.Domain.AccessPolicy
use stackhour.Domain.Decision
use stackhour.Domain.Decision.{Decision}
use stackhour.Domain.TaskStatus
use stackhour.Domain.RunStatus
use stackhour.Domain.EventKind.{
  task_created, message_user, run_started, run_interrupted, approval_resolved,
}
use stackhour.Domain.Event.{EventDraft, new, with_run, with_payload}
use stackhour.Domain.Entities.{Task, Run, Node, Approval}
use stackhour.Domain.Protocol.{
  ClientCommand, create_task, send_user_message, start_run, interrupt_run, RunSpec, HubToNode,
  dispatch_command, NodeWork, ProtocolError, invalid_request, no_eligible_node, unknown_approval,
  accepted_receipt, rejected_receipt, HubToClient,
}
use stackhour.Domain.Protocol
use stackhour.Store.Append.{AppendOutcome, EntityWrite, task_entity, run_entity, command_outcome}
use stackhour.Store.Reads.{list_nodes}
use stackhour.Store.Approvals
use stackhour.Hub.Table
use stackhour.Hub.State.{HubState, run_binding_checked, remember_run, node_for_task, route_to_node}
use stackhour.Hub.Checks.{validate_run_configuration, node_accepts_engine}
use stackhour.Hub.Publish.{CommandEffect, finish, finish_with_entity}
pub use stackhour.Hub.Commands.Parts.{
  Fresh, hub_node, system_task, rejected, wanted, eligible, is_hub, node_or_hub, dispatch_to,
  or_node, user_message, prompt_dispatch, run_of_spec, run_payload, bind_run, task_of, bound_node,
  started, answer, route_dispatch,
}

module _ (c : Codec) where
  unfoldable pub eligible_execution_node :
      String → Option NodeId → HubState → NodeId ⊎ ProtocolError
  eligible_execution_node engine preferred s = elim (list_nodes c s.hub) [
    | err e ↦ inr (invalid_request "cannot read execution-node registry")
    | ok nodes ↦ elim (Sql.first (eligible engine preferred s) nodes) [
      | none ↦ inr (no_eligible_node engine preferred)
      | some node ↦ inl node.id
    ]
  ]

  -- `reserved_node.map(Ok).unwrap_or_else(…)`
  abbrev pub execution_node :
      Option NodeId → String → Option NodeId → HubState → NodeId ⊎ ProtocolError
  execution_node (some reserved) engine preferred s = inl reserved
  execution_node none engine preferred s = eligible_execution_node engine preferred s

  -- `run_binding`, which has no binding where the read fails
  unfoldable pub run_binding : RunId → HubState → Option (NodeId × TaskId) × HubState
  run_binding run_id s =
      let (binding, s') = run_binding_checked c run_id s in
      (elim binding [ ok b ↦ b | err e ↦ none ], s')

  abbrev pub node_of_run : Option RunId → HubState → Option NodeId × HubState
  node_of_run none s = (none, s)
  node_of_run (some run_id) s =
      let (binding, s') = run_binding run_id s in
      (elim binding [ none ↦ none | some b ↦ some b.0 ], s')

  unfoldable pub apply_create_task :
      Fresh → CommandId → String → HubState → CommandEffect × HubState
  apply_create_task fresh command_id title s =
      let task : Task = record {
        id = fresh.id;
        title = title;
        status = TaskStatus.opened;
        created_at = fresh.created_at;
      } in
      finish_with_entity c fresh.received_at fresh.event_id command_id
        (with_payload (new task_created fresh.id hub_node fresh.occurred_at)
          (obj (member "title" (str title) no_members)))
        none (task_entity task) s

  unfoldable pub apply_user_message :
      Fresh
      → CommandId
      → TaskId
      → Option RunId
      → String
      → String
      → HubState
      → CommandEffect × HubState
  apply_user_message fresh command_id task_id run_id text client_message_id s =
      let (of_run, s') = node_of_run run_id s in
      let node = or_node of_run (node_for_task task_id s') in
      elim (is_hub node) [
        | true ↦ (
          rejected command_id (
              invalid_request
                "hub-local assistant messages must be submitted by their owning supervisor"),
          s',
        )
        | false ↦
            finish c fresh.received_at fresh.event_id command_id
              (user_message fresh task_id run_id (node_or_hub node) text client_message_id)
              (prompt_dispatch command_id task_id run_id node text client_message_id) s'
      ]

  unfoldable pub apply_start_run_on :
      Fresh → CommandId → TaskId → NodeId → RunSpec → HubState → CommandEffect × HubState
  apply_start_run_on fresh command_id task_id node_id spec s =
      let (draft, dispatch, entity) = started fresh command_id task_id node_id spec in
      bind_run fresh.id node_id task_id
        (finish_with_entity c fresh.received_at fresh.event_id command_id draft dispatch entity s)

  abbrev pub place_run :
      Fresh
      → CommandId
      → TaskId
      → RunSpec
      → HubState
      → NodeId ⊎ ProtocolError
      → CommandEffect × HubState
  place_run fresh command_id task_id spec s (inr error) = (rejected command_id error, s)
  place_run fresh command_id task_id spec s (inl node) =
      apply_start_run_on fresh command_id task_id node spec s

  abbrev pub check_run :
      Fresh
      → CommandId
      → TaskId
      → Option NodeId
      → RunSpec
      → Option NodeId
      → HubState
      → Option String
      → CommandEffect × HubState
  check_run fresh command_id task_id node_id spec reserved s (some message) =
      (rejected command_id (invalid_request message), s)
  check_run fresh command_id task_id node_id spec reserved s none =
      place_run fresh command_id task_id spec s (execution_node reserved spec.engine node_id s)

  unfoldable pub apply_start_run :
      Fresh
      → CommandId
      → TaskId
      → Option NodeId
      → RunSpec
      → Option NodeId
      → HubState
      → CommandEffect × HubState
  apply_start_run fresh command_id task_id node_id spec reserved s =
      check_run fresh command_id task_id node_id spec reserved s (
        validate_run_configuration spec.engine spec.model spec.reasoning_effort spec.system_prompt
          spec.workspace_path)

  unfoldable pub apply_interrupt : Fresh → CommandId → RunId → HubState → CommandEffect × HubState
  apply_interrupt fresh command_id run_id s =
      let (binding, s') = run_binding run_id s in
      elim (is_hub (bound_node binding)) [
        | true ↦ (
          rejected command_id (
              invalid_request
                "hub-local assistant runs must be stopped by their owning supervisor"),
          s',
        )
        | false ↦
            finish c fresh.received_at fresh.event_id command_id
              (with_run
                (new run_interrupted (task_of binding) (node_or_hub (bound_node binding))
                  fresh.occurred_at)
                run_id)
              (dispatch_to command_id (bound_node binding) (NodeWork.interrupt_run run_id)) s'
      ]

  abbrev pub resolution_draft : Fresh → ApprovalId → Approval → EventDraft
  resolution_draft fresh approval_id approval =
      record (with_payload (new approval_resolved approval.task_id hub_node fresh.occurred_at) (
        obj (
          member "approval_id" (str (c.uuid_text approval_id)) (
            member "decision" (str (Decision.as_str approval.decision))
              (member "actor" (or_null approval.resolved_by) no_members))))) {
                run_id = some approval.run_id;
              }

  unfoldable pub apply_resolution :
      Fresh → CommandId → ApprovalId → Decision → String → HubState → CommandEffect × HubState
  apply_resolution fresh command_id approval_id decision actor s =
      let (approval, hub) =
        Approvals.resolve_approval c approval_id decision actor fresh.created_at s.hub in
      let s' : HubState = record s { hub = hub } in
      elim approval [
        | err e ↦ (rejected command_id (unknown_approval approval_id), s')
        | ok a ↦
            finish c fresh.received_at fresh.event_id command_id
              (resolution_draft fresh approval_id a) none s'
      ]

  -- a command that has no outcome yet
  unfoldable pub apply_new :
      Fresh → ClientCommand → Option NodeId → HubState → CommandEffect × HubState
  apply_new fresh (create_task k title) reserved s = apply_create_task fresh k title s
  apply_new fresh (send_user_message k task_id run_id text client_message_id) reserved s =
      apply_user_message fresh k task_id run_id text client_message_id s
  apply_new fresh (start_run k task_id node_id spec) reserved s =
      apply_start_run fresh k task_id node_id spec reserved s
  apply_new fresh (interrupt_run k run_id) reserved s = apply_interrupt fresh k run_id s
  apply_new fresh (ClientCommand.resolve_approval k approval_id decision actor) reserved s =
      apply_resolution fresh k approval_id decision actor s

  unfoldable pub apply_command_inner :
      Fresh → ClientCommand → Option NodeId → HubState → CommandEffect × HubState
  apply_command_inner fresh cmd reserved s =
      answer cmd (apply_new fresh cmd reserved s) s
        (command_outcome c (Protocol.command_id cmd) s.hub)

  unfoldable pub apply_command : Fresh → ClientCommand → HubState → CommandEffect × HubState
  unfolding apply_command_inner
  apply_command fresh cmd s = apply_command_inner fresh cmd none s

  unfoldable pub submit_command : Fresh → ClientCommand → HubState → HubToClient × HubState
  unfolding apply_command
  submit_command fresh cmd s =
      let (effect, s') = apply_command fresh cmd s in
      (effect.receipt, route_dispatch effect.dispatch s')
