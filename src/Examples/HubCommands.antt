-- ===== src/Examples/HubCommands.antt =====
-- Client commands on a concrete hub.
use stackhour.Prelude.{◌≡◌, refl, ap, none, some, List, [], ◌∷◌, true, inl, arith}
use stackhour.Result.{ok}
use stackhour.Domain.Codec.{Codec}
use stackhour.Domain.Json.{null, obj, arr, member, no_members, element, no_elements, str}
use stackhour.Domain.AccessPolicy
use stackhour.Domain.RunStatus.{RunStatus}
use stackhour.Domain.ConnectionStatus.{connected}
use stackhour.Domain.EventKind.{run_completed}
use stackhour.Domain.Entities.{Node}
use stackhour.Domain.Protocol
use stackhour.Domain.Protocol.{
  HubToNode, dispatch_command, NodeWork, ClientCommand, create_task, start_run, interrupt_run,
  RunSpec, accepted_receipt, node_event,
}
use stackhour.Store.Rows.{node_row}
use stackhour.Store.Reads.{get_run}
use stackhour.Hub.Table
use stackhour.Hub.State.{HubState, accepts_node_event}
use stackhour.Hub.Publish.{CommandEffect}
use stackhour.Hub.Commands.{Fresh, apply_command_inner, eligible_execution_node}
use stackhour.Hub.Machine.{Operation, submitted, node_said, operations}
use stackhour.Hub.NodeLink.{node_message}
use stackhour.Hub.Started.{IsStarted, apply_command_inner-IsStarted}
use stackhour.Hub.Retry.{apply_command_inner-again}
use stackhour.Hub.Durable.{queued, apply_command_inner-queued}
use stackhour.Hub.Sound.{IsSound}
use stackhour.Hub.Sound.Steps.{operations-IsSound}
use stackhour.Hub.Eligible.{Placement, eligible_execution_node-Placement}
use stackhour.Hub.Acknowledged.{IsHonest, node_message-IsHonest}
use stackhour.Store.Ownership.{history-run}
use stackhour.Store.Machine
use stackhour.Store.Machine.{history}
use stackhour.Examples.World.{codec, codec-IsLawful, completion, a_run, world}
use stackhour.Examples.Commands.{world-IsConsistent}
use stackhour.Examples.Hub.{hub, run_stored}

abbrev fresh : Fresh
fresh = record { id = 40; event_id = 41; created_at = 4; occurred_at = 4; received_at = 4 }

abbrev stop : ClientCommand
stop = interrupt_run 30 2

abbrev stopping : HubToNode
stopping = dispatch_command 30 none (NodeWork.interrupt_run 2)

abbrev stopped : HubState
stopped = (apply_command_inner codec fresh stop none hub).1

stop_lem :
    (apply_command_inner codec fresh stop none hub).0
    ≡ record { receipt = accepted_receipt 30 2 41; dispatch = some ("laptop", stopping) }
unfolding apply_command_inner stackhour.Store.Append.command_outcome stackhour.Sql.first
    stackhour.Examples.Unary.unary stackhour.Examples.Unary.strokes
    stackhour.Examples.Unary.count_strokes stackhour.Domain.Protocol.command_id
    stackhour.Hub.Commands.apply_new stackhour.Hub.Commands.apply_interrupt
    stackhour.Hub.Commands.run_binding stackhour.Hub.State.run_binding_checked Table.get get_run
    stackhour.Store.Rows.run_row stackhour.Store.Rows.row_to_run
    stackhour.Domain.AccessPolicy.from_db stackhour.Domain.AccessPolicy.as_str
    stackhour.Domain.RunStatus.from_db stackhour.Domain.RunStatus.as_str
    stackhour.Hub.State.remember_run Table.insert Table.remove stackhour.Hub.Publish.finish
    stackhour.Hub.Publish.finish_with_entity stackhour.Hub.Publish.append_and_broadcast_command
    stackhour.Store.Append.append_command_bundle stackhour.Store.Append.bundle
    stackhour.Store.Append.append_new stackhour.Store.Tables.next_sequence stackhour.Sql.max_of
    stackhour.Store.Tables.insert_event stackhour.Sql.insert stackhour.Sql.exists
    stackhour.Store.Tables.insert_receipt_row stackhour.Store.Append.write_entity
    stackhour.Store.Append.write_dispatch stackhour.Hub.Publish.publish
    stackhour.Hub.Publish.fetch_event stackhour.Store.Reads.events_after
    stackhour.Store.Reads.rows_after stackhour.Sql.collect stackhour.Sql.order_by
    stackhour.Sql.select stackhour.Store.Rows.row_to_event stackhour.Store.Rows.event_row
    stackhour.Domain.EventKind.from_dotted stackhour.Domain.EventKind.as_str accepted_receipt
    stackhour.Domain.Event.new stackhour.Domain.Event.with_run
stop_lem = refl

apply_command_inner-again_example :
    apply_command_inner codec fresh (create_task 30 "again") none stopped
    ≡ (record { receipt = accepted_receipt 30 2 41; dispatch = none }, stopped)
unfolding Protocol.command_id history
apply_command_inner-again_example =
    apply_command_inner-again codec codec-IsLawful fresh fresh stop (create_task 30 "again") none
      none hub stopped 2 41 (ap (λ (e : CommandEffect). e.receipt) stop_lem) ([], refl) refl

apply_command_inner-queued_example : queued codec 30 "laptop" stopping stopped.hub ≡ true
unfolding Protocol.command_id
apply_command_inner-queued_example =
    apply_command_inner-queued codec fresh stop none hub "laptop" stopping
      (ap (λ (e : CommandEffect). e.dispatch) stop_lem)

abbrev codex_spec : RunSpec
codex_spec = record {
  engine = "codex";
  model = none;
  reasoning_effort = some "high";
  system_prompt = none;
  access_policy = AccessPolicy.supervised;
  workspace_path = some "/work";
}

abbrev starting : HubToNode
starting = dispatch_command 60 none (NodeWork.start_run 40 1 codex_spec)

start_lem :
    (apply_command_inner codec fresh
      (start_run 60 1 none codex_spec)
      (some "laptop")
      hub).0.dispatch
    ≡ some ("laptop", starting)
unfolding apply_command_inner stackhour.Store.Append.command_outcome stackhour.Sql.first
    stackhour.Examples.Unary.unary stackhour.Examples.Unary.strokes
    stackhour.Examples.Unary.count_strokes stackhour.Domain.Protocol.command_id
    stackhour.Hub.Commands.apply_new stackhour.Hub.Commands.apply_interrupt
    stackhour.Hub.Commands.run_binding stackhour.Hub.State.run_binding_checked Table.get get_run
    stackhour.Store.Rows.run_row stackhour.Store.Rows.row_to_run
    stackhour.Domain.AccessPolicy.from_db stackhour.Domain.AccessPolicy.as_str
    stackhour.Domain.RunStatus.from_db stackhour.Domain.RunStatus.as_str
    stackhour.Hub.State.remember_run Table.insert Table.remove stackhour.Hub.Publish.finish
    stackhour.Hub.Publish.finish_with_entity stackhour.Hub.Publish.append_and_broadcast_command
    stackhour.Store.Append.append_command_bundle stackhour.Store.Append.bundle
    stackhour.Store.Append.append_new stackhour.Store.Tables.next_sequence stackhour.Sql.max_of
    stackhour.Store.Tables.insert_event stackhour.Sql.insert stackhour.Sql.exists
    stackhour.Store.Tables.insert_receipt_row stackhour.Store.Append.write_entity
    stackhour.Store.Append.write_dispatch stackhour.Hub.Publish.publish
    stackhour.Hub.Publish.fetch_event stackhour.Store.Reads.events_after
    stackhour.Store.Reads.rows_after stackhour.Sql.collect stackhour.Sql.order_by
    stackhour.Sql.select stackhour.Store.Rows.row_to_event stackhour.Store.Rows.event_row
    stackhour.Domain.EventKind.from_dotted stackhour.Domain.EventKind.as_str accepted_receipt
    stackhour.Domain.Event.new stackhour.Domain.Event.with_run
    stackhour.Hub.Commands.apply_start_run stackhour.Hub.Commands.apply_start_run_on
    stackhour.Hub.Checks.validate_run_configuration stackhour.Store.Tables.insert_run_row
    stackhour.Store.Append.set_task_status stackhour.Sql.update
    stackhour.Hub.Checks.validate_identifier stackhour.Hub.Checks.validate_text
    stackhour.Core.Text.is_blank stackhour.Domain.Event.with_payload
start_lem = refl

apply_command_inner-IsStarted_example :
    let after =
      (apply_command_inner codec fresh (start_run 60 1 none codex_spec) (some "laptop") hub).1 in
    IsStarted codec fresh 60 1 none codex_spec (some "laptop") hub "laptop" starting after
    × (queued codec 60 "laptop" starting after.hub ≡ true)
apply_command_inner-IsStarted_example =
    apply_command_inner-IsStarted codec fresh 60 1 none codex_spec (some "laptop") hub
      codec-IsLawful (omega arith) start_lem

abbrev day : List Operation
day =
    submitted fresh stop
    ∷ node_said 6 "laptop" (node_event 9 completion)
    ∷ submitted (record fresh { id = 50; event_id = 51 }) (create_task 52 "next")
    ∷ []

operations-IsSound_example : IsSound codec (operations codec day hub)
operations-IsSound_example =
    operations-IsSound codec codec-IsLawful day hub (omega arith, (tt, (omega arith, tt)))
      (world-IsConsistent, tt)

node_message-IsHonest_example :
    IsHonest codec 9
      (accepts_node_event codec "laptop" completion hub).0
      hub
      (node_message codec 6 "laptop" (node_event 9 completion) hub)
node_message-IsHonest_example = node_message-IsHonest codec 6 "laptop" 9 completion hub

abbrev history_later : List Machine.Step
history_later = Machine.node_event 5 20 completion ∷ []

history-run_example :
    (status : RunStatus) × (get_run codec 2 (history codec history_later world)
      ≡ ok (some (record a_run { status = status })))
history-run_example = history-run codec 2 a_run history_later world run_stored

abbrev laptop : Node
laptop = record {
  id = "laptop";
  label = "laptop";
  status = connected;
  software_version = "1";
  capabilities = obj (member "engines" (arr (element (str "codex") no_elements)) no_members);
  last_seen_sequence = none;
}

abbrev online : HubState
online = record hub {
  hub = record world { nodes = node_row codec laptop ∷ [] };
  nodes = ("laptop", record { id = 1; sent = []; live = true }) ∷ [];
}

-- a codec that reads the laptop's capabilities
abbrev capable : Codec
capable = record codec { parse_json = λ s. some laptop.capabilities }

placed : eligible_execution_node capable "codex" (some "laptop") online ≡ inl "laptop"
unfolding eligible_execution_node stackhour.Store.Reads.list_nodes stackhour.Sql.collect
    stackhour.Sql.order_by stackhour.Store.Rows.row_to_node
    stackhour.Domain.ConnectionStatus.from_db node_row stackhour.Domain.ConnectionStatus.as_str
    stackhour.Sql.first Table.get stackhour.Hub.Checks.node_accepts_engine
    stackhour.Domain.Json.get_field stackhour.Hub.Checks.any_text
placed = refl

eligible_execution_node-Placement_example :
    Placement capable "codex"
      (some "laptop")
      online
      (eligible_execution_node capable "codex" (some "laptop") online)
eligible_execution_node-Placement_example =
    eligible_execution_node-Placement capable "codex" (some "laptop") online
