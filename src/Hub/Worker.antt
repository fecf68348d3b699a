-- ===== src/Hub/Worker.antt =====
-- What the hub's own assistant asks of the hub: `create_worker_task`, `track_assistant_worker`,
-- `start_hub_assistant_run` and the appends of its messages and events, of
-- crates/stackhour-hub/src/lib.rs.
use stackhour.Prelude.{
  ℕ, String, Bool, true, false, not, Option, none, some, ◌⊎◌, inl, inr, str_eq, ◌==◌, ◌||◌,
}
use stackhour.Result.{
  Result, ok, err, or_fail, protocol, hub_rejected, invalid_receipt, event_missing, no_worker_run,
  unknown_worker_run, not_node_owned, unsupported_kind,
}
use stackhour.Domain.Codec.{Codec}
use stackhour.Domain.Ids.{TaskId, RunId, CommandId, NodeId, Time}
use stackhour.Domain.Json.{Value, str, obj, no_members, member, or_null, bool}
use stackhour.Domain.AccessPolicy
use stackhour.Domain.AccessPolicy.{supervised}
use stackhour.Domain.RunStatus
use stackhour.Domain.EventKind.{
  EventKind, run_started, message_user, message_assistant_completed, run_completed, run_failed,
  run_interrupted,
}
use stackhour.Domain.Event.{Event, new, with_run, with_payload}
use stackhour.Domain.Entities.{Run}
use stackhour.Domain.Protocol.{
  ClientCommand, create_task, send_user_message, start_run, HubToClient, command_receipt,
  event_delivery, subscribe_ack, heartbeat, ProtocolError,
}
use stackhour.Store.Append.{no_entity, run_entity}
use stackhour.Store.Wakes.{register_assistant_worker}
use stackhour.Hub.Checks.{validate_run_configuration}
use stackhour.Hub.Publish.{
  CommandEffect, fetch_event, append_and_broadcast_command, append_and_broadcast_node_event,
}
use stackhour.Hub.Commands.{
  Fresh, hub_node, eligible_execution_node, apply_command_inner, run_binding, route_dispatch,
}
use stackhour.Hub.Act.{Act, ◌>>=◌, ◌>>◌, give, read, write, checked, unless}

abbrev accepted_sequence : Bool → Option ℕ → Result ℕ
accepted_sequence true (some sequence) = ok sequence
accepted_sequence true none = err hub_rejected
accepted_sequence false sequence = err hub_rejected

-- the match on a receipt in `route_effect`
abbrev pub receipt_sequence : HubToClient → Result ℕ
receipt_sequence (command_receipt r) = accepted_sequence r.accepted r.assigned_sequence
receipt_sequence (event_delivery e) = err invalid_receipt
receipt_sequence (subscribe_ack after head) = err invalid_receipt
receipt_sequence heartbeat = err invalid_receipt

unfoldable pub route_effect : CommandEffect → Act ℕ
route_effect effect s = (receipt_sequence effect.receipt, route_dispatch effect.dispatch s)

-- the commands' fresh ids and clocks, in the order of their use
pub record FreshWorker : Type 0 where
  pub create_id : CommandId
  pub create : Fresh
  pub tracked_at : Time
  pub start_id : CommandId
  pub start : Fresh
  pub prompt_id : CommandId
  pub client_message_id : CommandId
  pub prompt : Fresh

abbrev is_terminal_output : EventKind → Bool
is_terminal_output message_assistant_completed = true
is_terminal_output run_completed = true
is_terminal_output run_failed = true
is_terminal_output run_interrupted = true
is_terminal_output _ = false

abbrev pub to_result : NodeId ⊎ ProtocolError → Result NodeId
to_result (inl node) = ok node
to_result (inr error) = err protocol

module _ (c : Codec) where
  -- `apply_command_inner` does not fail
  unfoldable pub applied : Fresh → ClientCommand → Option NodeId → Act CommandEffect
  applied fresh cmd reserved s =
      let (effect, s') = apply_command_inner c fresh cmd reserved s in (ok effect, s')

  -- `read_events_after(sequence - 1)`, and the event of the sequence among them
  unfoldable pub event_at : ℕ → Act Event
  event_at sequence = do event ← read (fetch_event c sequence); give (or_fail event event_missing)

  unfoldable pub event_from_effect : CommandEffect → Act Event
  event_from_effect effect = do sequence ← route_effect effect; event_at sequence

  unfoldable pub event_from_effect_without_routing : CommandEffect → Act Event
  event_from_effect_without_routing effect = do
    sequence ← give (receipt_sequence effect.receipt)
    event_at sequence

  unfoldable pub schedule_execution_node : String → Option NodeId → Act NodeId
  schedule_execution_node engine preferred s =
      (to_result (eligible_execution_node c engine preferred s), s)

  unfoldable pub track : Time → Option String → TaskId → Act (Unit {0})
  track now none task_id s = (ok tt, s)
  track now (some channel) task_id s = write (register_assistant_worker c now channel task_id) s

  unfoldable pub create_worker_task :
      FreshWorker
      → (title prompt : String) (assistant_channel : Option String) (preferred_node : Option NodeId)
        (engine : String) (model reasoning_effort workspace_path : Option String)
      → Act (TaskId × RunId)
  unfolding event_from_effect event_from_effect_without_routing schedule_execution_node
  create_worker_task fresh title prompt assistant_channel preferred_node engine model
        reasoning_effort workspace_path =
      do
        checked (validate_run_configuration engine model reasoning_effort none workspace_path)
        node_id ← schedule_execution_node engine preferred_node
        created ← applied fresh.create (create_task fresh.create_id title) none
        task_event ← event_from_effect created
        track fresh.tracked_at assistant_channel task_event.task_id
        started ←
            applied fresh.start
              (start_run fresh.start_id task_event.task_id (some node_id) (record {
                engine = engine;
                model = model;
                reasoning_effort = reasoning_effort;
                system_prompt = none;
                access_policy = supervised;
                workspace_path = workspace_path;
              }))
              (some node_id)
        run_event ← event_from_effect_without_routing started
        run_id ← give (or_fail run_event.run_id no_worker_run)
        _ ← route_effect started
        prompted ←
            applied fresh.prompt
              (send_user_message fresh.prompt_id task_event.task_id (some run_id) prompt
                (c.uuid_text fresh.client_message_id))
              none
        _ ← route_effect prompted
        give (ok (task_event.task_id, run_id))

  unfoldable pub tracked : String → TaskId → Time → Option (NodeId × TaskId) → Act (Unit {0})
  tracked channel task_id now none = give (err unknown_worker_run)
  tracked channel task_id now (some (node_id, bound_task)) = do
    unless (not (bound_task == task_id) || str_eq node_id hub_node) not_node_owned
    write (register_assistant_worker c now channel task_id)

  unfoldable pub track_assistant_worker : Time → String → TaskId → RunId → Act (Unit {0})
  track_assistant_worker now channel task_id run_id s =
      let (binding, s') = run_binding c run_id s in tracked channel task_id now binding s'

  abbrev pub assistant_run :
      Fresh
      → TaskId
      → (engine : String) (model reasoning_effort : Option String) (system_prompt : String)
        (workspace_path : Option String)
      → Run
  assistant_run fresh task_id engine model reasoning_effort system_prompt workspace_path = record {
    id = fresh.id;
    task_id = task_id;
    node_id = hub_node;
    engine = engine;
    model = model;
    reasoning_effort = reasoning_effort;
    system_prompt = some system_prompt;
    access_policy = supervised;
    workspace_path = workspace_path;
    status = RunStatus.started;
    started_at = fresh.created_at;
  }

  -- the fresh command id is `command_id`
  unfoldable pub start_hub_assistant_run :
      Fresh
      → (command_id : CommandId) (task_id : TaskId) (engine : String)
        (model reasoning_effort : Option String) (system_prompt : String)
        (workspace_path : Option String)
      → Act RunId
  unfolding append_and_broadcast_command
  start_hub_assistant_run fresh command_id task_id engine model reasoning_effort system_prompt
        workspace_path =
      do
        checked (
            validate_run_configuration engine model reasoning_effort (some system_prompt)
              workspace_path)
        _ ←
            append_and_broadcast_command c fresh.received_at fresh.event_id command_id
              (with_payload (with_run (new run_started task_id hub_node fresh.occurred_at) fresh.id)
                (obj (
                  member "engine" (str engine) (
                    member "model" (or_null model) (
                      member "reasoning_effort" (or_null reasoning_effort) (
                        member "access_policy" (str (AccessPolicy.as_str supervised)) (
                          member "workspace_path" (or_null workspace_path)
                            (member "hub_local_assistant" (bool true) no_members))))))))
              (run_entity (
                assistant_run fresh task_id engine model reasoning_effort system_prompt
                  workspace_path))
              none
        give (ok fresh.id)

  -- `message_id` is the fresh id in the payload
  unfoldable pub append_hub_assistant_message :
      Fresh → (message_id command_id : CommandId) → TaskId → RunId → String → Act (Unit {0})
  unfolding append_and_broadcast_command
  append_hub_assistant_message fresh message_id command_id task_id run_id text = do
    _ ←
        append_and_broadcast_command c fresh.received_at fresh.event_id command_id
          (record (with_payload (new message_user task_id hub_node fresh.occurred_at) (
            obj (
              member "text" (str text)
                (member "client_message_id" (str (c.uuid_text message_id)) no_members)))) {
                  run_id = some run_id;
                })
          no_entity none
    give (ok tt)

  unfoldable pub append_hub_assistant_event :
      Fresh → EventKind → TaskId → RunId → Option String → Value → Act (Unit {0})
  unfolding append_and_broadcast_node_event
  append_hub_assistant_event fresh kind task_id run_id provider_session_id payload = do
    unless (not (is_terminal_output kind)) unsupported_kind
    _ ←
        append_and_broadcast_node_event c fresh.received_at fresh.event_id
          (record (with_payload (with_run (new kind task_id hub_node fresh.occurred_at) run_id)
            payload) { provider_session_id = provider_session_id })
    give (ok tt)
