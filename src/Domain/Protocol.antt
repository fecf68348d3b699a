-- ===== src/Domain/Protocol.antt =====
-- The wire messages of crates/stackhour-domain/src/protocol.rs and their constructors.
use stackhour.Prelude.{ℕ, String, Bool, true, false, Option, none, some, ℤ, eq_ℤ, if◌then◌else◌}
use stackhour.Domain.Ids.{TaskId, RunId, EventId, CommandId, ApprovalId, NodeId, Time}
use stackhour.Domain.AccessPolicy.{AccessPolicy}
use stackhour.Domain.Decision.{Decision}
use stackhour.Domain.Json.{Value}
use stackhour.Domain.Event.{Event, EventDraft, protocol_version_now}

abbrev pub wire_protocol_version : ℤ
wire_protocol_version = protocol_version_now

-- The fields of `StartRun` but its ids and its node, which a command and its dispatch share.
pub record RunSpec : Type 0 where
  pub engine : String
  pub model : Option String
  pub reasoning_effort : Option String
  pub system_prompt : Option String
  pub access_policy : AccessPolicy
  pub workspace_path : Option String

pub data ClientCommand : Type 0 where
  create_task : (command_id : CommandId) (title : String) → ClientCommand
  send_user_message :
      (command_id : CommandId) (task_id : TaskId) (run_id : Option RunId)
      (text client_message_id : String)
      → ClientCommand
  start_run :
      (command_id : CommandId) (task_id : TaskId) (node_id : Option NodeId) (spec : RunSpec)
      → ClientCommand
  interrupt_run : (command_id : CommandId) (run_id : RunId) → ClientCommand
  resolve_approval :
      (command_id : CommandId) (approval_id : ApprovalId) (decision : Decision) (actor : String)
      → ClientCommand

unfoldable pub command_id : ClientCommand → CommandId
command_id (create_task id _) = id
command_id (send_user_message id _ _ _ _) = id
command_id (start_run id _ _ _) = id
command_id (interrupt_run id _) = id
command_id (resolve_approval id _ _ _) = id

pub data ProtocolError : Type 0 where
  version_mismatch : (client hub : ℤ) → ProtocolError
  unauthenticated : ProtocolError
  unknown_task : TaskId → ProtocolError
  unknown_run : RunId → ProtocolError
  no_eligible_node : (engine : String) (node_id : Option NodeId) → ProtocolError
  unknown_approval : ApprovalId → ProtocolError
  expired : ProtocolError
  invalid_request : String → ProtocolError

-- The fields of `HubToClient::CommandReceipt`.
pub record Receipt : Type 0 where
  pub command_id : CommandId
  pub accepted : Bool
  pub assigned_sequence : Option ℕ
  pub event_id : Option EventId
  pub error : Option ProtocolError

pub data HubToClient : Type 0 where
  command_receipt : Receipt → HubToClient
  event_delivery : Event → HubToClient
  subscribe_ack : (after_sequence : Option ℤ) (head_sequence : ℕ) → HubToClient
  heartbeat : HubToClient

unfoldable pub accepted_receipt : CommandId → ℕ → EventId → HubToClient
accepted_receipt id sequence event_id = command_receipt (record {
  command_id = id;
  accepted = true;
  assigned_sequence = some sequence;
  event_id = some event_id;
  error = none;
})

unfoldable pub rejected_receipt : CommandId → ProtocolError → HubToClient
rejected_receipt id e = command_receipt (record {
  command_id = id;
  accepted = false;
  assigned_sequence = none;
  event_id = none;
  error = some e;
})

pub record NodeHello : Type 0 where
  pub node_id : NodeId
  pub token : String
  pub software_version : String
  pub protocol_version : ℤ
  pub capabilities : Value
  pub resume_after_sequence : Option ℤ

pub record HubWelcome : Type 0 where
  pub accepted : Bool
  pub protocol_version : ℤ
  pub error : Option ProtocolError

unfoldable pub accept_welcome : HubWelcome
accept_welcome = record { accepted = true; protocol_version = wire_protocol_version; error = none }

unfoldable pub reject_welcome : ProtocolError → HubWelcome
reject_welcome e = record {
  accepted = false;
  protocol_version = wire_protocol_version;
  error = some e;
}

unfoldable pub negotiate : ℤ → HubWelcome
unfolding accept_welcome reject_welcome
negotiate node_version =
    if eq_ℤ node_version wire_protocol_version
    then accept_welcome
    else reject_welcome (version_mismatch node_version wire_protocol_version)

pub data NodeToHub : Type 0 where
  node_event : EventId → EventDraft → NodeToHub
  command_ack : CommandId → NodeToHub
  heartbeat : NodeToHub

pub data NodeWork : Type 0 where
  start_run : (run_id : RunId) (task_id : TaskId) (spec : RunSpec) → NodeWork
  send_prompt : (task_id : TaskId) (run_id : RunId) (text client_message_id : String) → NodeWork
  interrupt_run : RunId → NodeWork
  update : (version : String) → NodeWork

pub data HubToNode : Type 0 where
  dispatch_command :
      (command_id : CommandId) (expires_at : Option Time) (work : NodeWork) → HubToNode
  approval_decision : (approval_id : ApprovalId) (decision : Decision) (actor : String) → HubToNode
  cancel_command : CommandId → HubToNode
  event_ack : EventId → HubToNode
  heartbeat : HubToNode
