-- ===== src/Domain/Entities.antt =====
-- `Node`, `Task`, `Run` and `Approval` of crates/stackhour-domain/src/entities.rs.
use stackhour.Prelude.{String, Bool, true, false, Option, none, some, List, ℤ, leb, ◌&&◌}
use stackhour.Domain.Ids.{TaskId, RunId, ApprovalId, NodeId, Time}
use stackhour.Domain.ConnectionStatus.{ConnectionStatus}
use stackhour.Domain.TaskStatus.{TaskStatus}
use stackhour.Domain.AccessPolicy.{AccessPolicy}
use stackhour.Domain.RunStatus.{RunStatus}
use stackhour.Domain.Decision.{Decision, pending, allowed, denied}
use stackhour.Domain.Json.{Value}

pub record Node : Type 0 where
  pub id : NodeId
  pub label : String
  pub status : ConnectionStatus
  pub software_version : String
  pub capabilities : Value
  pub last_seen_sequence : Option ℤ

pub record Task : Type 0 where
  pub id : TaskId
  pub title : String
  pub status : TaskStatus
  pub created_at : Time

pub record Run : Type 0 where
  pub id : RunId
  pub task_id : TaskId
  pub node_id : NodeId
  pub engine : String
  pub model : Option String
  pub reasoning_effort : Option String
  pub system_prompt : Option String
  pub access_policy : AccessPolicy
  pub workspace_path : Option String
  pub status : RunStatus
  pub started_at : Time

pub record Approval : Type 0 where
  pub id : ApprovalId
  pub run_id : RunId
  pub task_id : TaskId
  pub tool_call_id : String
  pub scope : String
  pub options : List String
  pub expires_at : Option Time
  pub decision : Decision
  pub resolved_by : Option String
  pub created_at : Time
  pub resolved_at : Option Time

-- `decision == Decision::Pending`
abbrev pub decision_is_pending : Decision → Bool
decision_is_pending pending = true
decision_is_pending allowed = false
decision_is_pending denied = false

unfoldable pub is_pending : Approval → Bool
is_pending a = decision_is_pending a.decision

abbrev reached : Option Time → Time → Bool
reached none now = false
reached (some exp) now = leb exp now

unfoldable pub is_expired : Approval → Time → Bool
unfolding is_pending
is_expired a now = is_pending a && reached a.expires_at now
