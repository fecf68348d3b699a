-- ===== src/Store/Machine.antt =====
-- Every public operation of the store that writes, as one step, and histories of them. A step drops
-- the operation's result; the tables after it are what the operation leaves, failed or not.
use stackhour.Prelude.{String, Option, List, [], ◌∷◌}
use stackhour.Domain.Codec.{Codec}
use stackhour.Domain.Ids.{TaskId, RunId, EventId, CommandId, ApprovalId, NodeId, Time}
use stackhour.Domain.AccessPolicy.{AccessPolicy}
use stackhour.Domain.Decision.{Decision}
use stackhour.Domain.Json.{Value}
use stackhour.Domain.Event.{EventDraft}
use stackhour.Domain.Entities.{Task, Run, Node}
use stackhour.Domain.Protocol.{HubToNode}
use stackhour.Store.Db.{Db}
use stackhour.Store.Append.{EntityWrite, append_command_bundle, append_node_event}
use stackhour.Store.Entities.{insert_task, create_task, insert_run, start_run, upsert_node}
use stackhour.Store.Dispatch.{acknowledge_dispatch, acknowledge_dispatch_from}
use stackhour.Store.Wakes.{register_assistant_worker, complete_assistant_wake, defer_assistant_wake}
use stackhour.Store.Approvals.{request_approval, resolve_approval}
use stackhour.Store.Settings.{put_setting}

pub data Step : Type 0 where
  command :
      Time → EventId → CommandId → EventDraft → EntityWrite → Option (NodeId × HubToNode) → Step
  node_event : Time → EventId → EventDraft → Step
  task_row : Task → Step
  new_task : TaskId → Time → String → Step
  run_row : Run → Step
  new_run : RunId → Time → TaskId → NodeId → String → AccessPolicy → Step
  node_row : Node → Step
  dispatch_ack : Time → CommandId → Step
  dispatch_ack_from : Time → CommandId → NodeId → Step
  worker : Time → String → TaskId → Step
  wake_done : Time → EventId → Step
  wake_later : Time → EventId → String → Step
  approval : ApprovalId → Time → RunId → TaskId → String → String → List String → Option Time → Step
  resolution : ApprovalId → Decision → String → Time → Step
  setting : Time → String → Value → Step

module _ (c : Codec) where
  unfoldable pub perform : Step → Db → Db
  perform (command now e k d w q) db = (append_command_bundle c now e k d w q db).1
  perform (node_event now e d) db = (append_node_event c now e d db).1
  perform (task_row t) db = (insert_task c t db).1
  perform (new_task id now title) db = (create_task c id now title db).1
  perform (run_row r) db = (insert_run c r db).1
  perform (new_run id now t n engine p) db = (start_run c id now t n engine p db).1
  perform (node_row n) db = (upsert_node c n db).1
  perform (dispatch_ack now k) db = (acknowledge_dispatch c now k db).1
  perform (dispatch_ack_from now k n) db = (acknowledge_dispatch_from c now k n db).1
  perform (worker now channel t) db = register_assistant_worker c now channel t db
  perform (wake_done now e) db = (complete_assistant_wake c now e db).1
  perform (wake_later now e error) db = (defer_assistant_wake c now e error db).1
  perform (approval id now r t tool scope options expires) db =
      (request_approval c id now r t tool scope options expires db).1
  perform (resolution id decision actor now) db = (resolve_approval c id decision actor now db).1
  perform (setting now key value) db = put_setting c now key value db

  unfoldable pub history : List Step → Db → Db
  history [] db = db
  history (s ∷ ss) db = history ss (perform s db)
