-- ===== src/Hub/Machine.antt =====
-- The hub's operations that change its state, as one step, and runs of them. A step drops the
-- operation's result; the state after it is what the operation leaves, failed or not.
use stackhour.Prelude.{ℕ, String, Bool, Option, List, [], ◌∷◌}
use stackhour.Domain.Codec.{Codec}
use stackhour.Domain.Ids.{TaskId, RunId, CommandId, NodeId, Time}
use stackhour.Domain.Json.{Value}
use stackhour.Domain.EventKind.{EventKind}
use stackhour.Domain.Protocol.{ClientCommand, NodeHello, NodeToHub}
use stackhour.Hub.State.{HubState}
use stackhour.Hub.Commands.{Fresh, submit_command}
use stackhour.Hub.Worker.{
  FreshWorker, create_worker_task, track_assistant_worker, start_hub_assistant_run,
  append_hub_assistant_message, append_hub_assistant_event,
}
use stackhour.Hub.NodeLink.{FreshEvent, open_node, node_message, close_node}

-- what `create_worker_task` is asked
pub record WorkerTask : Type 0 where
  pub title : String
  pub prompt : String
  pub assistant_channel : Option String
  pub preferred_node : Option NodeId
  pub engine : String
  pub model : Option String
  pub reasoning_effort : Option String
  pub workspace_path : Option String

-- what `start_hub_assistant_run` is asked
pub record AssistantRun : Type 0 where
  pub task_id : TaskId
  pub engine : String
  pub model : Option String
  pub reasoning_effort : Option String
  pub system_prompt : String
  pub workspace_path : Option String

pub data Operation : Type 0 where
  submitted : Fresh → ClientCommand → Operation
  delegated : FreshWorker → WorkerTask → Operation
  tracked : Time → String → TaskId → RunId → Operation
  assistant_started : Fresh → CommandId → AssistantRun → Operation
  assistant_asked :
      Fresh → (message_id command_id : CommandId) → TaskId → RunId → String → Operation
  assistant_said : Fresh → EventKind → TaskId → RunId → Option String → Value → Operation
  node_opened : FreshEvent → NodeHello → (welcomed : Bool) → Operation
  node_said : Time → NodeId → NodeToHub → Operation
  node_closed : FreshEvent → NodeId → ℕ → Operation

module _ (c : Codec) where
  unfoldable pub operate : Operation → HubState → HubState
  operate (submitted fresh cmd) s = (submit_command c fresh cmd s).1
  operate (delegated fresh w) s =
      (create_worker_task c fresh w.title w.prompt w.assistant_channel w.preferred_node w.engine
        w.model w.reasoning_effort w.workspace_path s).1
  operate (tracked now channel task_id run_id) s =
      (track_assistant_worker c now channel task_id run_id s).1
  operate (assistant_started fresh command_id r) s =
      (start_hub_assistant_run c fresh command_id r.task_id r.engine r.model r.reasoning_effort
        r.system_prompt r.workspace_path s).1
  operate (assistant_asked fresh message_id command_id task_id run_id text) s =
      (append_hub_assistant_message c fresh message_id command_id task_id run_id text s).1
  operate (assistant_said fresh kind task_id run_id session payload) s =
      (append_hub_assistant_event c fresh kind task_id run_id session payload s).1
  operate (node_opened fresh hello welcomed) s = (open_node c fresh hello welcomed s).1
  operate (node_said now node_id msg) s = node_message c now node_id msg s
  operate (node_closed fresh node_id connection_id) s = close_node c fresh node_id connection_id s

  unfoldable pub operations : List Operation → HubState → HubState
  operations [] s = s
  operations (o ∷ os) s = operations os (operate o s)
