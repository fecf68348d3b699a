-- ===== src/Examples/Hub.antt =====
-- The hub's routing and registry on concrete states.
use stackhour.Prelude.{◌≡◌, refl, ◌↔◌, some, List, [], ◌∷◌, true}
use stackhour.Result.{ok}
use stackhour.Domain.Protocol.{HubToNode}
use stackhour.Store.Reads.{get_run}
use stackhour.Store.Dispatch.{PendingDispatch}
use stackhour.Hub.State.{HubState, accepts_node_event}
use stackhour.Hub.Binding.{accepts_node_event-owner}
use stackhour.Examples.World.{codec, completion, a_run, world}

abbrev pub hub : HubState
hub = record {
  hub = world;
  published = [];
  routing = record { run = []; task = [] };
  nodes = [];
  next_node_connection_id = 1;
  node_secret = "secret";
  client_secret = "";
}

pub run_stored : get_run codec 2 world ≡ ok (some a_run)
unfolding get_run stackhour.Sql.first stackhour.Store.Rows.run_row stackhour.Examples.Unary.unary
    stackhour.Examples.Unary.strokes stackhour.Store.Rows.row_to_run
    stackhour.Domain.AccessPolicy.from_db stackhour.Domain.AccessPolicy.as_str
    stackhour.Domain.RunStatus.from_db stackhour.Domain.RunStatus.as_str
    stackhour.Examples.Unary.count_strokes
run_stored = refl

accepts_node_event-owner_example :
    ((accepts_node_event codec "desktop" completion hub).0 ≡ ok true) ↔ (
      (completion.node_id ≡ "desktop")
      × (a_run.node_id ≡ "desktop")
      × (a_run.task_id ≡ completion.task_id))
accepts_node_event-owner_example =
    accepts_node_event-owner codec "desktop" completion hub {run = 2} {r = a_run} tt refl run_stored

abbrev queued : List PendingDispatch
queued =
    record { command_id = 8; node_id = "laptop"; message = HubToNode.heartbeat; created_at = 3 }
    ∷ []
