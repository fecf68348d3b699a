-- ===== src/Hub/State.antt =====
-- The hub's shared state with its routing, its registry of connected nodes, and the checks on what
-- nodes and clients send: `Routing`, `NodeConnection` and methods of `HubState`, of
-- crates/stackhour-hub/src/lib.rs.
use stackhour.Prelude.{
  ℕ, ◌+◌, ◌%◌, ◌^◌, String, Bool, true, false, Option, none, some, List, [], ◌∷◌, ◌++◌, str_eq,
  ◌==◌, ◌&&◌, if◌then◌else◌,
}
use stackhour.Result.{Result, ok, err}
use stackhour.Domain.Codec.{Codec}
use stackhour.Domain.Ids.{TaskId, RunId, CommandId, NodeId, Time}
use stackhour.Domain.Event.{EventDraft, Event}
use stackhour.Domain.Protocol.{
  HubToNode, NodeHello, HubWelcome, negotiate, reject_welcome, unauthenticated,
}
use stackhour.Store.Db.{Db}
use stackhour.Store.Reads.{get_run}
use stackhour.Store.Dispatch.{PendingDispatch, pending_dispatches}
use stackhour.Store.Dispatch
use stackhour.Hub.Table

pub record Routing : Type 0 where
  pub run : List (RunId × (NodeId × TaskId))
  pub task : List (TaskId × NodeId)

-- The sending half of a channel: what was sent, and whether the receiving half still exists.
pub record NodeConnection : Type 0 where
  pub id : ℕ
  pub sent : List HubToNode
  pub live : Bool

-- `published` is what `events.send` has put on the broadcast channel, in order.
pub record HubState : Type 0 where
  pub hub : Db
  pub published : List Event
  pub routing : Routing
  pub nodes : List (NodeId × NodeConnection)
  pub next_node_connection_id : ℕ
  pub node_secret : String
  pub client_secret : String

abbrev pub same_id : ℕ → ℕ → Bool
same_id a b = a == b

-- `HubState::negotiate_node`
unfoldable pub negotiate_node : NodeHello → HubState → HubWelcome
negotiate_node hello s =
    if str_eq hello.token s.node_secret
    then negotiate hello.protocol_version
    else reject_welcome unauthenticated

abbrev matches : Option String → String → Bool
matches none secret = false
matches (some candidate) secret = str_eq candidate secret

-- `HubState::accepts_client`
unfoldable pub accepts_client : Option String → HubState → Bool
accepts_client token s = if str_eq s.client_secret "" then true else matches token s.client_secret

-- `register_node` with a new channel; `fetch_add` wraps around
unfoldable pub register_node : NodeId → HubState → ℕ × HubState
register_node node_id s = (
  s.next_node_connection_id,
  record s {
    nodes =
        Table.insert str_eq node_id
          (record { id = s.next_node_connection_id; sent = []; live = true }) s.nodes;
    next_node_connection_id = (s.next_node_connection_id + 1) % 2 ^ 64;
  },
)

abbrev owns_slot : Option NodeConnection → ℕ → Bool
owns_slot none connection_id = false
owns_slot (some current) connection_id = current.id == connection_id

unfoldable pub unregister_node : NodeId → ℕ → HubState → Bool × HubState
unregister_node node_id connection_id s =
    elim (owns_slot (Table.get str_eq node_id s.nodes) connection_id) [
      | true ↦ (true, record s { nodes = Table.remove str_eq node_id s.nodes })
      | false ↦ (false, s)
    ]

unfoldable pub route_to_node : NodeId → HubToNode → HubState → Bool × HubState
route_to_node node_id msg s = elim (Table.get str_eq node_id s.nodes) [
  | none ↦ (false, s)
  | some connection ↦ elim connection.live [
    | false ↦ (false, s)
    | true ↦ (
      true,
      record s {
        nodes =
            Table.insert str_eq node_id (record connection { sent = connection.sent ++ msg ∷ [] })
              s.nodes;
      },
    )
  ]
]

unfoldable pub route_all : NodeId → List PendingDispatch → HubState → HubState
route_all node_id [] s = s
route_all node_id (item ∷ pending) s =
    route_all node_id pending (route_to_node node_id item.message s).1

unfoldable pub remember_run : RunId → NodeId → TaskId → HubState → HubState
remember_run run_id node_id task_id s = record s {
  routing = record {
    run = Table.insert same_id run_id (node_id, task_id) s.routing.run;
    task = Table.insert same_id task_id node_id s.routing.task;
  };
}

unfoldable pub node_for_task : TaskId → HubState → Option NodeId
node_for_task task_id s = Table.get same_id task_id s.routing.task

module _ (c : Codec) where
  -- `unwrap_or_default` makes no message of a failing read
  unfoldable pub replay_pending : NodeId → HubState → HubState
  replay_pending node_id s = elim (pending_dispatches c node_id s.hub) [
    | ok pending ↦ route_all node_id pending s
    | err _ ↦ s
  ]

  unfoldable pub acknowledge_from : Time → NodeId → CommandId → HubState → HubState
  acknowledge_from now node_id command_id s = record s {
    hub = (Dispatch.acknowledge_dispatch_from c now command_id node_id s.hub).1;
  }

  unfoldable pub run_binding_checked :
      RunId → HubState → Result (Option (NodeId × TaskId)) × HubState
  run_binding_checked run_id s = elim (Table.get same_id run_id s.routing.run) [
    | some cached ↦ (ok (some cached), s)
    | none ↦ elim (get_run c run_id s.hub) [
      | err e ↦ (err e, s)
      | ok none ↦ (ok none, s)
      | ok (some run) ↦
          (ok (some (run.node_id, run.task_id)), remember_run run.id run.node_id run.task_id s)
    ]
  ]

  abbrev is_owner : NodeId → TaskId → Result (Option (NodeId × TaskId)) → Result Bool
  is_owner node_id task_id (err e) = err e
  is_owner node_id task_id (ok none) = ok false
  is_owner node_id task_id (ok (some (owner, task))) =
      ok (str_eq owner node_id && (task == task_id))

  abbrev pub accepts_run_event : NodeId → TaskId → Option RunId → HubState → Result Bool × HubState
  accepts_run_event node_id task_id none s = (ok false, s)
  accepts_run_event node_id task_id (some run_id) s =
      let (binding, s') = run_binding_checked run_id s in (is_owner node_id task_id binding, s')

  unfoldable pub accepts_node_event : NodeId → EventDraft → HubState → Result Bool × HubState
  accepts_node_event authenticated_node draft s = elim (str_eq draft.node_id authenticated_node) [
    | false ↦ (ok false, s)
    | true ↦ accepts_run_event authenticated_node draft.task_id draft.run_id s
  ]
