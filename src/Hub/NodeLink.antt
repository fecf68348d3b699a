-- ===== src/Hub/NodeLink.antt =====
-- The link to a node: `handle_node`, `on_node_connected` and `on_node_disconnected`, of
-- crates/stackhour-hub/src/lib.rs. Each turn of the loop is one function; what the socket does
-- (whether a send fails, when it closes) is an argument or the choice of the next function.
use stackhour.Prelude.{ℕ, ◌&&◌, if◌then◌else◌, Bool, true, false, Option, none, some}
use stackhour.Result.{Result, ok, err}
use stackhour.Domain.Codec.{Codec}
use stackhour.Domain.Ids.{EventId, NodeId, Time}
use stackhour.Domain.Json.{str, obj, no_members, member}
use stackhour.Domain.ConnectionStatus.{connected, disconnected}
use stackhour.Domain.EventKind.{node_connected, node_disconnected}
use stackhour.Domain.Event.{EventDraft, new, with_payload}
use stackhour.Domain.Entities.{Node}
use stackhour.Domain.Protocol.{NodeHello, NodeToHub, node_event, command_ack, heartbeat, event_ack}
use stackhour.Store.Db.{Db}
use stackhour.Store.Reads.{get_node}
use stackhour.Store.Append.{AppendOutcome}
use stackhour.Store.Entities.{upsert_node}
use stackhour.Hub.State.{
  HubState, negotiate_node, register_node, unregister_node, route_to_node, replay_pending,
  acknowledge_from, accepts_node_event,
}
use stackhour.Hub.Publish.{append_and_broadcast_node_event}
use stackhour.Hub.Commands.{system_task}

-- the clock and the fresh id of a lifecycle event
pub record FreshEvent : Type 0 where
  pub event_id : EventId
  pub occurred_at : Time
  pub received_at : Time

abbrev pub connected_node : NodeHello → Node
connected_node hello = record {
  id = hello.node_id;
  label = hello.node_id;
  status = connected;
  software_version = hello.software_version;
  capabilities = hello.capabilities;
  last_seen_sequence = hello.resume_after_sequence;
}

abbrev pub acknowledged : EventId → NodeId → Result AppendOutcome × HubState → HubState
acknowledged event_id node_id (err e, s) = s
acknowledged event_id node_id (ok outcome, s) = (route_to_node node_id (event_ack event_id) s).1

module _ (c : Codec) where
  -- the append's result is dropped
  abbrev pub lifecycle : FreshEvent → EventDraft → HubState → HubState
  lifecycle fresh draft s =
      (append_and_broadcast_node_event c fresh.received_at fresh.event_id draft s).1

  unfoldable pub on_node_connected : FreshEvent → NodeHello → HubState → HubState
  on_node_connected fresh hello s =
      lifecycle fresh
        (with_payload (new node_connected system_task hello.node_id fresh.occurred_at) (
          obj (
            member "software_version" (str hello.software_version)
              (member "capabilities" hello.capabilities no_members))))
        (record s { hub = (upsert_node c (connected_node hello) s.hub).1 })

  abbrev pub departed : Result (Option Node) → Db → Db
  departed (ok (some node)) db = (upsert_node c (record node { status = disconnected }) db).1
  departed (ok none) db = db
  departed (err e) db = db

  unfoldable pub on_node_disconnected : FreshEvent → NodeId → HubState → HubState
  on_node_disconnected fresh node_id s =
      lifecycle fresh (new node_disconnected system_task node_id fresh.occurred_at)
        (record s { hub = departed (get_node c node_id s.hub) s.hub })

  abbrev pub admitted : FreshEvent → NodeHello → HubState → Option ℕ × HubState
  admitted fresh hello s =
      let (connection_id, s') = register_node hello.node_id s in
      (some connection_id, replay_pending c hello.node_id (on_node_connected fresh hello s'))

  -- the opening, and the connection of an admitted node; `welcomed` says whether the welcome was sent
  unfoldable pub open_node :
      FreshEvent → NodeHello → (welcomed : Bool) → HubState → Option ℕ × HubState
  unfolding on_node_connected
  open_node fresh hello welcomed s =
      if welcomed && (negotiate_node hello s).accepted then admitted fresh hello s else (none, s)

  abbrev pub judged : Time → NodeId → EventId → EventDraft → Result Bool × HubState → HubState
  judged now node_id event_id draft (err e, s) = s
  judged now node_id event_id draft (ok false, s) = (route_to_node node_id (event_ack event_id) s).1
  judged now node_id event_id draft (ok true, s) =
      acknowledged event_id node_id (append_and_broadcast_node_event c now event_id draft s)

  -- one message of the node `node_id`
  unfoldable pub node_message : Time → NodeId → NodeToHub → HubState → HubState
  node_message now node_id (node_event event_id draft) s =
      judged now node_id event_id draft (accepts_node_event c node_id draft s)
  node_message now node_id (command_ack command_id) s = acknowledge_from c now node_id command_id s
  node_message now node_id heartbeat s = s

  -- the end: the slot is given up, and the departure recorded if it was this connection's
  unfoldable pub close_node : FreshEvent → NodeId → ℕ → HubState → HubState
  unfolding on_node_disconnected
  close_node fresh node_id connection_id s =
      let (owned, s') = unregister_node node_id connection_id s in
      elim owned [ true ↦ on_node_disconnected fresh node_id s' | false ↦ s' ]
