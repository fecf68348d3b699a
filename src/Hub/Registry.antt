-- ===== src/Hub/Registry.antt =====
-- A node that reconnects: its slot, and the commands that it is sent again.
use stackhour.Prelude.{
  ℕ, ◌+◌, ◌%◌, ◌^◌, ◌<◌, ◌≡◌, refl, ap, ◌∙◌, true, false, some, List, [], ◌∷◌, ◌++◌, map, arith,
  str_eq, eq_refl, ◌==◌,
}
use mathlib.Core.List.{append-nil, append_assoc}
use stackhour.Result.{ok}
use stackhour.Domain.Codec.{Codec}
use stackhour.Domain.Ids.{NodeId}
use stackhour.Domain.Protocol.{HubToNode}
use stackhour.Store.Dispatch.{PendingDispatch, pending_dispatches}
use stackhour.Hub.Table
use stackhour.Hub.Table.{get-insert, get-remove}
use stackhour.Hub.State.{
  HubState, NodeConnection, register_node, unregister_node, route_to_node, route_all,
  replay_pending,
}

next_differs : (a : ℕ) → a < 2 ^ 64 → ((a + 1) % 2 ^ 64 == a) ≡ false
next_differs a h = ground arith

-- A node that reconnects before its old connection is torn down keeps its new slot: the old
-- connection's teardown reports that it owns nothing and changes nothing.
pub unregister_node-stale :
    (n : NodeId) (s : HubState)
    → s.next_node_connection_id < 2 ^ 64
    → let (old, first) = register_node n s in
      let (new, second) = register_node n first in unregister_node n old second ≡ (false, second)
unfolding register_node unregister_node
unregister_node-stale n s h = ground (
  arith,
  get-insert str_eq n
      (record { id = (s.next_node_connection_id + 1) % 2 ^ 64; sent = []; live = true })
      (register_node n s).1.nodes (eq_refl n),
  next_differs s.next_node_connection_id h,
)

route_to_node-sent :
    (n : NodeId) (m : HubToNode) (s : HubState) {connection : NodeConnection}
    → Table.get str_eq n s.nodes ≡ some connection
    → connection.live ≡ true
    → Table.get str_eq n (route_to_node n m s).1.nodes
      ≡ some (record connection { sent = connection.sent ++ m ∷ [] })
unfolding route_to_node
route_to_node-sent n m s {connection} h live = ground (
  arith,
  get-insert str_eq n (record connection { sent = connection.sent ++ m ∷ [] }) s.nodes (eq_refl n),
)

route_all-sent :
    (n : NodeId) (pending : List PendingDispatch) (s : HubState) {connection : NodeConnection}
    → Table.get str_eq n s.nodes ≡ some connection
    → connection.live ≡ true
    → Table.get str_eq n (route_all n pending s).nodes
      ≡ some (record connection {
        sent = connection.sent ++ map (λ (p : PendingDispatch). p.message) pending;
      })
unfolding route_all route_to_node
route_all-sent n [] s {connection} h live = ground (arith, append-nil connection.sent)
route_all-sent n (item ∷ pending) s {connection} h live =
    route_all-sent n pending (route_to_node n item.message s).1
      {connection = record connection { sent = connection.sent ++ item.message ∷ [] }}
      (route_to_node-sent n item.message s h live) live
    ∙ ap (λ (ms : List HubToNode). some (record connection { sent = ms }))
        (append_assoc connection.sent (item.message ∷ [])
          (map (λ (p : PendingDispatch). p.message) pending))

-- A node that connects is sent the messages of its unacknowledged commands, in the order of their
-- creation and nothing before them.
pub replay_pending-sent :
    (c : Codec) (n : NodeId) (s : HubState) {pending : List PendingDispatch}
    → pending_dispatches c n s.hub ≡ ok pending
    → Table.get str_eq n (replay_pending c n (register_node n s).1).nodes
      ≡ some (record {
        id = s.next_node_connection_id;
        sent = map (λ (p : PendingDispatch). p.message) pending;
        live = true;
      })
unfolding replay_pending register_node
replay_pending-sent c n s {pending} h =
    rw (replay_pending, h)
      (route_all-sent n pending (register_node n s).1
        {connection = record { id = s.next_node_connection_id; sent = []; live = true }}
        (get-insert str_eq n (record { id = s.next_node_connection_id; sent = []; live = true })
          s.nodes (eq_refl n))
        refl)
