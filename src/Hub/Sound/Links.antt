-- ===== src/Hub/Sound/Links.antt =====
-- The links to nodes.
use stackhour.Prelude.{
  ℕ, refl, inl, inr, Bool, true, false, Option, none, some, List, [], ◌∷◌, arith, Bool-cases, ◌&&◌,
}
use stackhour.Result.{Result, ok, err}
use stackhour.Domain.Codec.{Codec, IsLawful}
use stackhour.Domain.Ids.{RunId, EventId, NodeId, Time}
use stackhour.Domain.Event.{EventDraft}
use stackhour.Domain.Entities.{Node}
use stackhour.Domain.Protocol.{NodeHello, NodeToHub, node_event, command_ack, heartbeat}
use stackhour.Store.Append.{AppendOutcome}
use stackhour.Store.Reads.{get_node}
use stackhour.Store.Dispatch.{PendingDispatch, pending_dispatches}
use stackhour.Store.Machine.{perform, Step}
use stackhour.Hub.State.{
  HubState, negotiate_node, register_node, unregister_node, route_all, replay_pending,
  acknowledge_from, accepts_node_event, accepts_run_event,
}
use stackhour.Hub.Commands.{run_binding}
use stackhour.Hub.NodeLink.{
  FreshEvent, open_node, node_message, close_node, on_node_connected, on_node_disconnected,
  lifecycle, connected_node, departed, judged, acknowledged,
}
use stackhour.Hub.Publish.{append_and_broadcast_node_event}
use stackhour.Domain.ConnectionStatus.{disconnected}
use stackhour.Domain.EventKind.{node_disconnected}
use stackhour.Domain.Event.{new}
use stackhour.Hub.Commands.{system_task}
use stackhour.Prelude.{str_eq}
use stackhour.Hub.Binding.{run_binding_checked-IsCoherent}
use stackhour.Hub.Reaches.{Reaches-refl, Reaches-step, run_binding-hub}
use stackhour.Hub.Sound.{IsSound, Reaches-IsSound, route_to_node-IsSound, node_event-Preserves}

module _ (c : Codec) where
  replay_pending-IsSound :
      (n : NodeId) (s : HubState) → IsSound c s → IsSound c (replay_pending c n s)
  unfolding replay_pending route_all
  replay_pending-IsSound n s v = read (pending_dispatches c n s.hub)
    where
      sent :
          (items : List PendingDispatch) (t : HubState)
          → IsSound c t
          → IsSound c (route_all n items t)
      sent [] t w = w
      sent (i ∷ items) t w = sent items _ (route_to_node-IsSound c n i.message t w)

      read :
          (r : Result (List PendingDispatch))
          → IsSound c (elim r [ ok pending ↦ route_all n pending s | err _ ↦ s ])
      read (ok items) = sent items s v
      read (err e) = v

  lifecycle-IsSound :
      (f : FreshEvent) (d : EventDraft) (s : HubState) → IsSound c s → IsSound c (lifecycle c f d s)
  lifecycle-IsSound f d s v = node_event-Preserves c f.received_at f.event_id d s v

  pub open_node-IsSound :
      (f : FreshEvent) (hello : NodeHello) (welcomed : Bool) (s : HubState)
      → IsSound c s
      → IsSound c (open_node c f hello welcomed s).1
  unfolding open_node register_node perform on_node_connected
  open_node-IsSound f hello welcomed s v =
      elim (Bool-cases (welcomed && (negotiate_node hello s).accepted)) [
        | inr refused ↦ rw refused v
        | inl admitted ↦
            let s' = (register_node hello.node_id s).1 in
            let noted : HubState = record s' {
              hub = perform c (Step.node_row (connected_node hello)) s'.hub;
            } in
            rw admitted (
              replay_pending-IsSound hello.node_id _ (
                lifecycle-IsSound f _ noted (
                  Reaches-IsSound c s noted
                    (Reaches-step c (Step.node_row (connected_node hello)) _ _ refl) refl v)))
      ]

  on_node_disconnected-IsSound :
      (f : FreshEvent) (n : NodeId) (s : HubState)
      → IsSound c s
      → IsSound c (on_node_disconnected c f n s)
  unfolding on_node_disconnected perform
  on_node_disconnected-IsSound f n s v = left (get_node c n s.hub)
    where
      left :
          (r : Result (Option Node))
          → IsSound c (
              lifecycle c f
                (new node_disconnected system_task n f.occurred_at)
                (record s { hub = departed c r s.hub }))
      left (err e) = lifecycle-IsSound f _ s v
      left (ok none) = lifecycle-IsSound f _ s v
      left (ok (some node)) =
          let step = Step.node_row (record node { status = disconnected }) in
          let noted : HubState = record s { hub = perform c step s.hub } in
          lifecycle-IsSound f _ noted
            (Reaches-IsSound c s noted (Reaches-step c step _ _ refl) refl v)

  unregister_node-IsSound :
      (n : NodeId) (id : ℕ) (s : HubState) → IsSound c s → IsSound c (unregister_node n id s).1
  unfolding unregister_node
  unregister_node-IsSound n id s v =
      Reaches-IsSound c s (unregister_node n id s).1 (Reaches-refl c _ _ (ground arith))
        (ground arith) v

  pub close_node-IsSound :
      (f : FreshEvent) (n : NodeId) (id : ℕ) (s : HubState)
      → IsSound c s
      → IsSound c (close_node c f n id s)
  unfolding close_node
  close_node-IsSound f n id s v =
      let v' = unregister_node-IsSound n id s v in
      elim (Bool-cases (unregister_node n id s).0) [
        | inl owned ↦
            rw (close_node, owned) (on_node_disconnected-IsSound f n (unregister_node n id s).1 v')
        | inr other ↦ rw (close_node, other) v'
      ]

  module _ (lawful : IsLawful c) where
    pub run_binding-IsSound :
        (id : RunId) (s : HubState) → IsSound c s → IsSound c (run_binding c id s).1
    unfolding run_binding
    run_binding-IsSound id s v =
        (rw (run_binding-hub c id s) v.0, run_binding_checked-IsCoherent c id s lawful v.1)

    accepts_node_event-IsSound :
        (n : NodeId) (d : EventDraft) (s : HubState)
        → IsSound c s
        → IsSound c (accepts_node_event c n d s).1
    unfolding accepts_node_event run_binding
    accepts_node_event-IsSound n d s v = elim (Bool-cases (str_eq d.node_id n)) [
      | inr other ↦ rw (accepts_node_event, other) v
      | inl own ↦ rw (accepts_node_event, own) (of_run d.run_id)
    ]
      where
        of_run : (r : Option RunId) → IsSound c (accepts_run_event c n d.task_id r s).1
        of_run none = v
        of_run (some id) = run_binding-IsSound id s v

    judged-IsSound :
        (now : Time) (n : NodeId) (e : EventId) (d : EventDraft) (x : Result Bool × HubState)
        → IsSound c x.1
        → IsSound c (judged c now n e d x)
    judged-IsSound now n e d (err x, s) v = v
    judged-IsSound now n e d (ok false, s) v = route_to_node-IsSound c n _ s v
    judged-IsSound now n e d (ok true, s) v =
        answered (append_and_broadcast_node_event c now e d s) (node_event-Preserves c now e d s v)
      where
        answered :
            (y : Result AppendOutcome × HubState) → IsSound c y.1 → IsSound c (acknowledged e n y)
        answered (err x, t) w = w
        answered (ok o, t) w = route_to_node-IsSound c n _ t w

    pub node_message-IsSound :
        (now : Time) (n : NodeId) (m : NodeToHub) (s : HubState)
        → IsSound c s
        → IsSound c (node_message c now n m s)
    unfolding node_message acknowledge_from perform
    node_message-IsSound now n (node_event e d) s v =
        judged-IsSound now n e d (accepts_node_event c n d s) (accepts_node_event-IsSound n d s v)
    node_message-IsSound now n (command_ack k) s v =
        Reaches-IsSound c s (acknowledge_from c now n k s)
          (Reaches-step c (Step.dispatch_ack_from now k n) _ _ refl) refl v
    node_message-IsSound now n heartbeat s v = v
