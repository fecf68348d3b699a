-- ===== src/Hub/Acknowledged.antt =====
-- What a node is told of an event that it sent.
use stackhour.Prelude.{
  ◌≡◌, refl, ap, ◌∙◌, Bool, true, false, Option, none, some, arith, inl, inr, ◌⊎◌, Bool-cases,
}
use stackhour.Result.{Result, ok, err, Result-cases}
use stackhour.Domain.Codec.{Codec}
use stackhour.Domain.Ids.{EventId, NodeId, Time}
use stackhour.Domain.Event.{EventDraft, Event}
use stackhour.Domain.Protocol.{node_event}
use stackhour.Store.Db.{Db}
use stackhour.Store.Rows.{EventRow}
use stackhour.Store.Append.{AppendOutcome, append_node_event, find_event}
use stackhour.Store.NodeEvents.Retry.{append-Logged}
use stackhour.Hub.State.{HubState, accepts_node_event, run_binding_checked, remember_run}
use stackhour.Hub.Publish.{append_and_broadcast_node_event, publish, send, fetch_event}
use stackhour.Hub.NodeLink.{node_message, judged, acknowledged}
use stackhour.Hub.Reaches.{
  Reaches, Reaches-refl, Reaches-step, Reaches-trans, publish-hub, route_to_node-hub,
}
use stackhour.Store.Machine

module _ (c : Codec) where
  -- nothing is sent to any node; or the event was refused and no table changed; or the log has it
  abbrev pub IsHonest : EventId → Result Bool → HubState → HubState → Type 0
  IsHonest e verdict s t =
      (t.nodes ≡ s.nodes)
      ⊎ (((verdict ≡ ok false) × (t.hub ≡ s.hub))
          ⊎ ((row : EventRow) × (find_event (c.uuid_text e) t.hub ≡ some row)))

  publish-nodes : (r : Result AppendOutcome) (s : HubState) → (publish c r s).1.nodes ≡ s.nodes
  unfolding publish
  publish-nodes (err e) s = refl
  publish-nodes (ok o) s = elim (Bool-cases o.created) [
    | inr old ↦ rw (publish, old) refl
    | inl new ↦ rw (publish, new) (sent (fetch_event c o.sequence s.hub))
  ]
    where
      sent : (r : Result (Option Event)) → (send r o s).1.nodes ≡ s.nodes
      sent (err e) = refl
      sent (ok none) = refl
      sent (ok (some e)) = refl

  accepts_node_event-frame :
      (n : NodeId) (d : EventDraft) (s : HubState)
      → ((accepts_node_event c n d s).1.hub ≡ s.hub)
        × ((accepts_node_event c n d s).1.nodes ≡ s.nodes)
  unfolding accepts_node_event run_binding_checked remember_run
  accepts_node_event-frame n d s = (ground arith, ground arith)

  logged :
      (now : Time) (n : NodeId) (e : EventId) (d : EventDraft) (s : HubState)
      (r : Result AppendOutcome) (db : Db)
      → append_node_event c now e d s.hub ≡ (r, db)
      → IsHonest e (ok true) s (acknowledged e n (publish c r (record s { hub = db })))
  unfolding publish
  logged now n e d s (err x) db p = inl refl
  logged now n e d s (ok o) db p =
      let (row, found, at, same) = append-Logged c now e d s.hub p in
      let published = publish c (ok o) (record s { hub = db }) in
      elim (Result-cases published.0) [
        | inr (x, bad) ↦ inl (rw (acknowledged, bad) (publish-nodes (ok o) (record s { hub = db })))
        | inl (o', good) ↦ inr (
            inr (
              row,
              rw (acknowledged, good)
                  (ap (find_event (c.uuid_text e)) (
                      route_to_node-hub c n _ published.1
                      ∙ publish-hub c (ok o) (record s { hub = db }))
                    ∙ found),
            ))
      ]

  judged-IsHonest :
      (now : Time) (n : NodeId) (e : EventId) (d : EventDraft) (x : Result Bool × HubState)
      → IsHonest e x.0 x.1 (judged c now n e d x)
  unfolding append_and_broadcast_node_event
  judged-IsHonest now n e d (err x, s) = inl refl
  judged-IsHonest now n e d (ok false, s) = inr (inl (refl, route_to_node-hub c n _ s))
  judged-IsHonest now n e d (ok true, s) =
      let a = append_node_event c now e d s.hub in logged now n e d s a.0 a.1 refl

  -- After an event of a node, either nothing was sent to any node; or the hub refused the event,
  -- and no table changed; or the log holds the event. So an acknowledged event was refused for good
  -- or is durable.
  pub node_message-IsHonest :
      (now : Time) (n : NodeId) (e : EventId) (d : EventDraft) (s : HubState)
      → IsHonest e (accepts_node_event c n d s).0 s (node_message c now n (node_event e d) s)
  unfolding node_message
  node_message-IsHonest now n e d s =
      let frame = accepts_node_event-frame n d s in
      moved (accepts_node_event c n d s).1 (node_message c now n (node_event e d) s)
        (accepts_node_event c n d s).0 frame.0 frame.1
        (judged-IsHonest now n e d (accepts_node_event c n d s))
    where
      moved :
          (t u : HubState) (verdict : Result Bool)
          → t.hub ≡ s.hub
          → t.nodes ≡ s.nodes
          → IsHonest e verdict t u
          → IsHonest e verdict s u
      moved t u verdict hub nodes (inl same) = inl (same ∙ nodes)
      moved t u verdict hub nodes (inr (inl (v, same))) = inr (inl (v, same ∙ hub))
      moved t u verdict hub nodes (inr (inr found)) = inr (inr found)

  acknowledged-hub :
      (e : EventId) (n : NodeId) (x : Result AppendOutcome × HubState)
      → (acknowledged e n x).hub ≡ x.1.hub
  acknowledged-hub e n (err y, s) = refl
  acknowledged-hub e n (ok o, s) = route_to_node-hub c n _ s

  judged-Reaches :
      (now : Time) (n : NodeId) (e : EventId) (d : EventDraft) (x : Result Bool × HubState)
      → Reaches c x.1.hub (judged c now n e d x).hub
  unfolding append_and_broadcast_node_event Machine.perform append_node_event
  judged-Reaches now n e d (err x, s) = Reaches-refl c _ _ refl
  judged-Reaches now n e d (ok false, s) = Reaches-refl c _ _ (route_to_node-hub c n _ s)
  judged-Reaches now n e d (ok true, s) = Reaches-step c (Machine.node_event now e d) s.hub _ (
      acknowledged-hub e n (append_and_broadcast_node_event c now e d s)
      ∙ publish-hub c (append_node_event c now e d s.hub).0 _)

  -- What an event of a node does to the store is a history of the store's operations.
  pub node_message-Reaches :
      (now : Time) (n : NodeId) (e : EventId) (d : EventDraft) (s : HubState)
      → Reaches c s.hub (node_message c now n (node_event e d) s).hub
  unfolding node_message
  node_message-Reaches now n e d s =
      Reaches-trans c s.hub (accepts_node_event c n d s).1.hub _
        (Reaches-refl c _ _ (accepts_node_event-frame n d s).0)
        (judged-Reaches now n e d (accepts_node_event c n d s))
