-- ===== src/Node/Delivery.antt =====
-- A node's outbox and the hub's link to the node together: `EngineOutbox` of
-- crates/stackhour-node/src/engine.rs and `handle_node` of crates/stackhour-hub/src/lib.rs. A step is
-- a step of one side; the frames between them may be lost, come late or come again.
pub mod Held
use stackhour.Prelude.{ℕ, ◌≡◌, ◌≢◌, ◌⊎◌, Bool, true, false, List, [], ◌∷◌}
use stackhour.Result.{Result, ok, err}
use stackhour.Domain.Codec.{Codec}
use stackhour.Domain.Ids.{EventId, NodeId, Time}
use stackhour.Domain.Event.{EventDraft}
use stackhour.Domain.Protocol.{node_event}
use stackhour.Hub.State.{HubState, accepts_node_event}
use stackhour.Hub.NodeLink.{node_message}
use stackhour.Hub.Reaches.{Reaches}
use stackhour.Node.Outbox
use stackhour.Node.Outbox.{
  OutboxState, Operation, linked, attached, detached, resent, acknowledged, emitted, acked, framed,
  proceeded, acknowledge_event,
}

-- `acks` has the events whose acknowledgement the hub has sent, and `refused` those that it did not
-- accept.
pub record System : Type 0 where
  pub outbox : OutboxState
  pub hub : HubState
  pub acks : List EventId
  pub refused : List EventId

-- all but the acknowledgement of an event
abbrev pub is_own : Operation → Bool
is_own (acknowledged e) = false
is_own (linked life) = true
is_own (attached tx) = true
is_own detached = true
is_own resent = true
is_own (emitted e d) = true
is_own (acked k) = true
is_own (framed tx f) = true
is_own (proceeded i) = true

abbrev pub Has : EventId → List EventId → Type 0
Has e [] = ⊥
Has e (x ∷ xs) = (x ≡ e) ⊎ Has e xs

abbrev pub with_refused : Result Bool → EventId → List EventId → List EventId
with_refused (ok false) e refused = e ∷ refused
with_refused (ok true) e refused = refused
with_refused (err x) e refused = refused

module _ (c : Codec) (n : NodeId) where
  pub data Step : System → System → Type 0 where
    -- the node's engine or its link acts on the outbox
    node_acts :
        (s : System) (x : Operation)
        → is_own x ≡ true
        → Step s (record s { outbox = Outbox.operate x s.outbox })
    -- the node hears an acknowledgement that the hub has sent
    node_hears :
        (s : System) (e : EventId)
        → Has e s.acks
        → Step s (record s { outbox = acknowledge_event e s.outbox })
    -- the hub takes an event of the node, and what it sends in answer may reach the node
    hub_answers :
        (s : System) (now : Time) (e : EventId) (d : EventDraft)
        → (node_message c now n (node_event e d) s.hub).nodes ≢ s.hub.nodes
        → Step s (record s {
          hub = node_message c now n (node_event e d) s.hub;
          acks = e ∷ s.acks;
          refused = with_refused (accepts_node_event c n d s.hub).0 e s.refused;
        })
    -- the hub takes an event of the node, and no answer reaches the node
    hub_takes :
        (s : System) (now : Time) (e : EventId) (d : EventDraft)
        → Step s (record s { hub = node_message c now n (node_event e d) s.hub })
    -- anything else that the hub does: its store moves by operations of the store
    hub_works :
        (s : System) (t : HubState) → Reaches c s.hub.hub t.hub → Step s (record s { hub = t })

  pub data Run (s : System) : System → Type 0 where
    here : Run s s
    next : {t u : System} → Run s t → Step t u → Run s u
