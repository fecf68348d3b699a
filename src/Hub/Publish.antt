-- ===== src/Hub/Publish.antt =====
-- The durable append with its broadcast: `fetch_event`, `append_and_broadcast_command`,
-- `append_and_broadcast_node_event`, `finish` and `finish_with_entity`, of
-- crates/stackhour-hub/src/lib.rs.
use stackhour.Prelude.{
  ℕ, ◌-◌, true, false, Option, none, some, [], ◌∷◌, ◌++◌, ℤ, pos, negsuc, ◌==◌, if◌then◌else◌,
}
use stackhour.Result.{Result, ok, err}
use stackhour.Sql
use stackhour.Domain.Codec.{Codec}
use stackhour.Domain.Ids.{EventId, CommandId, NodeId, Time}
use stackhour.Domain.Event.{EventDraft, Event}
use stackhour.Domain.Protocol.{HubToNode, HubToClient, command_receipt, accepted_receipt}
use stackhour.Store.Db.{Db}
use stackhour.Store.Reads.{events_after}
use stackhour.Store.Append.{
  AppendOutcome, EntityWrite, no_entity, append_command_bundle, append_node_event,
}
use stackhour.Hub.State.{HubState}

pub record CommandEffect : Type 0 where
  pub receipt : HubToClient
  pub dispatch : Option (NodeId × HubToNode)

-- `sequence - 1`
abbrev pub before : ℕ → ℤ
before sequence = if sequence == 0 then negsuc 0 else pos (sequence - 1)

-- what `finish_with_entity` answers where the store fails
abbrev pub unaccepted : CommandId → HubToClient
unaccepted command_id = command_receipt (record {
  command_id = command_id;
  accepted = false;
  assigned_sequence = none;
  event_id = none;
  error = none;
})

abbrev pub send : Result (Option Event) → AppendOutcome → HubState → Result AppendOutcome × HubState
send (err e) outcome s = (err e, s)
send (ok none) outcome s = (ok outcome, s)
send (ok (some event)) outcome s = (ok outcome, record s { published = s.published ++ event ∷ [] })

abbrev pub effect_of :
    CommandId → Option (NodeId × HubToNode) → Result AppendOutcome → CommandEffect
effect_of command_id dispatch (err e) = record { receipt = unaccepted command_id; dispatch = none }
effect_of command_id dispatch (ok outcome) = record {
  receipt = accepted_receipt command_id outcome.sequence outcome.event_id;
  dispatch = if outcome.created then dispatch else none;
}

module _ (c : Codec) where
  unfoldable pub fetch_event : ℕ → Db → Result (Option Event)
  fetch_event sequence db = elim (events_after c (before sequence) db) [
    | err e ↦ err e
    | ok events ↦ ok (Sql.first (λ (e : Event). e.sequence == sequence) events)
  ]

  -- what follows the append inside the lock
  unfoldable pub publish : Result AppendOutcome → HubState → Result AppendOutcome × HubState
  unfolding fetch_event
  publish (err e) s = (err e, s)
  publish (ok outcome) s = elim outcome.created [
    | false ↦ (ok outcome, s)
    | true ↦ send (fetch_event outcome.sequence s.hub) outcome s
  ]

  unfoldable pub append_and_broadcast_command :
      Time
      → EventId
      → CommandId
      → EventDraft
      → EntityWrite
      → Option (NodeId × HubToNode)
      → HubState
      → Result AppendOutcome × HubState
  unfolding publish
  append_and_broadcast_command now event_id command_id draft entity dispatch s =
      let (outcome, hub) =
        append_command_bundle c now event_id command_id draft entity dispatch s.hub in
      publish outcome (record s { hub = hub })

  unfoldable pub append_and_broadcast_node_event :
      Time → EventId → EventDraft → HubState → Result AppendOutcome × HubState
  unfolding publish
  append_and_broadcast_node_event now event_id draft s =
      let (outcome, hub) = append_node_event c now event_id draft s.hub in
      publish outcome (record s { hub = hub })

  unfoldable pub finish_with_entity :
      Time
      → EventId
      → CommandId
      → EventDraft
      → Option (NodeId × HubToNode)
      → EntityWrite
      → HubState
      → CommandEffect × HubState
  unfolding append_and_broadcast_command
  finish_with_entity now event_id command_id draft dispatch entity s =
      let (outcome, s') =
        append_and_broadcast_command now event_id command_id draft entity dispatch s in
      (effect_of command_id dispatch outcome, s')

  unfoldable pub finish :
      Time
      → EventId
      → CommandId
      → EventDraft
      → Option (NodeId × HubToNode)
      → HubState
      → CommandEffect × HubState
  unfolding finish_with_entity
  finish now event_id command_id draft dispatch s =
      finish_with_entity now event_id command_id draft dispatch no_entity s
