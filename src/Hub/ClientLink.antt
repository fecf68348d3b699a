-- ===== src/Hub/ClientLink.antt =====
-- The link to a client: `handle_client` and `HubState::snapshot`, of
-- crates/stackhour-hub/src/lib.rs. A `Client` is what the loop keeps of a connection whose sends
-- have succeeded; no client stands for a connection that was closed.
pub mod Session
pub mod Delivered
pub mod Exact
pub mod NoGap
pub mod Turns
use stackhour.Prelude.{
  ℕ, String, Bool, true, false, Option, none, some, List, [], ◌∷◌, ◌++◌, map, ℤ, pos, ltb_ℤ, ltb,
  leb, if◌then◌else◌,
}
use stackhour.Result.{Result, ok, err}
use stackhour.Sql
use stackhour.Domain.Codec.{Codec}
use stackhour.Domain.Event.{Event}
use stackhour.Domain.Protocol.{HubToClient, event_delivery, subscribe_ack, heartbeat, ClientCommand}
use stackhour.Store.Db.{Db}
use stackhour.Store.Reads.{events_after}
use stackhour.Hub.State.{HubState, accepts_client}
use stackhour.Hub.Commands.{Fresh, apply_command, route_dispatch}

pub record Client : Type 0 where
  pub last_delivered : ℕ
  pub sent : List HubToClient

-- `all.last().map(|e| e.sequence).unwrap_or(0)`
unfoldable pub last_sequence : List Event → ℕ
last_sequence [] = 0
last_sequence (e ∷ []) = e.sequence
last_sequence (e ∷ f ∷ rest) = last_sequence (f ∷ rest)

abbrev pub cursor : Option ℤ → ℤ
cursor none = pos 0
cursor (some after) = after

abbrev pub push : HubToClient → Client → Client
push frame client = record client { sent = client.sent ++ frame ∷ [] }

-- an event from the broadcast channel
unfoldable pub live_event : Event → Client → Client
live_event event client =
    if ltb client.last_delivered event.sequence
    then record { last_delivered = event.sequence; sent = client.sent ++ event_delivery event ∷ [] }
    else client

-- the loop over the events that a lagging client missed
unfoldable pub deliver_missed : List Event → Client → Client
deliver_missed [] client = client
deliver_missed (event ∷ missed) client = deliver_missed missed (
    if leb event.sequence client.last_delivered then client else record {
      last_delivered = event.sequence;
      sent = client.sent ++ event_delivery event ∷ [];
    })

abbrev pub tick : (expired : Bool) → Client → Option Client
tick true client = none
tick false client = some (push heartbeat client)

module _ (c : Codec) where
  unfoldable pub snapshot : ℤ → Db → Result (ℕ × List Event)
  unfolding last_sequence
  snapshot after db = elim (events_after c (pos 0) db) [
    | err e ↦ err e
    | ok events ↦
        ok (last_sequence events, Sql.select (λ (e : Event). ltb_ℤ after (pos e.sequence)) events)
  ]

  abbrev pub subscribed : Option ℤ → Result (ℕ × List Event) → Option Client
  subscribed after_sequence (err e) = none
  subscribed after_sequence (ok (head, catch_up)) = some (record {
    last_delivered = head;
    sent = subscribe_ack after_sequence head ∷ map event_delivery catch_up;
  })

  -- from the `Subscribe` frame to the loop
  unfoldable pub open_client : (token : Option String) → Option ℤ → HubState → Option Client
  unfolding snapshot
  open_client token after_sequence s =
      if accepts_client token s
      then subscribed after_sequence (snapshot (cursor after_sequence) s.hub)
      else none

  abbrev pub caught_up : Client → Result (List Event) → Option Client
  caught_up client (err e) = none
  caught_up client (ok missed) = some (deliver_missed missed client)

  -- the broadcast channel dropped events for this client
  unfoldable pub resync : Client → Db → Option Client
  unfolding deliver_missed
  resync client db = caught_up client (events_after c (pos client.last_delivered) db)

  unfoldable pub client_command : Fresh → ClientCommand → Client → HubState → Client × HubState
  unfolding apply_command
  client_command fresh cmd client s =
      let (effect, s') = apply_command c fresh cmd s in
      (push effect.receipt client, route_dispatch effect.dispatch s')
