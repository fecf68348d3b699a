-- ===== src/Hub/ClientLink/Session.antt =====
-- A client's session: the turns of its link among the appends of the hub. The broadcast channel is
-- `published`, and the client's receiver is a position in it.
use stackhour.Prelude.{ℕ, zero, suc, ◌+◌, Option, none, some, List, [], ◌∷◌, length, min}
use stackhour.Domain.Codec.{Codec}
use stackhour.Domain.Ids.{EventId, CommandId, NodeId, Time}
use stackhour.Domain.Event.{EventDraft, Event}
use stackhour.Domain.Protocol.{HubToNode, Receipt, command_receipt, heartbeat}
use stackhour.Store.Append.{EntityWrite}
use stackhour.Hub.State.{HubState}
use stackhour.Hub.Publish.{append_and_broadcast_command, append_and_broadcast_node_event}
use stackhour.Hub.ClientLink.{Client, live_event, resync, push}

pub record Session : Type 0 where
  pub client : Client
  pub next : ℕ
  pub state : HubState

-- `lagged` is tokio's `RecvError::Lagged`: the receiver goes on behind the values that were dropped.
-- `answered` sends the receipt of the client's own command, whose append is a turn of its own.
pub data Turn : Type 0 where
  commanded :
      Time → EventId → CommandId → EventDraft → EntityWrite → Option (NodeId × HubToNode) → Turn
  reported : Time → EventId → EventDraft → Turn
  answered : Receipt → Turn
  received : Turn
  lagged : (dropped : ℕ) → Turn
  beat : Turn

-- the value at a position of the channel
unfoldable pub nth {ℓ} : {A : Type ℓ} → ℕ → List A → Option A
nth n [] = none
nth zero (x ∷ xs) = some x
nth (suc n) (x ∷ xs) = nth n xs

abbrev pub receive : Option Event → Session → Session
receive none session = session
receive (some event) session = record session {
  client = live_event event session.client;
  next = suc session.next;
}

abbrev pub resynced : ℕ → Option Client → Session → Option Session
resynced next none session = none
resynced next (some client) session = some (record session { client = client; next = next })

module _ (c : Codec) where
  unfoldable pub turn : Turn → Session → Option Session
  turn (commanded now e k d w q) session =
      some
        (record session { state = (append_and_broadcast_command c now e k d w q session.state).1 })
  turn (reported now e d) session =
      some (record session { state = (append_and_broadcast_node_event c now e d session.state).1 })
  turn (answered receipt) session =
      some (record session { client = push (command_receipt receipt) session.client })
  turn received session = some (receive (nth session.next session.state.published) session)
  turn (lagged dropped) session =
      resynced (min (session.next + dropped) (length session.state.published))
        (resync c session.client session.state.hub) session
  turn beat session = some (record session { client = push heartbeat session.client })

  unfoldable pub turns : List Turn → Session → Option Session
  turns [] session = some session
  turns (t ∷ ts) session = elim (turn t session) [ none ↦ none | some next ↦ turns ts next ]
