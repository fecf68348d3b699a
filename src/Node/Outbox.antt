-- ===== src/Node/Outbox.antt =====
-- The node's outbox: `Outgoing`, `OutboxState` and `EngineOutbox`, of
-- crates/stackhour-node/src/engine.rs. A method takes what it reads under the lock in one step, and
-- then waits for its sends: it leaves a sender, which puts its frames into the link one at a time,
-- with the steps of other tasks in between. A link is the writer's channel: the frames that it took,
-- and how many more the writer takes before it ends. What the sends answer is left out; only the
-- transport tests' engine reads it.
pub mod Pending
pub mod Order
pub mod Taken
pub mod Waiting
pub mod Attach
use stackhour.Prelude.{
  ℕ, zero, suc, Option, none, some, List, [], ◌∷◌, ◌++◌, ◌==◌, if◌then◌else◌, map, get_elem?, set,
}
use stackhour.Domain.Ids.{TaskId, RunId, EventId, CommandId, NodeId, Time}
use stackhour.Domain.Json.{Value}
use stackhour.Domain.EventKind.{EventKind}
use stackhour.Domain.Event.{EventDraft, new, with_run, with_payload}
use stackhour.Domain.Protocol.{NodeToHub, node_event, command_ack}

pub data Outgoing : Type 0 where
  protocol : NodeToHub → Outgoing
  pong : List ℕ → Outgoing

pub record Link : Type 0 where
  pub sent : List Outgoing
  pub life : ℕ

-- a call that waits for its sends: the place of its link, and the frames that it has left
pub record Sender : Type 0 where
  pub link : ℕ
  pub left : List Outgoing

-- `tx` is the place of the link; `links` has every link that was opened, and `senders` every call
-- that came to its sends.
pub record OutboxState : Type 0 where
  pub tx : Option ℕ
  pub pending_events : List (EventId × NodeToHub)
  pub links : List Link
  pub senders : List Sender

abbrev pub persistent : OutboxState
persistent = record { tx = none; pending_events = []; links = []; senders = [] }

-- `mpsc::channel` with its writer
abbrev pub open_link : (life : ℕ) → OutboxState → OutboxState
open_link life o = record o { links = o.links ++ record { sent = []; life = life } ∷ [] }

-- a call comes to its sends; without a link there are none
abbrev pub call : Option ℕ → List Outgoing → OutboxState → OutboxState
call none frames o = o
call (some link) frames o = record o {
  senders = o.senders ++ record { link = link; left = frames } ∷ [];
}

-- `tx.send` of the sender's next frame; its loop breaks where the link takes none
abbrev pub send_frame :
    (i : ℕ) (s : Sender) (frame : Outgoing) (rest : List Outgoing)
    → Option Link
    → OutboxState
    → OutboxState
send_frame i s frame rest none o = o
send_frame i s frame rest (some link) o = elim link.life [
  | zero ↦ record o { senders = set o.senders i (record s { left = [] }) }
  | suc life ↦ record o {
    links = set o.links s.link (record { sent = link.sent ++ frame ∷ []; life = life });
    senders = set o.senders i (record s { left = rest });
  }
]

abbrev pub proceed_with : (i : ℕ) → Option Sender → OutboxState → OutboxState
proceed_with i none o = o
proceed_with i (some s) o = elim s.left [
  | [] ↦ o
  | frame ∷ rest ↦ send_frame i s frame rest (get_elem? o.links s.link) o
]

-- the next send of a call
unfoldable pub proceed : (i : ℕ) → OutboxState → OutboxState
proceed i o = proceed_with i (get_elem? o.senders i) o

abbrev pub frames : List (EventId × NodeToHub) → List Outgoing
frames p = map (λ (x : EventId × NodeToHub). protocol x.1) p

unfoldable pub attach : (tx : ℕ) → OutboxState → OutboxState
attach tx o = call (some tx) (frames o.pending_events) (record o { tx = some tx })

unfoldable pub detach : OutboxState → OutboxState
detach o = record o { tx = none }

unfoldable pub resend_pending : OutboxState → OutboxState
resend_pending o = call o.tx (frames o.pending_events) o

-- `remove` at the `position` of the id
unfoldable pub remove_event : EventId → List (EventId × NodeToHub) → List (EventId × NodeToHub)
remove_event event_id [] = []
remove_event event_id ((pending, message) ∷ rest) =
    if pending == event_id then rest else (pending, message) ∷ remove_event event_id rest

unfoldable pub acknowledge_event : EventId → OutboxState → OutboxState
unfolding remove_event
acknowledge_event event_id o = record o { pending_events = remove_event event_id o.pending_events }

-- `event_id` is `EventId::new`
unfoldable pub emit_draft : EventId → EventDraft → OutboxState → OutboxState
emit_draft event_id draft o =
    call o.tx (protocol (node_event event_id draft) ∷ [])
      (record o { pending_events = o.pending_events ++ (event_id, node_event event_id draft) ∷ [] })

abbrev pub scoped : Option RunId → EventDraft → EventDraft
scoped none draft = draft
scoped (some run_id) draft = with_run draft run_id

unfoldable pub emit :
    NodeId → EventId → Time → EventKind → TaskId → Option RunId → Value → OutboxState → OutboxState
unfolding emit_draft
emit node_id event_id now kind task_id run_id payload o =
    emit_draft event_id (with_payload (scoped run_id (new kind task_id node_id now)) payload) o

unfoldable pub ack : CommandId → OutboxState → OutboxState
ack command_id o = call o.tx (protocol (command_ack command_id) ∷ []) o

-- what a node does to its outbox and its links: `framed` is a frame of the heartbeat or the receive
-- loop, which hold the link themselves, and `proceeded` is a send of a call
pub data Operation : Type 0 where
  linked : (life : ℕ) → Operation
  attached : (tx : ℕ) → Operation
  detached : Operation
  resent : Operation
  acknowledged : EventId → Operation
  emitted : EventId → EventDraft → Operation
  acked : CommandId → Operation
  framed : (tx : ℕ) → Outgoing → Operation
  proceeded : (i : ℕ) → Operation

abbrev pub operate : Operation → OutboxState → OutboxState
operate (linked life) o = open_link life o
operate (attached tx) o = attach tx o
operate detached o = detach o
operate resent o = resend_pending o
operate (acknowledged event_id) o = acknowledge_event event_id o
operate (emitted event_id draft) o = emit_draft event_id draft o
operate (acked command_id) o = ack command_id o
operate (framed tx frame) o = call (some tx) (frame ∷ []) o
operate (proceeded i) o = proceed i o

unfoldable pub operations : List Operation → OutboxState → OutboxState
operations [] o = o
operations (x ∷ xs) o = operations xs (operate x o)
