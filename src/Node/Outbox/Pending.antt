-- ===== src/Node/Outbox/Pending.antt =====
-- What each operation does to the pending events.
use stackhour.Prelude.{
  ℕ, zero, suc, ◌≡◌, refl, ap, ◌∙◌, Option, none, some, List, [], ◌∷◌, ◌++◌, get_elem?,
}
use stackhour.Domain.Ids.{EventId, CommandId}
use stackhour.Domain.Event.{EventDraft}
use stackhour.Domain.Protocol.{NodeToHub, node_event}
use stackhour.Node.Outbox.{
  Outgoing, Link, Sender, OutboxState, Operation, linked, attached, detached, resent, acknowledged,
  emitted, acked, framed, proceeded, call, send_frame, proceed_with, proceed, operate, operations,
  attach, detach, resend_pending, remove_event, acknowledge_event, emit_draft, ack,
}

call-pending :
    (tx : Option ℕ) (fs : List Outgoing) (o : OutboxState)
    → (call tx fs o).pending_events ≡ o.pending_events
call-pending none fs o = refl
call-pending (some link) fs o = refl

send_frame-pending :
    (i : ℕ) (s : Sender) (f : Outgoing) (fs : List Outgoing) (l : Option Link) (o : OutboxState)
    → (send_frame i s f fs l o).pending_events ≡ o.pending_events
send_frame-pending i s f fs none o = refl
send_frame-pending i s f fs (some link) o =
    elim link.life
      as (λ n.
        (send_frame i s f fs (some (record link { life = n })) o).pending_events
        ≡ o.pending_events) [ zero ↦ refl | suc life ↦ refl ]

proceed_with-pending :
    (i : ℕ) (s : Option Sender) (o : OutboxState)
    → (proceed_with i s o).pending_events ≡ o.pending_events
proceed_with-pending i none o = refl
proceed_with-pending i (some s) o =
    elim s.left
      as (λ left.
        (proceed_with i (some (record s { left = left })) o).pending_events ≡ o.pending_events) [
          | [] ↦ refl
          | f ∷ fs ↦
              send_frame-pending i (record s { left = f ∷ fs }) f fs (get_elem? o.links s.link) o
        ]

pub proceed-pending : (i : ℕ) (o : OutboxState) → (proceed i o).pending_events ≡ o.pending_events
unfolding proceed
proceed-pending i o = proceed_with-pending i (get_elem? o.senders i) o

pub resend_pending-pending :
    (o : OutboxState) → (resend_pending o).pending_events ≡ o.pending_events
unfolding resend_pending
resend_pending-pending o = call-pending o.tx _ o

pub ack-pending : (c : CommandId) (o : OutboxState) → (ack c o).pending_events ≡ o.pending_events
unfolding ack
ack-pending c o = call-pending o.tx _ o

pub emit_draft-pending :
    (e : EventId) (d : EventDraft) (o : OutboxState)
    → (emit_draft e d o).pending_events ≡ o.pending_events ++ (e, node_event e d) ∷ []
unfolding emit_draft
emit_draft-pending e d o = call-pending o.tx _ _

-- The queue that a history means: an emission goes to its end, an acknowledgement takes its event
-- out, and nothing else counts.
unfoldable pub queue : List Operation → List (EventId × NodeToHub) → List (EventId × NodeToHub)
queue [] pending = pending
queue (emitted e d ∷ xs) pending = queue xs (pending ++ (e, node_event e d) ∷ [])
queue (acknowledged e ∷ xs) pending = queue xs (remove_event e pending)
queue (other ∷ xs) pending = queue xs pending

pub operations-queue :
    (xs : List Operation) (o : OutboxState)
    → (operations xs o).pending_events ≡ queue xs o.pending_events
unfolding operations queue attach detach acknowledge_event
operations-queue [] o = refl
operations-queue (emitted e d ∷ xs) o =
    operations-queue xs (operate (emitted e d) o) ∙ ap (queue xs) (emit_draft-pending e d o)
operations-queue (acknowledged e ∷ xs) o = operations-queue xs (operate (acknowledged e) o)
operations-queue (linked life ∷ xs) o = operations-queue xs (operate (linked life) o)
operations-queue (attached tx ∷ xs) o = operations-queue xs (operate (attached tx) o)
operations-queue (detached ∷ xs) o = operations-queue xs (operate detached o)
operations-queue (framed tx f ∷ xs) o = operations-queue xs (operate (framed tx f) o)
operations-queue (resent ∷ xs) o =
    operations-queue xs (operate resent o) ∙ ap (queue xs) (resend_pending-pending o)
operations-queue (acked c ∷ xs) o =
    operations-queue xs (operate (acked c) o) ∙ ap (queue xs) (ack-pending c o)
operations-queue (proceeded i ∷ xs) o =
    operations-queue xs (operate (proceeded i) o) ∙ ap (queue xs) (proceed-pending i o)
