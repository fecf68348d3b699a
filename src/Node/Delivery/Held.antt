-- ===== src/Node/Delivery/Held.antt =====
-- No event of a node is lost between its outbox and the hub's log.
use stackhour.Prelude.{
  ◌≡◌, refl, sym, ap, ◌∙◌, ◌⊎◌, inl, inr, Bool, true, false, some, List, [], ◌∷◌, ◌++◌, ◌==◌,
  Bool-cases, ==_iff,
}
use stackhour.Result.{Result, ok, err}
use stackhour.Domain.Codec.{Codec}
use stackhour.Domain.Ids.{EventId, NodeId, Time}
use stackhour.Domain.Event.{EventDraft}
use stackhour.Domain.Protocol.{NodeToHub, node_event}
use stackhour.Store.Db.{Db}
use stackhour.Store.Rows.{EventRow}
use stackhour.Store.Append.{find_event}
use stackhour.Store.Log.Growth.{history-Grows, find_event-Grows}
use stackhour.Hub.State.{accepts_node_event}
use stackhour.Hub.NodeLink.{node_message}
use stackhour.Hub.Reaches.{Reaches}
use stackhour.Hub.Acknowledged.{IsHonest, node_message-IsHonest, node_message-Reaches}
use stackhour.Node.Outbox
use stackhour.Node.Outbox.{
  OutboxState, Operation, linked, attached, detached, resent, acknowledged, emitted, acked, framed,
  proceeded, acknowledge_event, remove_event, emit_draft,
}
use stackhour.Node.Outbox.Pending.{
  emit_draft-pending, resend_pending-pending, ack-pending, proceed-pending,
}
use stackhour.Node.Delivery.{
  System, is_own, Has, with_refused, Step, node_acts, node_hears, hub_answers, hub_takes, hub_works,
  Run, here, next,
}

-- an event with the id is pending
abbrev pub Waits : EventId → List (EventId × NodeToHub) → Type 0
Waits e [] = ⊥
Waits e (x ∷ xs) = (x.0 ≡ e) ⊎ Waits e xs

Waits-last :
    (e : EventId) (m : NodeToHub) (p : List (EventId × NodeToHub)) → Waits e (p ++ (e, m) ∷ [])
Waits-last e m [] = inl refl
Waits-last e m (x ∷ p) = inr (Waits-last e m p)

Waits-append : (e : EventId) (p q : List (EventId × NodeToHub)) → Waits e p → Waits e (p ++ q)
Waits-append e [] q h = absurd h
Waits-append e (x ∷ p) q (inl h) = inl h
Waits-append e (x ∷ p) q (inr h) = inr (Waits-append e p q h)

Waits-remove :
    (e a : EventId) (p : List (EventId × NodeToHub))
    → Waits e p
    → (a ≡ e) ⊎ Waits e (remove_event a p)
unfolding remove_event
Waits-remove e a [] h = absurd h
Waits-remove e a ((i, m) ∷ p) h = elim (Bool-cases (i == a)) [
  | inl same ↦ rw same (first ((==_iff i a).0 same) h)
  | inr other ↦ rw other (later h (Waits-remove e a p))
]
  where
    first : i ≡ a → (i ≡ e) ⊎ Waits e p → (a ≡ e) ⊎ Waits e p
    first s (inl h) = inl (sym s ∙ h)
    first s (inr h) = inr h

    later :
        (i ≡ e) ⊎ Waits e p
        → (Waits e p → (a ≡ e) ⊎ Waits e (remove_event a p))
        → (a ≡ e) ⊎ ((i ≡ e) ⊎ Waits e (remove_event a p))
    later (inl h) rest = inr (inl h)
    later (inr h) rest = elim (rest h) [ inl s ↦ inl s | inr w ↦ inr (inr w) ]

operate-Waits :
    (e : EventId) (x : Operation) (o : OutboxState)
    → is_own x ≡ true
    → Waits e o.pending_events
    → Waits e (Outbox.operate x o).pending_events
unfolding Outbox.attach Outbox.detach
operate-Waits e (acknowledged a) o own h = absurd (cc own)
operate-Waits e (linked life) o own h = h
operate-Waits e (attached tx) o own h = h
operate-Waits e (framed tx f) o own h = h
operate-Waits e (proceeded i) o own h = rw (proceed-pending i o) h
operate-Waits e detached o own h = h
operate-Waits e resent o own h = rw (resend_pending-pending o) h
operate-Waits e (acked k) o own h = rw (ack-pending k o) h
operate-Waits e (emitted i d) o own h =
    rw (emit_draft-pending i d o) (Waits-append e o.pending_events _ h)

module _ (c : Codec) (n : NodeId) where
  abbrev pub Logged : EventId → Db → Type 0
  Logged e db = (r : EventRow) × (find_event (c.uuid_text e) db ≡ some r)

  abbrev pub Settled : EventId → System → Type 0
  Settled e s = Logged e s.hub.hub ⊎ Has e s.refused

  abbrev pub Held : EventId → System → Type 0
  Held e s = Waits e s.outbox.pending_events ⊎ Settled e s

  Logged-Reaches : (e : EventId) (a b : Db) → Reaches c a b → Logged e a → Logged e b
  Logged-Reaches e a b (ss, p) (r, found) = (
    r,
    ap (find_event (c.uuid_text e)) p
        ∙ find_event-Grows (c.uuid_text e) (history-Grows c ss a) found,
  )

  Has-refused :
      (e i : EventId) (v : Result Bool) (refused : List EventId)
      → Has e refused
      → Has e (with_refused v i refused)
  Has-refused e i (ok false) refused h = inr h
  Has-refused e i (ok true) refused h = h
  Has-refused e i (err x) refused h = h

  -- what is settled stays so
  Settled-Step : (e : EventId) {s t : System} → Step c n s t → Settled e s → Settled e t
  Settled-Step e (node_acts s x own) h = h
  Settled-Step e (node_hears s a heard) h = h
  Settled-Step e (hub_answers s now i d moved) (inl h) =
      inl (Logged-Reaches e _ _ (node_message-Reaches c now n i d s.hub) h)
  Settled-Step e (hub_answers s now i d moved) (inr h) = inr (Has-refused e i _ s.refused h)
  Settled-Step e (hub_takes s now i d) (inl h) =
      inl (Logged-Reaches e _ _ (node_message-Reaches c now n i d s.hub) h)
  Settled-Step e (hub_takes s now i d) (inr h) = inr h
  Settled-Step e (hub_works s t reached) (inl h) = inl (Logged-Reaches e _ _ reached h)
  Settled-Step e (hub_works s t reached) (inr h) = inr h

  -- whatever the hub acknowledges is settled
  abbrev pub Honest : System → Type 0
  Honest s = (e : EventId) → Has e s.acks → Settled e s

  answered :
      (s : System) (now : Time) (e : EventId) (d : EventDraft)
      → ((node_message c now n (node_event e d) s.hub).nodes ≡ s.hub.nodes → ⊥)
      → IsHonest c e
          (accepts_node_event c n d s.hub).0
          s.hub
          (node_message c now n (node_event e d) s.hub)
      → Logged e (node_message c now n (node_event e d) s.hub).hub
        ⊎ Has e (with_refused (accepts_node_event c n d s.hub).0 e s.refused)
  answered s now e d moved (inl same) = absurd (moved same)
  answered s now e d moved (inr (inl (v, same))) = inr (rw v (inl refl))
  answered s now e d moved (inr (inr found)) = inl found

  Honest-Step : {s t : System} → Step c n s t → Honest s → Honest t
  Honest-Step (node_acts s x own) h e m = h e m
  Honest-Step (node_hears s a heard) h e m = h e m
  Honest-Step (hub_answers s now i d moved) h e (inl same) =
      rw (← same) (answered s now i d moved (node_message-IsHonest c now n i d s.hub))
  Honest-Step (hub_answers s now i d moved) h e (inr m) =
      Settled-Step e (hub_answers s now i d moved) (h e m)
  Honest-Step (hub_takes s now i d) h e m = Settled-Step e (hub_takes s now i d) (h e m)
  Honest-Step (hub_works s t reached) h e m = Settled-Step e (hub_works s t reached) (h e m)

  Run-Honest : {s t : System} → Run c n s t → Honest s → Honest t
  Run-Honest here h = h
  Run-Honest (next r st) h = Honest-Step st (Run-Honest r h)

  Held-Step : (e : EventId) {s t : System} → Honest s → Step c n s t → Held e s → Held e t
  unfolding acknowledge_event
  Held-Step e honest (node_acts s x own) (inl w) = inl (operate-Waits e x s.outbox own w)
  Held-Step e honest (node_hears s a heard) (inl w) =
      elim (Waits-remove e a s.outbox.pending_events w) [
        | inl same ↦ inr (honest e (rw (← same) heard))
        | inr left ↦ inl left
      ]
  Held-Step e honest (hub_answers s now i d moved) (inl w) = inl w
  Held-Step e honest (hub_takes s now i d) (inl w) = inl w
  Held-Step e honest (hub_works s t reached) (inl w) = inl w
  Held-Step e honest st (inr h) = inr (Settled-Step e st h)

  Run-Held : (e : EventId) {s t : System} → Honest s → Run c n s t → Held e s → Held e t
  Run-Held e honest here h = h
  Run-Held e honest (next r st) h = Held-Step e (Run-Honest r honest) st (Run-Held e honest r h)

  -- An event that a node emits is, ever after, pending at the node, or in the hub's log, or one that
  -- the hub has refused: through every loss, delay and repetition of the frames between them, every
  -- drop of the link and every other work of the hub. At the start the hub has acknowledged nothing.
  pub emit_draft-Held :
      (e : EventId) (d : EventDraft) {s t u : System}
      → s.acks ≡ []
      → Run c n s t
      → Run c n (record t { outbox = emit_draft e d t.outbox }) u
      → Held e u
  emit_draft-Held e d {s} {t} {u} start before after =
      Run-Held e (Run-Honest before (λ i m. absurd (rw start at m))) after
        (inl (rw (emit_draft-pending e d t.outbox) (Waits-last e (node_event e d) _)))
