-- ===== src/Node/Outbox/Attach.antt =====
-- What comes of the pending events on a link that `attach` was given, with the steps of all other
-- tasks in between.
use mathlib.Core.List.{append_assoc, Sublist}
use mathlib.Core.List.Sublist.{append as Sublist-append, refl as Sublist-refl, cons as Sublist-cons}
use mathlib.Core.Path.{subst}
use stackhour.Prelude.{
  ℕ, zero, suc, ◌≤◌, ◌≡◌, refl, sym, ◌∙◌, some, List, [], ◌∷◌, ◌++◌, length, get_elem?, arith, ◌⊎◌,
  inl, inr, Bool-cases, get_elem?-snoc,
}
use stackhour.Node.Outbox.{
  Outgoing, Link, OutboxState, Operation, proceeded, proceed, operate, operations, attach, frames,
  persistent,
}
use stackhour.Node.Outbox.Order.{IsFresh, unacknowledged, operations-unacknowledged}
use stackhour.Node.Outbox.Taken.{operate-Rides}
use stackhour.Node.Outbox.Waiting.{moves, turns, moves-eq, operate-Waiting, own_turn}

-- The link has taken some first part of the frames, in their order, between those of others: all
-- of them, unless it takes no more.
pub record Carried (all : List Outgoing) (link : Link) : Type 0 where
  pub taken : List Outgoing
  pub left : List Outgoing
  pub parts : all ≡ taken ++ left
  pub in_order : Sublist taken link.sent
  pub complete : (left ≡ []) ⊎ (link.life ≡ 0)

abbrev pub Delivered : List Outgoing → (tx : ℕ) → OutboxState → Type 0
Delivered all tx o = (link : Link) × (get_elem? o.links tx ≡ some link) × Carried all link

le_pred : {a b : ℕ} → suc a ≤ suc b → a ≤ b
le_pred h = omega arith

module _ (all : List Outgoing) (tx i : ℕ) where
  -- nothing is left to send, or the link takes no more
  stopped-Delivered :
      (xs : List Operation) (o : OutboxState) (taken left : List Outgoing) (link : Link)
      → all ≡ taken ++ left
      → get_elem? o.links tx ≡ some link
      → Sublist taken link.sent
      → (left ≡ []) ⊎ (link.life ≡ 0)
      → Delivered all tx (operations xs o)
  unfolding operations
  stopped-Delivered [] o taken left link parts found in_order stop = (
    link,
    found,
    record { taken = taken; left = left; parts = parts; in_order = in_order; complete = stop },
  )
  stopped-Delivered (x ∷ xs) o taken left link parts found in_order stop =
      let r = operate-Rides tx taken link o found in_order x in
      stopped-Delivered xs (operate x o) taken left r.link parts r.found r.in_order
        (elim stop [ inl e ↦ inl e | inr broken ↦ inr (r.stays_broken broken) ])

  -- what a call that waits comes to
  abbrev Claim : List Operation → OutboxState → (taken left : List Outgoing) → Type 0
  Claim xs o taken left =
      (link : Link)
      → all ≡ taken ++ left
      → get_elem? o.links tx ≡ some link
      → Sublist taken link.sent
      → get_elem? o.senders i ≡ some (record { link = tx; left = left })
      → length left ≤ turns i xs
      → Delivered all tx (operations xs o)

  turn-Delivered :
      (xs : List Operation) (o : OutboxState) (taken : List Outgoing) (f : Outgoing)
      (fs : List Outgoing)
      → Claim xs (proceed i o) (taken ++ f ∷ []) fs
      → (sent : List Outgoing) (life : ℕ) → all ≡ taken ++ f ∷ fs
      → get_elem? o.links tx ≡ some (record { sent = sent; life = life })
      → Sublist taken sent
      → get_elem? o.senders i ≡ some (record { link = tx; left = f ∷ fs })
      → length fs ≤ turns i xs
      → Delivered all tx (operations xs (proceed i o))
  turn-Delivered xs o taken f fs later sent zero parts found in_order waits enough =
      let r =
        operate-Rides tx taken (record { sent = sent; life = 0 }) o found in_order (proceeded i) in
      stopped-Delivered xs (proceed i o) taken (f ∷ fs) r.link parts r.found r.in_order
        (inr (r.stays_broken refl))
  turn-Delivered xs o taken f fs later sent (suc n) parts found in_order waits enough =
      let own = own_turn tx i f fs sent n o waits found in
      later (record { sent = sent ++ f ∷ []; life = n })
        (parts ∙ sym (append_assoc taken (f ∷ []) fs)) own.0
        (Sublist-append in_order (Sublist-refl (f ∷ []))) own.1 enough

  call-Delivered :
      (xs : List Operation) (o : OutboxState) (taken left : List Outgoing) → Claim xs o taken left
  unfolding operations turns
  call-Delivered [] o taken [] link parts found in_order waits enough =
      stopped-Delivered [] o taken [] link parts found in_order (inl refl)
  call-Delivered [] o taken (f ∷ fs) link parts found in_order waits enough = absurd (omega arith)
  call-Delivered (x ∷ xs) o taken [] link parts found in_order waits enough =
      stopped-Delivered (x ∷ xs) o taken [] link parts found in_order (inl refl)
  call-Delivered (x ∷ xs) o taken (f ∷ fs) link parts found in_order waits enough =
      elim (Bool-cases (moves i x)) [
        | inr other ↦
            let r = operate-Rides tx taken link o found in_order x in
            call-Delivered xs (operate x o) taken (f ∷ fs) r.link parts r.found r.in_order
              (operate-Waiting i _ x o other waits) (rw other at enough)
        | inl ours ↦
            subst (λ (y : Operation). Delivered all tx (operations xs (operate y o)))
              (sym (moves-eq i x ours))
              (turn-Delivered xs o taken f fs (call-Delivered xs (proceed i o) (taken ++ f ∷ []) fs)
                link.sent link.life parts found in_order waits (le_pred (rw ours at enough)))
      ]

nil-Sublist : (l : List Outgoing) → Sublist [] l
nil-Sublist [] = Sublist-refl []
nil-Sublist (f ∷ l) = Sublist-cons f (nil-Sublist l)

-- After every history of a fresh outbox an open link is attached, and other tasks emit, acknowledge,
-- send again, detach and send heartbeats, before, between and after the sends of `attach`: once the
-- call has had as many turns as there are events that the first history emitted and did not
-- acknowledge, the link has taken all of them, in the order of their emission, between other
-- frames; or it takes no more, and has taken the first of them in that order. They are the pending
-- ones at the call. No event is emitted under an id still pending.
pub attach-Delivered :
    (xs ys : List Operation) (tx : ℕ) {link : Link}
    → IsFresh xs []
    → get_elem? (operations xs persistent).links tx ≡ some link
    → length (frames (unacknowledged xs)) ≤ turns (length (operations xs persistent).senders) ys
    → let o = attach tx (operations xs persistent) in
      Delivered (frames (unacknowledged xs)) tx (operations ys o)
      × (o.pending_events ≡ unacknowledged xs)
unfolding attach
attach-Delivered xs ys tx {link} fresh opened enough =
    let o = operations xs persistent in
    let same = operations-unacknowledged xs fresh in
    (
      call-Delivered (frames (unacknowledged xs)) tx (length o.senders) ys (attach tx o) []
          (frames (unacknowledged xs)) link refl opened (nil-Sublist link.sent)
          (rw (← same) (get_elem?-snoc o.senders _)) enough,
      same,
    )
