-- ===== src/Node/Outbox/Taken.antt =====
-- A link under the operations of the outbox: the frames that it took stay in their order.
use mathlib.Core.List.{append-nil, Sublist}
use mathlib.Core.List.Sublist.{append as Sublist-append, refl as Sublist-refl, cons as Sublist-cons}
use mathlib.Core.Path.{subst}
use stackhour.Prelude.{
  ℕ, zero, suc, ◌≡◌, refl, ◌∙◌, Option, none, some, List, [], ◌∷◌, ◌++◌, get_elem?, arith, ◌==◌,
  inl, inr, Bool-cases, ==_iff, get_elem?-append, get_elem?-set_self, get_elem?-set_other,
}
use stackhour.Domain.Ids.{EventId}
use stackhour.Domain.Protocol.{NodeToHub}
use stackhour.Node.Outbox.{
  Outgoing, Link, Sender, OutboxState, Operation, linked, attached, detached, resent, acknowledged,
  emitted, acked, framed, proceeded, call, send_frame, proceed_with, proceed, operate, attach,
  detach, resend_pending, acknowledge_event, emit_draft, ack, frames,
}

-- the link at the place, after more of the same frames and of others
pub record Rides (tx : ℕ) (taken : List Outgoing) (life : ℕ) (o : OutboxState) : Type 0 where
  pub link : Link
  pub found : get_elem? o.links tx ≡ some link
  pub in_order : Sublist taken link.sent
  pub stays_broken : life ≡ 0 → link.life ≡ 0

module _ (tx : ℕ) (taken : List Outgoing) (link : Link) (o : OutboxState)
    (found : get_elem? o.links tx ≡ some link) (in_order : Sublist taken link.sent) where
  -- a frame of another call on the link
  longer : (f : Outgoing) → Sublist taken (link.sent ++ f ∷ [])
  longer f =
      subst (λ (l : List Outgoing). Sublist l (link.sent ++ f ∷ [])) (append-nil taken)
        (Sublist-append in_order (Sublist-cons f (Sublist-refl [])))

  unchanged : (o' : OutboxState) → o'.links ≡ o.links → Rides tx taken link.life o'
  unchanged o' e = record {
    link = link;
    found = rw e found;
    in_order = in_order;
    stays_broken = λ broken. broken;
  }

  more_links :
      (ls : List Link) (o' : OutboxState) → o'.links ≡ o.links ++ ls → Rides tx taken link.life o'
  more_links ls o' e = record {
    link = link;
    found = rw e (get_elem?-append o.links ls tx found);
    in_order = in_order;
    stays_broken = λ broken. broken;
  }

  call-Rides : (t : Option ℕ) (fs : List Outgoing) → Rides tx taken link.life (call t fs o)
  call-Rides none fs = unchanged o refl
  call-Rides (some l) fs = unchanged _ refl

  emit-Rides :
      (t : Option ℕ) (fs : List Outgoing) (p : List (EventId × NodeToHub))
      → Rides tx taken link.life (call t fs (record o { pending_events = p }))
  emit-Rides none fs p = unchanged _ refl
  emit-Rides (some l) fs p = unchanged _ refl

  written :
      (j l : ℕ) (f : Outgoing) (fs : List Outgoing) (sent : List Outgoing) (n : ℕ)
      → get_elem? o.links l ≡ some (record { sent = sent; life = n })
      → Rides tx taken link.life (
          send_frame j
            (record { link = l; left = f ∷ fs })
            f
            fs
            (some (record { sent = sent; life = n }))
            o)
  written j l f fs sent zero h = unchanged _ refl
  written j l f fs sent (suc n) h = elim (Bool-cases (l == tx)) [
    | inl here ↦ ours ((==_iff l tx).0 here)
    | inr there ↦ record {
      link = link;
      found =
          get_elem?-set_other o.links l tx _ (λ e. absurd (ground (arith, ==_iff l tx))) ∙ found;
      in_order = in_order;
      stays_broken = λ broken. broken;
    }
  ]
    where
      ours :
          l ≡ tx
          → Rides tx taken link.life (
              send_frame j
                (record { link = l; left = f ∷ fs })
                f
                fs
                (some (record { sent = sent; life = suc n }))
                o)
      ours e =
          let same : link ≡ record { sent = sent; life = suc n } = ground (arith, e, h, found) in
          record {
            link = record { sent = sent ++ f ∷ []; life = n };
            found = rw (← e) (get_elem?-set_self o.links l _ h);
            in_order = rw same at (longer f);
            stays_broken = λ broken. absurd (ground arith);
          }

  sent_to :
      (j l : ℕ) (f : Outgoing) (fs : List Outgoing) (m : Option Link)
      → get_elem? o.links l ≡ m
      → Rides tx taken link.life (send_frame j (record { link = l; left = f ∷ fs }) f fs m o)
  sent_to j l f fs none h = unchanged o refl
  sent_to j l f fs (some k) h = written j l f fs k.sent k.life h

  proceeds :
      (j l : ℕ) (fs : List Outgoing)
      → Rides tx taken link.life (proceed_with j (some (record { link = l; left = fs })) o)
  proceeds j l [] = unchanged o refl
  proceeds j l (f ∷ fs) = sent_to j l f fs (get_elem? o.links l) refl

  proceed-Rides : (j : ℕ) → Rides tx taken link.life (proceed j o)
  unfolding proceed
  proceed-Rides j = at (get_elem? o.senders j)
    where
      at : (s : Option Sender) → Rides tx taken link.life (proceed_with j s o)
      at none = unchanged o refl
      at (some s) = proceeds j s.link s.left

  pub operate-Rides : (x : Operation) → Rides tx taken link.life (operate x o)
  unfolding attach detach resend_pending acknowledge_event emit_draft ack
  operate-Rides (linked life) = more_links _ _ refl
  operate-Rides (attached t) = unchanged _ refl
  operate-Rides detached = unchanged _ refl
  operate-Rides resent = call-Rides o.tx (frames o.pending_events)
  operate-Rides (acknowledged e) = unchanged _ refl
  operate-Rides (emitted e d) = emit-Rides o.tx _ _
  operate-Rides (acked k) = call-Rides o.tx _
  operate-Rides (framed t f) = call-Rides (some t) (f ∷ [])
  operate-Rides (proceeded j) = proceed-Rides j
