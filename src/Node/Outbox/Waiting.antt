-- ===== src/Node/Outbox/Waiting.antt =====
-- A call that waits for its sends, under the operations of the others.
use stackhour.Prelude.{
  ℕ, zero, suc, ◌≡◌, ◌≢◌, ap, ◌∙◌, Bool, true, false, Option, none, some, List, [], ◌∷◌, ◌++◌,
  get_elem?, arith, ◌==◌, if◌then◌else◌, ==_iff, get_elem?-append, get_elem?-set_self,
  get_elem?-set_other,
}
use stackhour.Domain.Ids.{EventId}
use stackhour.Domain.Protocol.{NodeToHub}
use stackhour.Node.Outbox.{
  Outgoing, Link, Sender, OutboxState, Operation, linked, attached, detached, resent, acknowledged,
  emitted, acked, framed, proceeded, call, send_frame, proceed_with, proceed, operate, attach,
  detach, resend_pending, acknowledge_event, emit_draft, ack,
}

-- is the operation a send of the call `i`
abbrev pub moves : (i : ℕ) → Operation → Bool
moves i (proceeded j) = j == i
moves i other = false

-- how many sends of the call the history makes
unfoldable pub turns : (i : ℕ) → List Operation → ℕ
turns i [] = 0
turns i (x ∷ xs) = let rest = turns i xs in if moves i x then suc rest else rest

pub moves-eq : (i : ℕ) (x : Operation) → moves i x ≡ true → x ≡ proceeded i
moves-eq i (proceeded j) h = ap proceeded ((==_iff j i).0 h)
moves-eq i (linked life) h = absurd (cc h)
moves-eq i (attached t) h = absurd (cc h)
moves-eq i detached h = absurd (cc h)
moves-eq i resent h = absurd (cc h)
moves-eq i (acknowledged e) h = absurd (cc h)
moves-eq i (emitted e d) h = absurd (cc h)
moves-eq i (acked k) h = absurd (cc h)
moves-eq i (framed t f) h = absurd (cc h)

module _ (i : ℕ) (s : Sender) where
  Waiting : OutboxState → Type 0
  Waiting o = get_elem? o.senders i ≡ some s

  call-Waiting :
      (t : Option ℕ) (fs : List Outgoing) (p : List (EventId × NodeToHub)) (o : OutboxState)
      → get_elem? o.senders i ≡ some s
      → get_elem? (call t fs (record o { pending_events = p })).senders i ≡ some s
  call-Waiting none fs p o h = h
  call-Waiting (some l) fs p o h = get_elem?-append o.senders _ i h

  send_frame-Waiting :
      (j : ℕ) (t : Sender) (f : Outgoing) (fs : List Outgoing) (m : Option Link) (o : OutboxState)
      → j ≢ i
      → get_elem? o.senders i ≡ some s
      → get_elem? (send_frame j t f fs m o).senders i ≡ some s
  send_frame-Waiting j t f fs none o ne h = h
  send_frame-Waiting j t f fs (some k) o ne h = lived k.life
    where
      lived :
          (n : ℕ)
          → get_elem? (send_frame j t f fs (some (record { sent = k.sent; life = n })) o).senders i
            ≡ some s
      lived zero = get_elem?-set_other o.senders j i _ ne ∙ h
      lived (suc n) = get_elem?-set_other o.senders j i _ ne ∙ h

  proceed-Waiting :
      (j : ℕ) (o : OutboxState)
      → j ≢ i
      → get_elem? o.senders i ≡ some s
      → get_elem? (proceed j o).senders i ≡ some s
  unfolding proceed
  proceed-Waiting j o ne h = stepped (get_elem? o.senders j)
    where
      left_over :
          (t : Sender) (fs : List Outgoing)
          → get_elem? (proceed_with j (some (record t { left = fs })) o).senders i ≡ some s
      left_over t [] = h
      left_over t (f ∷ fs) =
          send_frame-Waiting j (record t { left = f ∷ fs }) f fs (get_elem? o.links t.link) o ne h

      stepped : (t : Option Sender) → get_elem? (proceed_with j t o).senders i ≡ some s
      stepped none = h
      stepped (some t) = left_over t t.left

  pub operate-Waiting :
      (x : Operation) (o : OutboxState)
      → moves i x ≡ false
      → get_elem? o.senders i ≡ some s
      → get_elem? (operate x o).senders i ≡ some s
  unfolding attach detach resend_pending acknowledge_event emit_draft ack
  operate-Waiting (linked life) o own h = h
  operate-Waiting (attached t) o own h = get_elem?-append o.senders _ i h
  operate-Waiting detached o own h = h
  operate-Waiting resent o own h = call-Waiting o.tx _ o.pending_events o h
  operate-Waiting (acknowledged e) o own h = h
  operate-Waiting (emitted e d) o own h = call-Waiting o.tx _ _ o h
  operate-Waiting (acked k) o own h = call-Waiting o.tx _ o.pending_events o h
  operate-Waiting (framed t f) o own h = get_elem?-append o.senders _ i h
  operate-Waiting (proceeded j) o own h =
      proceed-Waiting j o (λ e. absurd (ground (arith, own, ==_iff j i))) h

-- the call's own send
pub own_turn :
    (tx i : ℕ) (f : Outgoing) (fs : List Outgoing) (sent : List Outgoing) (n : ℕ) (o : OutboxState)
    → get_elem? o.senders i ≡ some (record { link = tx; left = f ∷ fs })
    → get_elem? o.links tx ≡ some (record { sent = sent; life = suc n })
    → (get_elem? (proceed i o).links tx ≡ some (record { sent = sent ++ f ∷ []; life = n }))
      × (get_elem? (proceed i o).senders i ≡ some (record { link = tx; left = fs }))
unfolding proceed
own_turn tx i f fs sent n o waits found =
    rw (proceed, waits, found)
      (get_elem?-set_self o.links tx _ found, get_elem?-set_self o.senders i _ waits)
