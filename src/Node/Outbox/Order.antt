-- ===== src/Node/Outbox/Order.antt =====
-- The events that a history of the outbox leaves pending.
use mathlib.Core.List.{append_assoc, append-nil}
use stackhour.Prelude.{
  ◌≡◌, refl, sym, ap, ◌∙◌, Bool, true, false, List, [], ◌∷◌, ◌++◌, ◌==◌, ◌||◌, All, arith,
  if◌then◌else◌, Bool-cases, inl, inr, ==_iff,
}
use stackhour.Domain.Ids.{EventId}
use stackhour.Domain.Protocol.{NodeToHub, node_event}
use stackhour.Node.Outbox.{persistent, remove_event, Operation, acknowledged, emitted, operations}
use stackhour.Node.Outbox.Pending.{queue, operations-queue}

abbrev pub Pending : Type 0
Pending = List (EventId × NodeToHub)

-- does the history acknowledge the event
unfoldable pub acknowledges : EventId → List Operation → Bool
acknowledges e [] = false
acknowledges e (acknowledged a ∷ xs) = (e == a) || acknowledges e xs
acknowledges e (other ∷ xs) = acknowledges e xs

-- the emitted events that no later operation acknowledges, in the order of their emission
unfoldable pub unacknowledged : List Operation → Pending
unfolding acknowledges
unacknowledged [] = []
unacknowledged (emitted e d ∷ xs) =
    let rest = unacknowledged xs in if acknowledges e xs then rest else (e, node_event e d) ∷ rest
unacknowledged (other ∷ xs) = unacknowledged xs

abbrev pub Absent : EventId → Pending → Type 0
Absent e p = All (λ (x : EventId × NodeToHub). (x.0 == e) ≡ false) p

abbrev Distinct : Pending → Type 0
Distinct [] = Unit
Distinct ((e, m) ∷ p) = Absent e p × Distinct p

-- an emitted id is not that of an event still pending
abbrev pub IsFresh : List Operation → Pending → Type 0
IsFresh [] p = Unit
IsFresh (emitted e d ∷ xs) p = Absent e p × IsFresh xs (p ++ (e, node_event e d) ∷ [])
IsFresh (acknowledged a ∷ xs) p = IsFresh xs (remove_event a p)
IsFresh (other ∷ xs) p = IsFresh xs p

-- the events of `p` that the history does not acknowledge
keep : List Operation → Pending → Pending
unfolding acknowledges
keep xs [] = []
keep xs ((e, m) ∷ p) = let rest = keep xs p in if acknowledges e xs then rest else (e, m) ∷ rest

keep-append : (xs : List Operation) (p q : Pending) → keep xs (p ++ q) ≡ keep xs p ++ keep xs q
unfolding keep
keep-append xs [] q = refl
keep-append xs ((e, m) ∷ p) q = ground (arith, keep-append xs p q)

keep-nil : (p : Pending) → keep [] p ≡ p
unfolding keep
keep-nil [] = refl
keep-nil ((e, m) ∷ p) = ap (λ (q : Pending). (e, m) ∷ q) (keep-nil p)

keep-Absent :
    (a : EventId) (xs : List Operation) (p : Pending)
    → Absent a p
    → keep (acknowledged a ∷ xs) p ≡ keep xs p
unfolding keep
keep-Absent a xs [] h = refl
keep-Absent a xs ((e, m) ∷ p) h = rw (h.0, keep-Absent a xs p h.1) refl

keep-acknowledged :
    (a : EventId) (xs : List Operation) (p : Pending)
    → Distinct p
    → keep (acknowledged a ∷ xs) p ≡ keep xs (remove_event a p)
unfolding keep remove_event
keep-acknowledged a xs [] h = refl
keep-acknowledged a xs ((e, m) ∷ p) h = elim (Bool-cases (e == a)) [
  | inl same ↦
      let absent : Absent a p = rw (sym ((==_iff e a).0 same)) h.0 in
      rw (same, keep-Absent a xs p absent) refl
  | inr other ↦ rw (other, keep-acknowledged a xs p h.1) refl
]

Absent-remove : (e a : EventId) (p : Pending) → Absent e p → Absent e (remove_event a p)
unfolding remove_event
Absent-remove e a [] h = tt
Absent-remove e a ((i, m) ∷ p) h = elim (Bool-cases (i == a)) [
  | inl same ↦ rw same h.1
  | inr other ↦ rw other (h.0, Absent-remove e a p h.1)
]

Distinct-remove : (a : EventId) (p : Pending) → Distinct p → Distinct (remove_event a p)
unfolding remove_event
Distinct-remove a [] h = tt
Distinct-remove a ((i, m) ∷ p) h = elim (Bool-cases (i == a)) [
  | inl same ↦ rw same h.1
  | inr other ↦ rw other (Absent-remove i a p h.0, Distinct-remove a p h.1)
]

Absent-last :
    (i e : EventId) (m : NodeToHub) (p : Pending)
    → Absent i p
    → (e == i) ≡ false
    → Absent i (p ++ (e, m) ∷ [])
Absent-last i e m [] h ne = (ne, tt)
Absent-last i e m (x ∷ p) h ne = (h.0, Absent-last i e m p h.1 ne)

Distinct-last :
    (e : EventId) (m : NodeToHub) (p : Pending)
    → Distinct p
    → Absent e p
    → Distinct (p ++ (e, m) ∷ [])
Distinct-last e m [] h a = (tt, tt)
Distinct-last e m ((i, n) ∷ p) h a =
    (Absent-last i e m p h.0 (ground (arith, a.0)), Distinct-last e m p h.1 a.1)

keep_emitted :
    (xs : List Operation) (e : EventId) (m : NodeToHub) (p rest : Pending)
    → keep xs (p ++ (e, m) ∷ []) ++ rest
      ≡ keep xs p ++ (if acknowledges e xs then rest else (e, m) ∷ rest)
unfolding keep
keep_emitted xs e m p rest =
    rw (keep-append xs p ((e, m) ∷ []), append_assoc (keep xs p))
      (ap (λ (q : Pending). keep xs p ++ q) (last (acknowledges e xs)))
  where
    last :
        (b : Bool) → (if b then [] else (e, m) ∷ []) ++ rest ≡ (if b then rest else (e, m) ∷ rest)
    last true = refl
    last false = refl

queue_lem :
    (xs : List Operation) (p : Pending)
    → Distinct p
    → IsFresh xs p
    → queue xs p ≡ keep xs p ++ unacknowledged xs
unfolding queue unacknowledged keep
queue_lem [] p h f = rw (keep-nil p) (sym (append-nil p))
queue_lem (emitted e d ∷ xs) p h f =
    queue_lem xs (p ++ (e, node_event e d) ∷ []) (Distinct-last e (node_event e d) p h f.0) f.1
    ∙ keep_emitted xs e (node_event e d) p (unacknowledged xs)
    ∙ ap (λ (q : Pending). q ++ unacknowledged (emitted e d ∷ xs)) refl
queue_lem (acknowledged a ∷ xs) p h f =
    rw (keep-acknowledged a xs p h) (queue_lem xs (remove_event a p) (Distinct-remove a p h) f)
queue_lem (other ∷ xs) p h f = queue_lem xs p h f

pub operations-unacknowledged :
    (xs : List Operation)
    → IsFresh xs []
    → (operations xs persistent).pending_events ≡ unacknowledged xs
unfolding keep
operations-unacknowledged xs fresh = operations-queue xs persistent ∙ queue_lem xs [] tt fresh
