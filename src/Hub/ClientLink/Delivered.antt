-- ===== src/Hub/ClientLink/Delivered.antt =====
-- What a client was sent, and the events that the log's rows stand for.
use native.Mathlib.Nat.{add-zero, add-suc, suc-add}
use stackhour.Prelude.{
  ℕ, zero, suc, ◌+◌, ◌<◌, ◌≡◌, refl, sym, ◌∙◌, ap, some, List, [], ◌∷◌, ◌++◌, map, arith, length,
  drop, pos, ltb_ℤ,
}
use mathlib.Core.List.{append-nil, append_assoc}
use stackhour.Result.{ok}
use stackhour.Sql
use stackhour.Sql.Laws.{cons_collect}
use stackhour.Domain.Codec.{Codec}
use stackhour.Domain.Event.{Event}
use stackhour.Domain.Protocol.{
  HubToClient, event_delivery, command_receipt, subscribe_ack, heartbeat,
}
use stackhour.Store.Rows.{EventRow, row_to_event}
use stackhour.Store.Log.Invariant.{Gapless}
use stackhour.Hub.ClientLink.{Client, deliver_missed, last_sequence}
use stackhour.Hub.ClientLink.Session.{nth}

-- the events among the frames
abbrev pub delivered : List HubToClient → List Event
delivered [] = []
delivered (event_delivery e ∷ frames) = e ∷ delivered frames
delivered (command_receipt r ∷ frames) = delivered frames
delivered (subscribe_ack after head ∷ frames) = delivered frames
delivered (heartbeat ∷ frames) = delivered frames

pub delivered-append :
    (xs ys : List HubToClient) → delivered (xs ++ ys) ≡ delivered xs ++ delivered ys
delivered-append [] ys = refl
delivered-append (event_delivery e ∷ xs) ys =
    ap (λ (es : List Event). e ∷ es) (delivered-append xs ys)
delivered-append (command_receipt r ∷ xs) ys = delivered-append xs ys
delivered-append (subscribe_ack after head ∷ xs) ys = delivered-append xs ys
delivered-append (heartbeat ∷ xs) ys = delivered-append xs ys

pub delivered-map : (es : List Event) → delivered (map event_delivery es) ≡ es
delivered-map [] = refl
delivered-map (e ∷ es) = ap (λ (fs : List Event). e ∷ fs) (delivered-map es)

-- the sequences are n, n + 1, n + 2, …
abbrev pub Numbered : ℕ → List Event → Type 0
Numbered n [] = Unit {0}
Numbered n (e ∷ es) = (e.sequence ≡ n) × Numbered (suc n) es

pub Numbered-append :
    (n : ℕ) (xs ys : List Event) → Numbered n (xs ++ ys) → Numbered (n + length xs) ys
Numbered-append n [] ys h = rw (add-zero) h
Numbered-append n (x ∷ xs) ys h = rw (add-suc, ← suc-add) (Numbered-append (suc n) xs ys h.1)

pub row_to_event_sequence :
    (c : Codec) (row : EventRow) {e : Event} → row_to_event c row ≡ ok e → e.sequence ≡ row.sequence
unfolding row_to_event
row_to_event_sequence c row h = ground arith

pub collect-Numbered :
    (c : Codec) (n : ℕ) (rows : List EventRow) {es : List Event}
    → Gapless n rows
    → Sql.collect (row_to_event c) rows ≡ ok es
    → Numbered n es
unfolding Sql.collect
collect-Numbered c n [] {es} v h = let e : [] ≡ es = ground arith in rw (sym e) tt
collect-Numbered c n (row ∷ rows) v h =
    let (e, rest, p, q, all) = cons_collect (row_to_event c) row rows h in
    rw all (row_to_event_sequence c row p ∙ v.0, collect-Numbered c (suc n) rows v.1 q)

pub deliver_missed-all :
    (es : List Event) (client : Client)
    → Numbered (suc client.last_delivered) es
    → deliver_missed es client ≡ record {
      last_delivered = client.last_delivered + length es;
      sent = client.sent ++ map event_delivery es;
    }
unfolding deliver_missed
deliver_missed-all [] client h = ground (arith, append-nil client.sent)
deliver_missed-all (e ∷ es) client h =
    let next : Client = record {
      last_delivered = e.sequence;
      sent = client.sent ++ event_delivery e ∷ [];
    } in
    let step : deliver_missed (e ∷ es) client ≡ deliver_missed es next = ground (arith, h.0) in
    let more : deliver_missed es next ≡ record {
      last_delivered = e.sequence + length es;
      sent = (client.sent ++ event_delivery e ∷ []) ++ map event_delivery es;
    } =
      deliver_missed-all es next (rw (h.0) h.1) in
    step
    ∙ more
    ∙ ground (arith, h.0, append_assoc client.sent (event_delivery e ∷ []) (map event_delivery es))

last_sequence-cons :
    (n : ℕ) (e : Event) (es : List Event)
    → Numbered (suc n) (e ∷ es)
    → last_sequence (e ∷ es) ≡ n + length (e ∷ es)
unfolding last_sequence
last_sequence-cons n e [] h = ground arith
last_sequence-cons n e (f ∷ es) h = last_sequence-cons (suc n) f es h.1 ∙ omega arith

pub last_sequence-length : (es : List Event) → Numbered 1 es → last_sequence es ≡ length es
unfolding last_sequence
last_sequence-length [] h = refl
last_sequence-length (e ∷ es) h = last_sequence-cons 0 e es h ∙ omega arith

select_above :
    (m n : ℕ) (es : List Event)
    → Numbered n es
    → m < n
    → Sql.select (λ (e : Event). ltb_ℤ (pos m) (pos e.sequence)) es ≡ es
unfolding Sql.select
select_above m n [] h b = refl
select_above m n (e ∷ es) h b = ground (arith, select_above m (suc n) es h.1 (omega arith))

pub select-Numbered :
    (k n m : ℕ) (es : List Event)
    → Numbered (suc n) es
    → m ≡ n + k
    → Sql.select (λ (e : Event). ltb_ℤ (pos m) (pos e.sequence)) es ≡ drop k es
unfolding Sql.select
select-Numbered zero n m es h e = select_above m (suc n) es h (omega arith)
select-Numbered (suc k) n m [] h e = refl
select-Numbered (suc k) n m (x ∷ es) h e =
    ground (arith, select-Numbered k (suc n) m es h.1 (omega arith))

module _ {ℓ} {A : Type ℓ} where
  pub append-same_length :
      (xs ys us vs : List A) → length xs ≡ length ys → xs ++ us ≡ ys ++ vs → us ≡ vs
  append-same_length [] [] us vs n h = h
  append-same_length [] (y ∷ ys) us vs n h = absurd (omega arith)
  append-same_length (x ∷ xs) [] us vs n h = absurd (omega arith)
  append-same_length (x ∷ xs) (y ∷ ys) us vs n h =
      append-same_length xs ys us vs (omega arith) (ground arith)

  pub nth-eq :
      (n : ℕ) (xs : List A) {x : A}
      → nth n xs ≡ some x
      → (us : List A) × (vs : List A) × (xs ≡ us ++ x ∷ vs) × (length us ≡ n)
  unfolding nth
  nth-eq n [] h = absurd (ground arith)
  nth-eq zero (x ∷ xs) h = ([], xs, ground arith, refl)
  nth-eq (suc n) (x ∷ xs) h =
      let (us, vs, p, q) = nth-eq n xs h in
      (x ∷ us, vs, ap (λ (zs : List A). x ∷ zs) p, omega arith)
