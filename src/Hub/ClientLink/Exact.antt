-- ===== src/Hub/ClientLink/Exact.antt =====
-- What a client has been delivered, against the log.
use stackhour.Prelude.{
  length-append, ℕ, suc, ◌+◌, ◌≤◌, ◌<◌, ◌≡◌, sym, ◌∙◌, ap, inl, inr, some, List, [], ◌∷◌, ◌++◌,
  arith, Bool-cases, length, ltb,
}
use mathlib.Core.List.{append_assoc}
use stackhour.Result.{ok}
use stackhour.Sql
use stackhour.Domain.Codec.{Codec}
use stackhour.Domain.Event.{Event}
use stackhour.Domain.Protocol.{event_delivery}
use stackhour.Store.Rows.{row_to_event}
use stackhour.Store.Log.Invariant.{IsConsistent}
use stackhour.Hub.ClientLink.{live_event}
use stackhour.Hub.ClientLink.Session.{Session, nth}
use stackhour.Hub.ClientLink.Delivered.{
  delivered, delivered-append, Numbered, Numbered-append, collect-Numbered, append-same_length,
  nth-eq,
}

-- The log is what stood before the cursor, then what the client was delivered, then the rest, which
-- is empty or still in the channel; nothing that is in the channel ahead of the receiver is missing.
pub record Exact (c : Codec) (start : ℕ) (s : Session) : Type 0 where
  pub consistent : IsConsistent s.state.hub
  pub earlier : List Event
  pub rest : List Event
  pub log :
      Sql.collect (row_to_event c) s.state.hub.events
      ≡ ok (earlier ++ (delivered s.client.sent ++ rest))
  pub cursor : length earlier ≡ start
  pub last : s.client.last_delivered ≡ length earlier + length (delivered s.client.sent)
  pub old : List Event
  pub channel : earlier ++ (delivered s.client.sent ++ rest) ≡ old ++ s.state.published
  pub position : length old + s.next ≤ s.client.last_delivered

module _ (c : Codec) (start : ℕ) where
  -- frames without events
  pub quiet-Exact :
      (s t : Session)
      → t.state ≡ s.state
      → t.next ≡ s.next
      → t.client.last_delivered ≡ s.client.last_delivered
      → delivered t.client.sent ≡ delivered s.client.sent
      → Exact c start s
      → Exact c start t
  quiet-Exact s t p q l d v = record {
    consistent = rw p v.consistent;
    earlier = v.earlier;
    rest = v.rest;
    log = rw (p, d) v.log;
    cursor = v.cursor;
    last = rw (l, d) v.last;
    old = v.old;
    channel = rw (p, d) v.channel;
    position = rw (q, l) v.position;
  }

  -- the sequence of the event at the receiver
  at_receiver :
      (s : Session) (e : Event) (v : Exact c start s) (us vs : List Event)
      → s.state.published ≡ us ++ e ∷ vs
      → length us ≡ s.next
      → e.sequence ≡ length v.old + s.next + 1
  at_receiver s e v us vs p n =
      let all : v.earlier ++ (delivered s.client.sent ++ v.rest) ≡ (v.old ++ us) ++ e ∷ vs =
        v.channel
        ∙ ap (λ (es : List Event). v.old ++ es) p
        ∙ sym (append_assoc v.old us (e ∷ vs)) in
      let numbered : Numbered 1 ((v.old ++ us) ++ e ∷ vs) =
        rw (sym all) (collect-Numbered c 1 s.state.hub.events v.consistent.gapless v.log) in
      omega
        (arith, (Numbered-append 1 (v.old ++ us) (e ∷ vs) numbered).0, n, length-append v.old us)

  -- the next event of the log
  next-Exact :
      (s : Session) (e : Event) (v : Exact c start s) (us vs : List Event)
      → s.state.published ≡ us ++ e ∷ vs
      → length us ≡ s.next
      → s.client.last_delivered < e.sequence
      → v.rest ≡ e ∷ vs
  next-Exact s e v us vs p n new =
      append-same_length (v.earlier ++ delivered s.client.sent) (v.old ++ us) v.rest (e ∷ vs)
        (omega (
          arith,
          at_receiver s e v us vs p n,
          v.last,
          v.position,
          n,
          length-append v.old us,
          length-append v.earlier (delivered s.client.sent),
        ))
        (append_assoc v.earlier (delivered s.client.sent) v.rest
          ∙ v.channel
          ∙ ap (λ (es : List Event). v.old ++ es) p
          ∙ sym (append_assoc v.old us (e ∷ vs)))

  -- one event more is delivered
  deliver-Exact :
      (s : Session) (e : Event) (v : Exact c start s) (us vs : List Event)
      → s.state.published ≡ us ++ e ∷ vs
      → length us ≡ s.next
      → s.client.last_delivered < e.sequence
      → Exact c start (record s {
        client = record {
          last_delivered = e.sequence;
          sent = s.client.sent ++ event_delivery e ∷ [];
        };
        next = suc s.next;
      })
  deliver-Exact s e v us vs p n new =
      let got = delivered s.client.sent in
      let more : delivered (s.client.sent ++ event_delivery e ∷ []) ≡ got ++ e ∷ [] =
        delivered-append s.client.sent (event_delivery e ∷ []) in
      let split : delivered (s.client.sent ++ event_delivery e ∷ []) ++ vs ≡ got ++ v.rest =
        rw (more, next-Exact s e v us vs p n new) (append_assoc got (e ∷ []) vs) in
      let longer = length-append got (e ∷ []) in
      record {
        consistent = v.consistent;
        earlier = v.earlier;
        rest = vs;
        log = rw split v.log;
        cursor = v.cursor;
        last = rw more (omega (arith, at_receiver s e v us vs p n, v.last, v.position, longer));
        old = v.old;
        channel = rw split v.channel;
        position = omega (arith, at_receiver s e v us vs p n);
      }

  pub receive-Exact :
      (s : Session) (e : Event)
      → Exact c start s
      → nth s.next s.state.published ≡ some e
      → Exact c start (record s { client = live_event e s.client; next = suc s.next })
  unfolding live_event
  receive-Exact s e v h =
      let (us, vs, p, n) = nth-eq s.next s.state.published h in
      elim (Bool-cases (ltb s.client.last_delivered e.sequence)) [
        | inl new ↦ rw new (deliver-Exact s e v us vs p n (ground arith))
        | inr seen ↦ rw seen (record {
          consistent = v.consistent;
          earlier = v.earlier;
          rest = v.rest;
          log = v.log;
          cursor = v.cursor;
          last = v.last;
          old = v.old;
          channel = v.channel;
          position = ground (arith, at_receiver s e v us vs p n);
        })
      ]
