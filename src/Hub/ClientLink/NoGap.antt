-- ===== src/Hub/ClientLink/NoGap.antt =====
-- A session of a client, turn by turn, against the log.
use stackhour.Prelude.{
  length-append, ℕ, suc, ◌+◌, ◌≤◌, ◌≡◌, refl, sym, ◌∙◌, ap, some, List, [], ◌∷◌, ◌++◌, map, arith,
  length, drop, pos,
}
use mathlib.Core.List.{append-nil, append_assoc}
use stackhour.Result.{Result, ok}
use stackhour.Sql
use stackhour.Domain.Codec.{Codec}
use stackhour.Sql.Laws.{cons_collect, collect_cons}
use stackhour.Hub.ClientLink.Exact.{Exact}
use stackhour.Domain.Event.{Event}
use stackhour.Domain.Protocol.{event_delivery}
use stackhour.Store.Reads.{events_after}
use stackhour.Store.Rows.{row_to_event}
use stackhour.Store.Log.Invariant.{IsConsistent}
use stackhour.Store.Log.Tail.{rows_after-drop}
use stackhour.Hub.State.{HubState}
use stackhour.Hub.Broadcast.{Synced}
use stackhour.Hub.ClientLink.{Client, resync}
use stackhour.Hub.ClientLink.Session.{Session}
use stackhour.Hub.ClientLink.Delivered.{
  delivered, delivered-append, delivered-map, Numbered, Numbered-append, collect-Numbered,
  deliver_missed-all,
}

module _ {ℓ κ} {R : Type ℓ} {A : Type κ} (f : R → Result A) where
  collect-drop :
      (rows : List R) (us vs : List A)
      → Sql.collect f rows ≡ ok (us ++ vs)
      → Sql.collect f (drop (length us) rows) ≡ ok vs
  unfolding Sql.collect
  collect-drop rows [] vs h = h
  collect-drop [] (u ∷ us) vs h = absurd (ground arith)
  collect-drop (row ∷ rows) (u ∷ us) vs h =
      let (a, rest, p, q, all) = cons_collect f row rows h in
      collect-drop rows us vs (q ∙ ground arith)

  collect-append :
      (rows more : List R) {us vs : List A}
      → Sql.collect f rows ≡ ok us
      → Sql.collect f more ≡ ok vs
      → Sql.collect f (rows ++ more) ≡ ok (us ++ vs)
  unfolding Sql.collect
  collect-append [] more {us} {vs} h k = let e : [] ≡ us = ground arith in rw (sym e) k
  collect-append (row ∷ rows) more {us} {vs} h k =
      let (a, rest, p, q, all) = cons_collect f row rows h in
      rw all (collect_cons f row (rows ++ more) p (collect-append rows more q k))

module _ (c : Codec) (start : ℕ) where
  pub grow-Exact :
      (s : Session) (t : HubState)
      → IsConsistent t.hub
      → Synced c s.state t
      → Exact c start s
      → Exact c start (record s { state = t })
  grow-Exact s t v' (rows, new, p, q, b) v =
      let got = delivered s.client.sent in
      let more : v.earlier ++ (got ++ (v.rest ++ new)) ≡ (v.earlier ++ (got ++ v.rest)) ++ new =
        ap (λ (es : List Event). v.earlier ++ es) (sym (append_assoc got v.rest new))
        ∙ sym (append_assoc v.earlier (got ++ v.rest) new) in
      record {
        consistent = v';
        earlier = v.earlier;
        rest = v.rest ++ new;
        log = rw (p, more) (collect-append (row_to_event c) s.state.hub.events rows v.log q);
        cursor = v.cursor;
        last = v.last;
        old = v.old;
        channel = rw (more, b, v.channel) (append_assoc v.old s.state.published new);
        position = v.position;
      }

  -- what the log holds behind the last delivered event
  missed :
      (s : Session) (v : Exact c start s)
      → events_after c (pos s.client.last_delivered) s.state.hub ≡ ok v.rest
  unfolding events_after
  missed s v =
      let got = delivered s.client.sent in
      let split = append_assoc v.earlier got v.rest in
      let sized : s.client.last_delivered ≡ length (v.earlier ++ got) =
        v.last ∙ sym (length-append v.earlier got) in
      rw (rows_after-drop s.client.last_delivered s.state.hub v.consistent, sized)
        (collect-drop (row_to_event c) s.state.hub.events (v.earlier ++ got) v.rest
          (v.log ∙ ap (λ (es : List Event). ok es) (sym split)))

  missed-Numbered :
      (s : Session) (v : Exact c start s) → Numbered (suc s.client.last_delivered) v.rest
  missed-Numbered s v =
      let got = delivered s.client.sent in
      let all : Numbered 1 ((v.earlier ++ got) ++ v.rest) =
        rw (append_assoc v.earlier got v.rest)
          (collect-Numbered c 1 s.state.hub.events v.consistent.gapless v.log) in
      let sized : suc s.client.last_delivered ≡ 1 + length (v.earlier ++ got) =
        omega (arith, v.last, length-append v.earlier got) in
      rw sized (Numbered-append 1 (v.earlier ++ got) v.rest all)

  -- the client after it caught up
  abbrev pub caught : (s : Session) → Exact c start s → Client
  caught s v = record {
    last_delivered = s.client.last_delivered + length v.rest;
    sent = s.client.sent ++ map event_delivery v.rest;
  }

  pub resync-caught :
      (s : Session) (v : Exact c start s) → resync c s.client s.state.hub ≡ some (caught s v)
  unfolding resync
  resync-caught s v =
      rw (missed s v)
        (ap (λ (x : Client). some x) (deliver_missed-all v.rest s.client (missed-Numbered s v)))

  pub caught-Exact :
      (s : Session) (v : Exact c start s) (m : ℕ)
      → m ≤ length s.state.published
      → (w : Exact c start (record s { client = caught s v; next = m })) × (w.rest ≡ [])
  caught-Exact s v m b =
      let got = delivered s.client.sent in
      let more : delivered (s.client.sent ++ map event_delivery v.rest) ≡ got ++ v.rest =
        delivered-append s.client.sent (map event_delivery v.rest)
        ∙ ap (λ (es : List Event). got ++ es) (delivered-map v.rest) in
      let whole : delivered (s.client.sent ++ map event_delivery v.rest) ++ [] ≡ got ++ v.rest =
        append-nil _ ∙ more in
      (
        record {
          consistent = v.consistent;
          earlier = v.earlier;
          rest = [];
          log = rw whole v.log;
          cursor = v.cursor;
          last = rw more (omega (arith, v.last, length-append got v.rest));
          old = v.old;
          channel = rw whole v.channel;
          position = omega (
            arith,
            v.last,
            length-append v.earlier (got ++ v.rest),
            length-append got v.rest,
            length-append v.old s.state.published,
            ap (λ (es : List Event). length es) v.channel,
          );
        },
        refl,
      )
