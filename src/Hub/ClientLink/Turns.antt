-- ===== src/Hub/ClientLink/Turns.antt =====
-- Whole sessions of a client.
use stackhour.Prelude.{
  length-append, take-drop, String, ℕ, zero, suc, ◌+◌, ◌≤◌, ◌≡◌, refl, sym, ◌∙◌, ap, inl, inr, true,
  Option, some, List, [], ◌∷◌, ◌++◌, map, arith, Option-cases, length, drop, take, ℤ, pos, All, min,
}
use mathlib.Core.List.{append-nil}
use stackhour.Result.{ok}
use stackhour.Sql
use stackhour.Domain.Codec.{Codec, IsLawful}
use stackhour.Store.Machine
use stackhour.Store.Machine.{history, perform}
use stackhour.Store.Log.Invariant.{history-IsConsistent}
use stackhour.Hub.Publish.{append_and_broadcast_command, append_and_broadcast_node_event}
use stackhour.Hub.Reaches.{publish-hub}
use stackhour.Hub.Broadcast.{
  Readable, append_and_broadcast_command-Synced, append_and_broadcast_node_event-Synced,
}
use stackhour.Hub.ClientLink.Session.{
  commanded, reported, answered, received, lagged, beat, receive,
}
use stackhour.Hub.ClientLink.NoGap.{grow-Exact, resync-caught, caught-Exact, caught}
use stackhour.Hub.ClientLink.{open_client, snapshot, cursor}
use stackhour.Hub.State.{accepts_client}
use stackhour.Hub.ClientLink.Delivered.{last_sequence-length, select-Numbered}
use stackhour.Hub.ClientLink.Exact.{Exact, receive-Exact, quiet-Exact}
use stackhour.Domain.Event.{Event}
use stackhour.Domain.Protocol.{event_delivery, command_receipt, subscribe_ack, heartbeat}
use stackhour.Store.Db.{Db}
use stackhour.Store.Reads.{events_after}
use stackhour.Store.Rows.{row_to_event}
use stackhour.Store.Log.Invariant.{IsConsistent}
use stackhour.Store.Log.Tail.{rows_after-drop}
use stackhour.Hub.State.{HubState}
use stackhour.Hub.ClientLink.{Client}
use stackhour.Hub.ClientLink.Session.{Session, Turn, turn, turns, nth}
use stackhour.Hub.ClientLink.Delivered.{delivered-append, delivered-map, Numbered, collect-Numbered}

length-take {ℓ} : {A : Type ℓ} (n : ℕ) (xs : List A) → n ≤ length xs → length (take n xs) ≡ n
length-take zero xs h = refl
length-take (suc n) [] h = absurd (omega arith)
length-take (suc n) (x ∷ xs) h = omega (arith, length-take n xs (omega arith))

module _ (c : Codec) where
  -- the drafts of a turn read back from the log
  abbrev pub IsReadable : Turn → Type 0
  IsReadable (commanded now e k d w q) = Readable c d now
  IsReadable (reported now e d) = Readable c d now
  IsReadable (answered receipt) = Unit {0}
  IsReadable received = Unit {0}
  IsReadable (lagged dropped) = Unit {0}
  IsReadable beat = Unit {0}

  module _ (start : ℕ) where
    received-Exact :
        (s : Session) → Exact c start s → Exact c start (receive (nth s.next s.state.published) s)
    received-Exact s v = elim (Option-cases (nth s.next s.state.published)) [
      | inl waits ↦ rw waits v
      | inr (e, h) ↦ rw h (receive-Exact c start s e v h)
    ]

    -- When the channel drops events of an exact session, the client is sent the whole rest of the log: nothing that the
    -- log holds behind its cursor is left out, and the connection stays open.
    pub lagged-Exact :
        (s : Session) (dropped : ℕ)
        → Exact c start s
        → (s' : Session) × (turn c (lagged dropped) s ≡ some s')
          × (v : Exact c start s') × (v.rest ≡ [])
    unfolding turn
    lagged-Exact s dropped v =
        let m = min (s.next + dropped) (length s.state.published) in
        (
          record s { client = caught c start s v; next = m },
          rw (resync-caught c start s v) refl,
          (caught-Exact c start s v m (omega arith)).0,
          (caught-Exact c start s v m (omega arith)).1,
        )

    module _ (lawful : IsLawful c) where
      turn-Exact :
          (t : Turn) (s : Session)
          → IsReadable t
          → Exact c start s
          → (s' : Session) × (turn c t s ≡ some s') × Exact c start s'
      unfolding turn append_and_broadcast_command append_and_broadcast_node_event history perform
      turn-Exact (commanded now e k d w q) s h v = (
        _,
        refl,
        grow-Exact c start s _
            (rw (publish-hub c)
              (history-IsConsistent c (Machine.command now e k d w q ∷ []) v.consistent))
            (append_and_broadcast_command-Synced c lawful now e k d w q s.state v.consistent h) v,
      )
      turn-Exact (reported now e d) s h v = (
        _,
        refl,
        grow-Exact c start s _
            (rw (publish-hub c)
              (history-IsConsistent c (Machine.node_event now e d ∷ []) v.consistent))
            (append_and_broadcast_node_event-Synced c lawful now e d s.state v.consistent h) v,
      )
      turn-Exact (answered receipt) s h v = (
        _,
        refl,
        quiet-Exact c start s _ refl refl refl
            (delivered-append s.client.sent (command_receipt receipt ∷ []) ∙ append-nil _) v,
      )
      turn-Exact received s h v = (_, refl, received-Exact s v)
      turn-Exact (lagged dropped) s h v = let (s', p, w, e) = lagged-Exact s dropped v in (s', p, w)
      turn-Exact beat s h v = (
        _,
        refl,
        quiet-Exact c start s _ refl refl refl
            (delivered-append s.client.sent (heartbeat ∷ []) ∙ append-nil _) v,
      )

      -- From an exact session, and with drafts that read back from the log: through every sequence
      -- of turns, with appends by anyone, dropped events and resyncs among
      -- them, a session stays open and its client has been delivered just the log's events from its
      -- cursor on: in the log's order, each once and with no gap.
      pub turns-Exact :
          (ts : List Turn) (s : Session)
          → All IsReadable ts
          → Exact c start s
          → (s' : Session) × (turns c ts s ≡ some s') × Exact c start s'
      unfolding turns
      turns-Exact [] s h v = (s, refl, v)
      turns-Exact (t ∷ ts) s h v =
          let (s', p, v') = turn-Exact t s h.0 v in
          let (last, q, w) = turns-Exact ts s' h.1 v' in (last, rw (turns, p) q, w)

  snapshot-drop :
      (k : ℕ) (db : Db) (all : List Event)
      → IsConsistent db
      → Sql.collect (row_to_event c) db.events ≡ ok all
      → snapshot c (pos k) db ≡ ok (length all, drop k all)
  unfolding snapshot events_after
  snapshot-drop k db all v log =
      let numbered : Numbered 1 all = collect-Numbered c 1 db.events v.gapless log in
      let read : events_after c (pos 0) db ≡ ok all = rw (rows_after-drop 0 db v) log in
      rw (snapshot, read)
        (rw (select-Numbered k 0 k all numbered (omega arith), last_sequence-length all numbered)
          refl)

  -- A client that the hub accepts, with a cursor that the log has, on a gapless log that reads back
  -- and whose end is what was broadcast, is sent the events behind
  -- its cursor, and its session begins exact, wherever in the channel its receiver stands.
  pub open_client-Exact :
      (token : Option String) (after : Option ℤ) (k next : ℕ) (s : HubState) (old all : List Event)
      → accepts_client token s ≡ true
      → cursor after ≡ pos k
      → k ≤ length all
      → IsConsistent s.hub
      → Sql.collect (row_to_event c) s.hub.events ≡ ok all
      → all ≡ old ++ s.published
      → next ≤ length s.published
      → (client : Client) × (open_client c token after s ≡ some client)
        × Exact c k (record { client = client; next = next; state = s })
  unfolding open_client
  open_client-Exact token after k next s old all accepted at within v log channel behind =
      let got = delivered-map (drop k all) in
      (
        record {
          last_delivered = length all;
          sent = subscribe_ack after (length all) ∷ map event_delivery (drop k all);
        },
        rw (accepted, at) (rw (snapshot-drop k s.hub all v log) refl),
        record {
          consistent = v;
          earlier = take k all;
          rest = [];
          log = rw (got, append-nil (drop k all), take-drop k all) log;
          cursor = length-take k all within;
          last = rw got (
              sym (ap (λ (es : List Event). length es) (take-drop k all))
              ∙ length-append (take k all) (drop k all));
          old = old;
          channel = rw (got, append-nil (drop k all), take-drop k all) channel;
          position =
              omega
                (arith, length-append old s.published, ap (λ (es : List Event). length es) channel);
        },
      )
