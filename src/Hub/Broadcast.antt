-- ===== src/Hub/Broadcast.antt =====
-- The broadcast of what the appends add to the log.
use stackhour.Prelude.{
  ℕ, ◌+◌, ◌<◌, ◌≡◌, refl, sym, ◌∙◌, ap, inl, inr, true, Option, none, some, List, [], ◌∷◌, ◌++◌,
  arith, Option-cases, length, drop, pos,
}
use mathlib.Core.List.{append-nil}
use stackhour.Result.{Result, ok, err}
use stackhour.Sql
use stackhour.Domain.Codec.{Codec, IsLawful, year_10000}
use stackhour.Domain.Ids.{EventId, CommandId, NodeId, Time}
use stackhour.Domain.Event.{EventDraft, Event}
use stackhour.Domain.Protocol.{HubToNode}
use stackhour.Store.Db.{Db, settle}
use stackhour.Store.Rows.{EventRow, event_row, row_to_event}
use stackhour.Store.Rows.Roundtrip.{row_to_event-event_row}
use stackhour.Store.Tables.{head}
use stackhour.Store.Reads.{events_after}
use stackhour.Store.Append.{
  AppendOutcome, EntityWrite, append_node_event, append_fresh_node_event, find_event, node_event,
}
use stackhour.Store.Machine
use stackhour.Store.Machine.{history, perform}
use stackhour.Store.Atomic.{Ending, refused, replayed, applied, append_command_bundle-Ending}
use stackhour.Store.Log.Invariant.{IsConsistent, head-Gapless, history-IsConsistent}
use stackhour.Store.Log.Tail.{rows_after-drop}
use stackhour.Store.Log.Effect.{append_fresh_node_event_lem}
use stackhour.Store.NodeEvents.Retry.{node_event_fresh, node_event_seen}
use stackhour.Hub.State.{HubState}
use stackhour.Hub.Publish.{
  publish, fetch_event, before, append_and_broadcast_command, append_and_broadcast_node_event,
}

drop-end {ℓ} : {A : Type ℓ} (xs : List A) (y : A) → drop (length xs) (xs ++ y ∷ []) ≡ y ∷ []
drop-end [] y = refl
drop-end (x ∷ xs) y = drop-end xs y

module _ (c : Codec) where
  -- the store's log has grown by just what was broadcast
  abbrev pub Synced : HubState → HubState → Type 0
  Synced s t =
      (rows : List EventRow) × (new : List Event) × (t.hub.events ≡ s.hub.events ++ rows)
      × (Sql.collect (row_to_event c) rows ≡ ok new)
      × (t.published ≡ s.published ++ new)

  Synced-same :
      (s t : HubState) → t.hub.events ≡ s.hub.events → t.published ≡ s.published → Synced s t
  unfolding Sql.collect
  Synced-same s t e p =
      ([], [], e ∙ sym (append-nil s.hub.events), refl, p ∙ sym (append-nil s.published))

  events_after-last :
      (old : List EventRow) (row : EventRow) (db : Db) {event : Event}
      → IsConsistent db
      → db.events ≡ old ++ row ∷ []
      → row_to_event c row ≡ ok event
      → events_after c (pos (length old)) db ≡ ok (event ∷ [])
  unfolding events_after Sql.collect
  events_after-last old row db v e reads =
      rw (rows_after-drop (length old) db v) (rw e (rw (drop-end old row) (ground (arith, reads))))

  fetch_event-last :
      (old : List EventRow) (row : EventRow) (db : Db) {event : Event}
      → IsConsistent db
      → db.events ≡ old ++ row ∷ []
      → row_to_event c row ≡ ok event
      → event.sequence ≡ length old + 1
      → fetch_event c (length old + 1) db ≡ ok (some event)
  unfolding fetch_event Sql.first
  fetch_event-last old row db v e reads n =
      let cursor : before (length old + 1) ≡ pos (length old) = ground arith in
      rw (fetch_event, cursor) (rw (events_after-last old row db v e reads) (ground (arith, n)))

  -- what is published after a new event
  publish-Synced :
      (n : ℕ) (e : EventId) (o : AppendOutcome) (s : HubState) (db : Db) (row : EventRow)
      {event : Event}
      → o ≡ record { sequence = n; event_id = e; created = true }
      → n ≡ length s.hub.events + 1
      → IsConsistent db
      → db.events ≡ s.hub.events ++ row ∷ []
      → row_to_event c row ≡ ok event
      → event.sequence ≡ n
      → Synced s (publish c (ok o) (record s { hub = db })).1
  unfolding publish Sql.collect
  publish-Synced n e o s db row {event} made head_next v more reads at =
      let found : fetch_event c o.sequence db ≡ ok (some event) =
        rw (made, head_next) (fetch_event-last s.hub.events row db v more reads (at ∙ head_next)) in
      let new : o.created ≡ true = rw made refl in
      rw (publish, new) (rw found (row ∷ [], event ∷ [], more, ground (arith, reads), refl))

  -- the draft and its stamp read back from the log
  abbrev pub Readable : EventDraft → Time → Type 0
  Readable d now =
      (c.parse_json (c.json_text d.payload) ≡ some d.payload)
      × (d.occurred_at < year_10000)
      × (now < year_10000)

  module _ (lawful : IsLawful c) where
    command-Synced :
        (now : Time) (e : EventId) (k : CommandId) (d : EventDraft) (w : EntityWrite)
        (q : Option (NodeId × HubToNode)) (s : HubState) {x : Result AppendOutcome × Db}
        → IsConsistent s.hub
        → Readable d now
        → IsConsistent x.1
        → Ending c now e k d w q s.hub x
        → Synced s (publish c x.0 (record s { hub = x.1 })).1
    unfolding publish event_row
    command-Synced now e k d w q s v readable v' (refused x) = Synced-same s s refl refl
    command-Synced now e k d w q s v readable v' (replayed row i seen good) =
        Synced-same s s refl refl
    command-Synced now e k d w q s v readable v' (applied fresh) =
        publish-Synced (head s.hub + 1) e _ s _ (event_row c (head s.hub + 1) e (some k) d now) refl
          (ap (λ (n : ℕ). n + 1) (head-Gapless s.hub v.gapless)) v' refl
          (row_to_event-event_row c lawful (head s.hub + 1) e (some k) d now readable.0 readable.1
            readable.2)
          refl

    -- A client command's append broadcasts just the events that it adds to the log, in the log's
    -- order, whichever way it ends: for a gapless log and a draft that reads back from its row.
    pub append_and_broadcast_command-Synced :
        (now : Time) (e : EventId) (k : CommandId) (d : EventDraft) (w : EntityWrite)
        (q : Option (NodeId × HubToNode)) (s : HubState)
        → IsConsistent s.hub
        → Readable d now
        → Synced s (append_and_broadcast_command c now e k d w q s).1
    unfolding append_and_broadcast_command history perform
    append_and_broadcast_command-Synced now e k d w q s v readable =
        command-Synced now e k d w q s v readable
          (history-IsConsistent c (Machine.command now e k d w q ∷ []) v)
          (append_command_bundle-Ending c now e k d w q s.hub)

    fresh-Synced :
        (now : Time) (e : EventId) (d : EventDraft) (s : HubState) (x : Result (AppendOutcome × Db))
        → append_fresh_node_event c now e d s.hub ≡ x
        → IsConsistent s.hub
        → Readable d now
        → IsConsistent (settle s.hub x).1
        → Synced s (publish c (settle s.hub x).0 (record s { hub = (settle s.hub x).1 })).1
    unfolding publish event_row
    fresh-Synced now e d s (err y) p v readable v' = Synced-same s s refl refl
    fresh-Synced now e d s (ok (o, db)) p v readable v' =
        let added = (append_fresh_node_event_lem c now e d s.hub p).0 in
        publish-Synced (head s.hub + 1) e o s db (event_row c (head s.hub + 1) e none d now)
          added.outcome (ap (λ (n : ℕ). n + 1) (head-Gapless s.hub v.gapless)) v' added.events
          (row_to_event-event_row c lawful (head s.hub + 1) e none d now readable.0 readable.1
            readable.2)
          refl

    -- A node event's append broadcasts just the events that it adds to the log, whichever way it
    -- ends: for a gapless log and a draft that reads back from its row.
    pub append_and_broadcast_node_event-Synced :
        (now : Time) (e : EventId) (d : EventDraft) (s : HubState)
        → IsConsistent s.hub
        → Readable d now
        → Synced s (append_and_broadcast_node_event c now e d s).1
    unfolding append_and_broadcast_node_event append_node_event history perform publish
    append_and_broadcast_node_event-Synced now e d s v readable =
        let v' : IsConsistent (settle s.hub (node_event c now e d s.hub)).1 =
          history-IsConsistent c (Machine.node_event now e d ∷ []) v in
        elim (Option-cases (find_event (c.uuid_text e) s.hub)) [
          | inl none_seen ↦
              let same = node_event_fresh c now e d s.hub none_seen in
              rw same (
                fresh-Synced now e d s (append_fresh_node_event c now e d s.hub) refl v readable
                  (rw same at v'))
          | inr (row, seen) ↦ rw (node_event_seen c now e d s.hub seen) (Synced-same s s refl refl)
        ]
