-- ===== src/Store/NodeEvents/Retry.antt =====
-- `append_node_event` on an event that the log holds already.
use stackhour.Prelude.{
  ◌+◌, ◌≡◌, refl, ap, false, none, some, List, [], ◌∷◌, ◌++◌, arith, inl, inr, Option-cases,
  eq_refl,
}
use stackhour.Result.{Result, ok, err}
use stackhour.Sql
use stackhour.Sql.Laws.{first-append}
use stackhour.Domain.Codec.{Codec}
use stackhour.Domain.Ids.{EventId, Time}
use stackhour.Domain.Event.{EventDraft}
use stackhour.Store.Rows.{EventRow, event_row}
use stackhour.Store.Db.{Db, settle}
use stackhour.Store.Tables.{head}
use stackhour.Store.Append.{
  AppendOutcome, append_node_event, node_event, find_event, append_fresh_node_event,
}
use stackhour.Store.Machine.{Step, history}
use stackhour.Store.Log.Effect.{append_fresh_node_event_lem}
use stackhour.Store.Log.Growth.{history-Grows, find_event-Grows}

module _ (c : Codec) where
  -- the log holds the event `e` under the sequence of `o`
  abbrev pub Logged : EventId → AppendOutcome → Db → Type 0
  Logged e o db =
      (r : EventRow) × (find_event (c.uuid_text e) db ≡ some r)
      × (r.sequence ≡ o.sequence)
      × (o.event_id ≡ e)

  module _ (now : Time) (e : EventId) (d : EventDraft) (db : Db) where
    pub node_event_fresh :
        find_event (c.uuid_text e) db ≡ none
        → node_event c now e d db ≡ append_fresh_node_event c now e d db
    unfolding node_event
    node_event_fresh h = ground arith

    pub node_event_seen :
        {r : EventRow}
        → find_event (c.uuid_text e) db ≡ some r
        → node_event c now e d db
          ≡ ok (record { sequence = r.sequence; event_id = e; created = false }, db)
    unfolding node_event
    node_event_seen h = ground arith

    find_event_fresh :
        (db' : Db)
        → find_event (c.uuid_text e) db ≡ none
        → db'.events ≡ db.events ++ event_row c (head db + 1) e none d now ∷ []
        → find_event (c.uuid_text e) db' ≡ some (event_row c (head db + 1) e none d now)
    unfolding find_event Sql.first event_row
    find_event_fresh db' h p = rw (p, first-append) (rw h (ground (arith, eq_refl (c.uuid_text e))))

    fresh-Logged :
        {o : AppendOutcome} {db' : Db} (x : Result (AppendOutcome × Db))
        → find_event (c.uuid_text e) db ≡ none
        → append_fresh_node_event c now e d db ≡ x
        → settle db x ≡ (ok o, db')
        → Logged e o db'
    unfolding event_row
    fresh-Logged (err y) none_seen p h = absurd (cc (ap (λ (r : Result AppendOutcome × Db). r.0) h))
    fresh-Logged (ok (a, b)) none_seen p h =
        let lem = append_fresh_node_event_lem c now e d db p in
        (
          event_row c (head db + 1) e none d now,
          ground (arith, find_event_fresh b none_seen lem.0.events),
          ground arith,
          ground arith,
        )

    pub append-Logged :
        {o : AppendOutcome} {db' : Db}
        → append_node_event c now e d db ≡ (ok o, db')
        → Logged e o db'
    unfolding append_node_event
    append-Logged h = elim (Option-cases (find_event (c.uuid_text e) db)) [
      | inl none_seen ↦
          fresh-Logged (append_fresh_node_event c now e d db) none_seen refl
            (rw (node_event_fresh none_seen) at h)
      | inr (r, seen) ↦
          let h' = rw (node_event_seen seen) at h in (r, ground arith, ground arith, ground arith)
    ]

  -- Once a node's event is in the log, a delivery of the same event id, with any content, after
  -- any operations between, returns the first sequence, says that it created nothing, and changes
  -- nothing.
  pub append_node_event-replay :
      (now : Time) (e : EventId) (d : EventDraft) (db : Db) {o : AppendOutcome} {db' : Db}
      (ss : List Step) (now' : Time) (d' : EventDraft)
      → append_node_event c now e d db ≡ (ok o, db')
      → append_node_event c now' e d' (history c ss db')
        ≡ (ok (record o { created = false }), history c ss db')
  unfolding append_node_event
  append_node_event-replay now e d db {o} {db'} ss now' d' h =
      let (r, seen, n, i) = append-Logged now e d db h in
      rw
        (node_event_seen now' e d' (history c ss db')
          (find_event-Grows (c.uuid_text e) (history-Grows c ss db') seen))
        (ground arith)
