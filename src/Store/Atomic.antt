-- ===== src/Store/Atomic.antt =====
-- The tables after `append_command_bundle`, branch by branch.
use stackhour.Prelude.{
  ◌+◌, ◌≡◌, refl, ap, true, false, Option, none, some, List, [], ◌∷◌, ◌++◌, arith, inl, inr,
  Option-cases, str_eq,
}
use stackhour.Result.{Result, ok, err, Error}
use stackhour.Sql
use stackhour.Domain.Codec.{Codec}
use stackhour.Domain.Ids.{EventId, CommandId, NodeId, Time}
use stackhour.Domain.TaskStatus
use stackhour.Domain.Event.{EventDraft}
use stackhour.Domain.Protocol.{HubToNode}
use stackhour.Store.Rows.{ReceiptRow, TaskRow, RunRow, DispatchRow, event_row, task_row, run_row}
use stackhour.Store.Db.{Db, transaction, settle, lift}
use stackhour.Store.Tables.{
  head, next_sequence, insert_event, insert_receipt_row, insert_task_row, insert_run_row,
}
use stackhour.Store.Append.{
  AppendOutcome, EntityWrite, no_entity, task_entity, run_entity, write_entity, write_dispatch,
  append_new, bundle, append_command_bundle, find_receipt, stored_outcome, set_task_status,
  insert_dispatch_row,
}
use stackhour.Store.Log.Effect.{>>=-eq-ok, receipt_row, append_new_lem}

module _ (c : Codec) where
  -- the tables `tasks`, `runs` and `pending_dispatches` after a command's entity and dispatch
  abbrev pub tasks_after : EntityWrite → List TaskRow → List TaskRow
  tasks_after no_entity rows = rows
  tasks_after (task_entity t) rows = rows ++ task_row c t ∷ []
  tasks_after (run_entity r) rows =
      Sql.update (λ (s : TaskRow). str_eq s.task_id (c.uuid_text r.task_id))
        (λ (s : TaskRow). record s { status = TaskStatus.as_str TaskStatus.running }) rows

  abbrev pub runs_after : EntityWrite → List RunRow → List RunRow
  runs_after no_entity rows = rows
  runs_after (task_entity t) rows = rows
  runs_after (run_entity r) rows = rows ++ run_row c r ∷ []

  abbrev pub dispatches_after :
      CommandId → Option (NodeId × HubToNode) → Time → List DispatchRow → List DispatchRow
  dispatches_after k none now rows = rows
  dispatches_after k (some (node_id, message)) now rows =
      rows
      ++ record {
        command_id = c.uuid_text k;
        node_id = node_id;
        message = c.message_text message;
        created_at = c.time_text now;
        acked_at = none;
      }
        ∷ []

  entity_whole :
      (w : EntityWrite) (db : Db) {u : Unit {0}} {db' : Db}
      → write_entity c w db ≡ ok (u, db')
      → db' ≡ record db { tasks = tasks_after w db.tasks; runs = runs_after w db.runs }
  unfolding write_entity insert_task_row insert_run_row set_task_status Sql.insert
  entity_whole no_entity db h = ground arith
  entity_whole (task_entity t) db h = ground arith
  entity_whole (run_entity r) db h = ground arith

  dispatch_whole :
      (k : CommandId) (q : Option (NodeId × HubToNode)) (now : Time) (db : Db) {u : Unit {0}}
      {db' : Db}
      → write_dispatch c k q now db ≡ ok (u, db')
      → db' ≡ record db { pending_dispatches = dispatches_after k q now db.pending_dispatches }
  unfolding write_dispatch insert_dispatch_row Sql.insert
  dispatch_whole k none now db h = ground arith
  dispatch_whole k (some (node_id, message)) now db h = ground arith

  -- the tables after a new command
  abbrev pub after_new :
      Time → EventId → CommandId → EventDraft → EntityWrite → Option (NodeId × HubToNode) → Db → Db
  after_new now e k d w q db = record db {
    events = db.events ++ event_row c (head db + 1) e (some k) d now ∷ [];
    command_receipts = db.command_receipts ++ receipt_row c k (head db + 1) e now ∷ [];
    tasks = tasks_after w db.tasks;
    runs = runs_after w db.runs;
    pending_dispatches = dispatches_after k q now db.pending_dispatches;
  }

  append_new_whole :
      (now : Time) (e : EventId) (k : CommandId) (d : EventDraft) (w : EntityWrite)
      (q : Option (NodeId × HubToNode)) (db : Db) {o : AppendOutcome} {db' : Db}
      → append_new c now e k d w q db ≡ ok (o, db')
      → db' ≡ after_new now e k d w q db
  unfolding append_new next_sequence insert_event insert_receipt_row Sql.insert
  append_new_whole now e k d w q db h =
      let (s₁, p₁, h₁) = >>=-eq-ok next_sequence _ db h in
      let (s₂, p₂, h₂) = >>=-eq-ok (insert_event c s₁.0 e (some k) d now) _ s₁.1 h₁ in
      let (s₃, p₃, h₃) = >>=-eq-ok (insert_receipt_row (receipt_row c k s₁.0 e now)) _ s₂.1 h₂ in
      let (s₄, p₄, h₄) = >>=-eq-ok (write_entity c w) _ s₃.1 h₃ in
      let (s₅, p₅, h₅) = >>=-eq-ok (write_dispatch c k q now) _ s₄.1 h₄ in
      ground (arith, entity_whole w s₃.1 p₄, dispatch_whole k q now s₄.1 p₅)

  -- The three ways in which a command's append ends.
  pub data Ending (now : Time) (e : EventId) (k : CommandId) (d : EventDraft) (w : EntityWrite)
      (q : Option (NodeId × HubToNode)) (db : Db) : Result AppendOutcome × Db → Type 0 where
    refused : (x : Error) → Ending now e k d w q db (err x, db)
    replayed :
        (row : ReceiptRow) (event_id : EventId)
        → find_receipt (c.uuid_text k) db ≡ some row
        → c.parse_uuid row.event_id ≡ some event_id
        → Ending now e k d w q db
            (ok (record { sequence = row.sequence; event_id = event_id; created = false }), db)
    applied :
        find_receipt (c.uuid_text k) db ≡ none
        → Ending now e k d w q db (
          ok (record { sequence = head db + 1; event_id = e; created = true }),
          after_new now e k d w q db,
        )

  module _ (now : Time) (e : EventId) (k : CommandId) (d : EventDraft) (w : EntityWrite)
      (q : Option (NodeId × HubToNode)) (db : Db) where
    new-Ending :
        find_receipt (c.uuid_text k) db ≡ none
        → (x : Result (AppendOutcome × Db)) → append_new c now e k d w q db ≡ x
        → Ending now e k d w q db (settle db x)
    new-Ending fresh (err x) h = refused x
    new-Ending fresh (ok (o, db')) h =
        rw ((append_new_lem c now e k d w q db h).0.outcome, append_new_whole now e k d w q db h)
          (applied fresh)

    old-Ending :
        (row : ReceiptRow)
        → find_receipt (c.uuid_text k) db ≡ some row
        → Ending now e k d w q db (transaction (lift (stored_outcome c row)) db)
    unfolding stored_outcome
    old-Ending row seen = elim (Option-cases (c.parse_uuid row.event_id)) [
      | inl bad ↦ rw (bad, lift) (refused _)
      | inr (event_id, good) ↦ rw (good, lift) (replayed row event_id seen good)
    ]

    pub bundle_fresh :
        find_receipt (c.uuid_text k) db ≡ none
        → bundle c now e k d w q db ≡ append_new c now e k d w q db
    unfolding bundle
    bundle_fresh fresh = ground arith

    pub bundle_seen :
        {row : ReceiptRow}
        → find_receipt (c.uuid_text k) db ≡ some row
        → bundle c now e k d w q db ≡ lift (stored_outcome c row) db
    unfolding bundle
    bundle_seen seen = ground arith

    -- A command's append either fails and leaves the database as it was; or finds the command's
    -- receipt, returns what it records and changes nothing; or finds none and returns the next
    -- sequence and the fresh event, with the event, the receipt, the entity and the dispatch all
    -- written and nothing else changed.
    pub append_command_bundle-Ending :
        Ending now e k d w q db (append_command_bundle c now e k d w q db)
    unfolding append_command_bundle
    append_command_bundle-Ending = elim (Option-cases (find_receipt (c.uuid_text k) db)) [
      | inl fresh ↦ rw (bundle_fresh fresh) (new-Ending fresh (append_new c now e k d w q db) refl)
      | inr (row, seen) ↦ rw (bundle_seen seen) (old-Ending row seen)
    ]

    Ending-created :
        {x : Result AppendOutcome × Db} {o : AppendOutcome} {db' : Db}
        → Ending now e k d w q db x
        → x ≡ (ok o, db')
        → o.created ≡ true
        → (find_receipt (c.uuid_text k) db ≡ none)
          × (o ≡ record { sequence = head db + 1; event_id = e; created = true })
          × (db' ≡ after_new now e k d w q db)
    Ending-created (refused x) h t = absurd (cc (ap (λ (r : Result AppendOutcome × Db). r.0) h))
    Ending-created (replayed row i seen good) h t = absurd (ground arith)
    Ending-created (applied fresh) h t = (fresh, ground arith, ground arith)

    -- A success that created an event is the third way.
    pub append_command_bundle-created :
        {o : AppendOutcome} {db' : Db}
        → append_command_bundle c now e k d w q db ≡ (ok o, db')
        → o.created ≡ true
        → (find_receipt (c.uuid_text k) db ≡ none)
          × (o ≡ record { sequence = head db + 1; event_id = e; created = true })
          × (db' ≡ after_new now e k d w q db)
    append_command_bundle-created = Ending-created append_command_bundle-Ending
