-- ===== src/Store/Log/Change.antt =====
-- The changes of the log that a step of the store can make, as a relation on databases.
use stackhour.Prelude.{
  ◌+◌, ◌≡◌, refl, Option, none, some, [], ◌∷◌, ◌++◌, arith, inl, inr, Option-cases,
}
use stackhour.Result.{Result, ok, err}
use stackhour.Domain.Codec.{Codec}
use stackhour.Domain.Ids.{EventId, CommandId, NodeId, Time}
use stackhour.Domain.Event.{EventDraft}
use stackhour.Domain.Protocol.{HubToNode}
use stackhour.Store.Db.{Db, Tx, transaction}
use stackhour.Store.Tables.{head, insert_task_row, insert_run_row}
use stackhour.Store.Append.{
  AppendOutcome, EntityWrite, bundle, append_command_bundle, append_node_event, node_event,
  find_receipt, find_event,
}
use stackhour.Store.Entities.{insert_task, create_task, insert_run, start_run, upsert_node}
use stackhour.Store.Dispatch.{acknowledge_dispatch, acknowledge_dispatch_from}
use stackhour.Store.Wakes.{register_assistant_worker, complete_assistant_wake, defer_assistant_wake}
use stackhour.Store.Approvals.{request_approval, resolve_approval, resolve, settle_approval}
use stackhour.Store.Settings.{put_setting}
use stackhour.Store.Machine
use stackhour.Store.Machine.{Step, perform}
use stackhour.Store.Log.Frame.{SameLog}
use stackhour.Store.Log.Effect.{Appended, receipt_row, append_new_lem, append_fresh_node_event_lem}

-- What holds of the tables before and after each success holds of the transaction.
pub transaction_cases :
    {A : Type 0} (P : Db → Type 0) (m : Tx A) (db : Db)
    → P db
    → ((r : A × Db) → m db ≡ ok r → P r.1)
    → P (transaction m db).1
transaction_cases {A} P m db stay go = by_result (m db) refl
  where
    by_result : (x : Result (A × Db)) → m db ≡ x → P (transaction m db).1
    by_result (ok r) e = rw (e, transaction) (go r e)
    by_result (err x) e = rw (e, transaction) stay

module _ (c : Codec) where
  pub data LogChange (db db' : Db) : Type 0 where
    unchanged : SameLog db db' → LogChange db db'
    by_command :
        (now : Time) (e : EventId) (k : CommandId) (d : EventDraft) (o : AppendOutcome)
        → find_receipt (c.uuid_text k) db ≡ none
        → Appended c (head db + 1) e (some k) d now db db' o
        → db'.command_receipts ≡ db.command_receipts ++ receipt_row c k (head db + 1) e now ∷ []
        → LogChange db db'
    by_node :
        (now : Time) (e : EventId) (d : EventDraft) (o : AppendOutcome)
        → Appended c (head db + 1) e none d now db db' o
        → db'.command_receipts ≡ db.command_receipts
        → LogChange db db'

  same : (db : Db) → LogChange db db
  same db = unchanged (record { events = refl; receipts = refl })

  bundle-LogChange :
      (now : Time) (e : EventId) (k : CommandId) (d : EventDraft) (w : EntityWrite)
      (q : Option (NodeId × HubToNode)) (db : Db) (r : AppendOutcome × Db)
      → bundle c now e k d w q db ≡ ok r
      → LogChange db r.1
  unfolding bundle
  bundle-LogChange now e k d w q db r h = elim (Option-cases (find_receipt (c.uuid_text k) db)) [
    | inl fresh ↦
        let (a, b) = append_new_lem c now e k d w q db (ground arith) in
        by_command now e k d r.0 fresh a b
    | inr (row, seen) ↦ unchanged (ground arith)
  ]

  node_event-LogChange :
      (now : Time) (e : EventId) (d : EventDraft) (db : Db) (r : AppendOutcome × Db)
      → node_event c now e d db ≡ ok r
      → LogChange db r.1
  unfolding node_event
  node_event-LogChange now e d db r h = elim (Option-cases (find_event (c.uuid_text e) db)) [
    | inl fresh ↦
        let (a, b) = append_fresh_node_event_lem c now e d db (ground arith) in
        by_node now e d r.0 a b
    | inr (row, seen) ↦ unchanged (ground arith)
  ]

  -- Every step of the store changes the log in one of these three ways.
  pub perform-LogChange : (s : Step) (db : Db) → LogChange db (perform c s db)
  unfolding perform append_command_bundle append_node_event insert_task create_task insert_run
      start_run upsert_node acknowledge_dispatch acknowledge_dispatch_from register_assistant_worker
      complete_assistant_wake defer_assistant_wake request_approval resolve_approval put_setting
      insert_task_row insert_run_row resolve settle_approval
  perform-LogChange (Machine.command now e k d w q) db =
      transaction_cases (LogChange db) (bundle c now e k d w q) db (same db)
        (bundle-LogChange now e k d w q db)
  perform-LogChange (Machine.node_event now e d) db =
      transaction_cases (LogChange db) (node_event c now e d) db (same db)
        (node_event-LogChange now e d db)
  perform-LogChange (Machine.task_row t) db = unchanged (ground arith)
  perform-LogChange (Machine.new_task id now title) db = unchanged (ground arith)
  perform-LogChange (Machine.run_row r) db = unchanged (ground arith)
  perform-LogChange (Machine.new_run id now t n engine p) db = unchanged (ground arith)
  perform-LogChange (Machine.node_row n) db = unchanged (ground arith)
  perform-LogChange (Machine.dispatch_ack now k) db = unchanged (ground arith)
  perform-LogChange (Machine.dispatch_ack_from now k n) db = unchanged (ground arith)
  perform-LogChange (Machine.worker now channel t) db = unchanged (ground arith)
  perform-LogChange (Machine.wake_done now e) db = unchanged (ground arith)
  perform-LogChange (Machine.wake_later now e error) db = unchanged (ground arith)
  perform-LogChange (Machine.approval id now r t tool scope options expires) db =
      unchanged (ground arith)
  perform-LogChange (Machine.resolution id decision actor now) db = unchanged (ground arith)
  perform-LogChange (Machine.setting now key value) db = unchanged (ground arith)
