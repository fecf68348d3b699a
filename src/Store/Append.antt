-- ===== src/Store/Append.antt =====
-- `append_command_bundle` and its shorthands, `append_node_event`, the effects of a terminal event,
-- and `command_outcome`, of crates/stackhour-domain/src/store.rs.
use stackhour.Prelude.{ℕ, String, Bool, true, false, Option, none, some, str_eq, ◌||◌, ◌==◌}
use stackhour.Result.{Result, ok, err}
use stackhour.Sql
use stackhour.Domain.Codec.{Codec}
use stackhour.Domain.Ids.{RunId, EventId, CommandId, NodeId, Time}
use stackhour.Domain.Event.{EventDraft}
use stackhour.Domain.EventKind
use stackhour.Domain.EventKind.{EventKind, run_completed, run_failed, run_interrupted}
use stackhour.Domain.TaskStatus
use stackhour.Domain.TaskStatus.{TaskStatus}
use stackhour.Domain.RunStatus
use stackhour.Domain.RunStatus.{RunStatus}
use stackhour.Domain.Entities.{Task, Run}
use stackhour.Domain.Protocol.{HubToNode}
use stackhour.Store.Rows.{
  EventRow, ReceiptRow, WorkerRow, TaskRow, RunRow, DispatchRow, WakeRow, req_id,
}
use stackhour.Store.Db.{Db, Tx, pure, lift, write, transaction, ◌>>=◌, ◌>>◌}
use stackhour.Store.Tables.{
  next_sequence, insert_event, insert_receipt_row, insert_task_row, insert_run_row,
}

pub record AppendOutcome : Type 0 where
  pub sequence : ℕ
  pub event_id : EventId
  pub created : Bool

pub data EntityWrite : Type 0 where
  no_entity : EntityWrite
  task_entity : Task → EntityWrite
  run_entity : Run → EntityWrite

-- UPDATE tasks SET status = … WHERE task_id = …
unfoldable pub set_task_status : String → TaskStatus → Tx (Unit {0})
set_task_status task_id status = write λ db. ok (record db {
  tasks =
      Sql.update (λ (r : TaskRow). str_eq r.task_id task_id)
        (λ (r : TaskRow). record r { status = TaskStatus.as_str status }) db.tasks;
})

-- UPDATE runs SET status = … WHERE run_id = …
unfoldable pub set_run_status : String → RunStatus → Tx (Unit {0})
set_run_status run_id status = write λ db. ok (record db {
  runs =
      Sql.update (λ (r : RunRow). str_eq r.run_id run_id)
        (λ (r : RunRow). record r { status = RunStatus.as_str status }) db.runs;
})

-- the row of `command_receipts` for a command's text
unfoldable pub find_receipt : String → Db → Option ReceiptRow
find_receipt k db = Sql.first (λ (r : ReceiptRow). str_eq r.command_id k) db.command_receipts

-- the row of `events` for an event's text
unfoldable pub find_event : String → Db → Option EventRow
find_event k db = Sql.first (λ (r : EventRow). str_eq r.event_id k) db.events

unfoldable pub insert_dispatch_row : DispatchRow → Tx (Unit {0})
insert_dispatch_row r = write λ db.
    elim (Sql.insert (λ (s : DispatchRow). str_eq s.command_id r.command_id) r
      db.pending_dispatches) [
        | ok rows ↦ ok (record db { pending_dispatches = rows })
        | err e ↦ err e
      ]

abbrev same_wake : WakeRow → WakeRow → Bool
same_wake r s = str_eq s.event_id r.event_id || (s.sequence == r.sequence)

-- The INSERT of a wake: `event_id` is the primary key, `sequence` is UNIQUE.
unfoldable pub insert_wake_row : WakeRow → Tx (Unit {0})
insert_wake_row r = write λ db. elim (Sql.insert (same_wake r) r db.assistant_wakes) [
  | ok rows ↦ ok (record db { assistant_wakes = rows })
  | err e ↦ err e
]

-- the statuses that a terminal kind sets, and whether it wakes the assistant
unfoldable pub terminal_effect : EventKind → Option (RunStatus × TaskStatus × Bool)
terminal_effect run_completed = some (RunStatus.completed, TaskStatus.completed, true)
terminal_effect run_failed = some (RunStatus.failed, TaskStatus.failed, true)
terminal_effect run_interrupted = some (RunStatus.interrupted, TaskStatus.interrupted, false)
terminal_effect _ = none

-- the channel that a worker task is registered under
unfoldable pub worker_channel : String → Db → Option String
worker_channel task_id db =
    elim (Sql.first (λ (r : WorkerRow). str_eq r.task_id task_id) db.assistant_workers) [
      | none ↦ none
      | some r ↦ some r.channel
    ]

module _ (c : Codec) where
  unfoldable pub write_entity : EntityWrite → Tx (Unit {0})
  unfolding insert_task_row insert_run_row set_task_status
  write_entity no_entity = pure tt
  write_entity (task_entity t) = insert_task_row c t
  write_entity (run_entity r) = do
    insert_run_row c r
    set_task_status (c.uuid_text r.task_id) TaskStatus.running

  unfoldable pub write_dispatch : CommandId → Option (NodeId × HubToNode) → Time → Tx (Unit {0})
  unfolding insert_dispatch_row
  write_dispatch command_id none received_at = pure tt
  write_dispatch command_id (some (node_id, message)) received_at = insert_dispatch_row (record {
    command_id = c.uuid_text command_id;
    node_id = node_id;
    message = c.message_text message;
    created_at = c.time_text received_at;
    acked_at = none;
  })

  -- a command that has no receipt yet; `event_id` is the fresh `EventId::new()`
  unfoldable pub append_new :
      Time
      → EventId
      → CommandId
      → EventDraft
      → EntityWrite
      → Option (NodeId × HubToNode)
      → Tx AppendOutcome
  append_new received_at event_id command_id draft entity dispatch = do
    sequence ← next_sequence
    insert_event c sequence event_id (some command_id) draft received_at
    insert_receipt_row (record {
      command_id = c.uuid_text command_id;
      sequence = sequence;
      event_id = c.uuid_text event_id;
      received_at = c.time_text received_at;
    })
    write_entity entity
    write_dispatch command_id dispatch received_at
    pure (record { sequence = sequence; event_id = event_id; created = true })

  -- the stored result of a command that has a receipt
  unfoldable pub stored_outcome : ReceiptRow → Result AppendOutcome
  stored_outcome r = elim (req_id c r.event_id) [
    | ok event_id ↦ ok (record { sequence = r.sequence; event_id = event_id; created = false })
    | err e ↦ err e
  ]

  unfoldable pub bundle :
      Time
      → EventId
      → CommandId
      → EventDraft
      → EntityWrite
      → Option (NodeId × HubToNode)
      → Tx AppendOutcome
  unfolding find_receipt
  bundle received_at event_id command_id draft entity dispatch db =
      elim (find_receipt (c.uuid_text command_id) db) [
        | some r ↦ lift (stored_outcome r) db
        | none ↦ append_new received_at event_id command_id draft entity dispatch db
      ]

  unfoldable pub append_command_bundle :
      Time
      → EventId
      → CommandId
      → EventDraft
      → EntityWrite
      → Option (NodeId × HubToNode)
      → Db
      → Result AppendOutcome × Db
  append_command_bundle received_at event_id command_id draft entity dispatch =
      transaction (bundle received_at event_id command_id draft entity dispatch)

  unfoldable pub append_command_with :
      Time → EventId → CommandId → EventDraft → EntityWrite → Db → Result AppendOutcome × Db
  unfolding append_command_bundle
  append_command_with received_at event_id command_id draft entity =
      append_command_bundle received_at event_id command_id draft entity none

  unfoldable pub append_command :
      Time → EventId → CommandId → EventDraft → Db → Result AppendOutcome × Db
  unfolding append_command_with
  append_command received_at event_id command_id draft =
      append_command_with received_at event_id command_id draft no_entity

  unfoldable pub command_outcome : CommandId → Db → Result (Option AppendOutcome)
  unfolding find_receipt
  command_outcome command_id db = elim (find_receipt (c.uuid_text command_id) db) [
    | none ↦ ok none
    | some r ↦ elim (stored_outcome r) [ ok o ↦ ok (some o) | err e ↦ err e ]
  ]

  unfoldable pub wake_row : EventId → ℕ → EventDraft → RunId → Time → String → WakeRow
  wake_row event_id sequence draft run_id received_at channel = record {
    event_id = c.uuid_text event_id;
    sequence = sequence;
    channel = channel;
    task_id = c.uuid_text draft.task_id;
    run_id = c.uuid_text run_id;
    kind = EventKind.as_str draft.kind;
    created_at = c.time_text received_at;
    attempt_count = 0;
    next_attempt_at = c.time_text received_at;
    last_error = none;
    processed_at = none;
  }

  unfoldable pub wake_assistant : Bool → EventId → ℕ → EventDraft → RunId → Time → Tx (Unit {0})
  wake_assistant false event_id sequence draft run_id received_at db = ok (tt, db)
  wake_assistant true event_id sequence draft run_id received_at db =
      elim (worker_channel (c.uuid_text draft.task_id) db) [
        | none ↦ ok (tt, db)
        | some channel ↦
            insert_wake_row (wake_row event_id sequence draft run_id received_at channel) db
      ]

  abbrev pub terminal :
      Option (RunStatus × TaskStatus × Bool)
      → Option RunId
      → EventId
      → ℕ
      → EventDraft
      → Time
      → Tx (Unit {0})
  terminal none run event_id sequence draft received_at = pure tt
  terminal (some e) none event_id sequence draft received_at = pure tt
  terminal (some (run_status, task_status, wakes)) (some run_id) event_id sequence draft
        received_at =
      do
        set_run_status (c.uuid_text run_id) run_status
        set_task_status (c.uuid_text draft.task_id) task_status
        wake_assistant wakes event_id sequence draft run_id received_at

  unfoldable pub apply_terminal_lifecycle_and_wake : EventId → ℕ → EventDraft → Time → Tx (Unit {0})
  apply_terminal_lifecycle_and_wake event_id sequence draft received_at =
      terminal (terminal_effect draft.kind) draft.run_id event_id sequence draft received_at

  unfoldable pub append_fresh_node_event : Time → EventId → EventDraft → Tx AppendOutcome
  append_fresh_node_event received_at event_id draft = do
    sequence ← next_sequence
    insert_event c sequence event_id none draft received_at
    apply_terminal_lifecycle_and_wake event_id sequence draft received_at
    pure (record { sequence = sequence; event_id = event_id; created = true })

  unfoldable pub node_event : Time → EventId → EventDraft → Tx AppendOutcome
  unfolding find_event
  node_event received_at event_id draft db = elim (find_event (c.uuid_text event_id) db) [
    | some r ↦ ok (record { sequence = r.sequence; event_id = event_id; created = false }, db)
    | none ↦ append_fresh_node_event received_at event_id draft db
  ]

  unfoldable pub append_node_event : Time → EventId → EventDraft → Db → Result AppendOutcome × Db
  append_node_event received_at event_id draft = transaction (node_event received_at event_id draft)
