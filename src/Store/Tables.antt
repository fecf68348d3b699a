-- ===== src/Store/Tables.antt =====
-- The INSERT helpers of crates/stackhour-domain/src/store.rs, and the assignment of sequences.
use stackhour.Prelude.{ℕ, ◌+◌, ◌-◌, ◌^◌, Bool, Option, ltb, str_eq, if◌then◌else◌, ◌||◌, ◌==◌}
use stackhour.Result.{ok, err, sequence_overflow}
use stackhour.Sql
use stackhour.Domain.Codec.{Codec}
use stackhour.Domain.Ids.{EventId, CommandId, Time}
use stackhour.Domain.Event.{EventDraft}
use stackhour.Domain.Entities.{Task, Run}
use stackhour.Store.Rows.{EventRow, ReceiptRow, event_row, task_row, run_row}
use stackhour.Store.Db.{Db, Tx, write}

abbrev pub i64_max : ℕ
i64_max = 2 ^ 63 - 1

-- SELECT COALESCE(MAX(sequence), 0) FROM events
unfoldable pub head : Db → ℕ
head db = Sql.max_of (λ (r : EventRow). r.sequence) db.events

unfoldable pub next_sequence : Tx ℕ
unfolding head
next_sequence db =
    let m = head db in if ltb m i64_max then ok (m + 1, db) else err sequence_overflow

-- two rows of `events` in conflict: the primary key, or the UNIQUE column
abbrev pub same_event : EventRow → EventRow → Bool
same_event r s = (s.sequence == r.sequence) || str_eq s.event_id r.event_id

-- the INSERTs of one row, over the whole database
unfoldable pub insert_event_row : EventRow → Tx (Unit {0})
insert_event_row r = write λ db. elim (Sql.insert (same_event r) r db.events) [
  | ok rows ↦ ok (record db { events = rows })
  | err e ↦ err e
]

unfoldable pub insert_receipt_row : ReceiptRow → Tx (Unit {0})
insert_receipt_row r = write λ db.
    elim (Sql.insert (λ s. str_eq s.command_id r.command_id) r db.command_receipts) [
      | ok rows ↦ ok (record db { command_receipts = rows })
      | err e ↦ err e
    ]

module _ (c : Codec) where
  unfoldable pub insert_event : ℕ → EventId → Option CommandId → EventDraft → Time → Tx (Unit {0})
  unfolding insert_event_row event_row
  insert_event sequence event_id command_id draft received_at =
      insert_event_row (event_row c sequence event_id command_id draft received_at)

  unfoldable pub insert_task_row : Task → Tx (Unit {0})
  unfolding task_row
  insert_task_row t =
      let r = task_row c t in
      write λ db. elim (Sql.insert (λ s. str_eq s.task_id r.task_id) r db.tasks) [
        | ok rows ↦ ok (record db { tasks = rows })
        | err e ↦ err e
      ]

  unfoldable pub insert_run_row : Run → Tx (Unit {0})
  unfolding run_row
  insert_run_row t =
      let r = run_row c t in
      write λ db. elim (Sql.insert (λ s. str_eq s.run_id r.run_id) r db.runs) [
        | ok rows ↦ ok (record db { runs = rows })
        | err e ↦ err e
      ]
