-- ===== src/Store/Reads.antt =====
-- The queries of crates/stackhour-domain/src/store.rs over the log and over the entities.
use stackhour.Prelude.{
  ◌≡◌, refl, arith, ℕ, String, Option, none, some, List, ℤ, pos, ltb_ℤ, str_eq, text_le, leb,
}
use stackhour.Result.{Result, ok, err}
use stackhour.Sql
use stackhour.Domain.Codec.{Codec}
use stackhour.Domain.Ids.{TaskId, RunId, ApprovalId, NodeId}
use stackhour.Domain.Event.{Event}
use stackhour.Domain.Entities.{Task, Run, Approval, Node}
use stackhour.Store.Rows.{
  EventRow, TaskRow, RunRow, ApprovalRow, NodeRow, row_to_event, row_to_task, row_to_run,
  row_to_approval, row_to_node,
}
use stackhour.Store.Db.{Db}
use stackhour.Store.Tables.{head}

-- `query_row(…, mapper).optional()`
abbrev pub optional {ℓ κ} :
    {R : Type ℓ} {A : Type κ} → (R → Result A) → Option R → Result (Option A)
optional f none = ok none
optional f (some r) = elim (f r) [ ok a ↦ ok (some a) | err e ↦ err e ]

pub optional-some {ℓ κ} :
    {R : Type ℓ} {A : Type κ} (f : R → Result A) (o : Option R) {a : A}
    → optional f o ≡ ok (some a)
    → (row : R) × (o ≡ some row) × (f row ≡ ok a)
optional-some f none h = absurd (ground arith)
optional-some f (some row) h = (row, refl, ground arith)

unfoldable pub head_sequence : Db → Result ℕ
unfolding head
head_sequence db = ok (head db)

-- the rows that `events_after` selects
unfoldable pub rows_after : ℤ → Db → List EventRow
rows_after after db =
    Sql.order_by (λ (r s : EventRow). leb r.sequence s.sequence)
      (Sql.select (λ (r : EventRow). ltb_ℤ after (pos r.sequence)) db.events)

-- the rows of one task's timeline
unfoldable pub task_rows : String → Db → List EventRow
task_rows task_id db = Sql.select (λ (r : EventRow). str_eq r.task_id task_id) db.events

module _ (c : Codec) where
  unfoldable pub events_after : ℤ → Db → Result (List Event)
  unfolding rows_after
  events_after after db = Sql.collect (row_to_event c) (rows_after after db)

  unfoldable pub recent_events : ℕ → Db → Result (List Event)
  recent_events limit db =
      Sql.collect (row_to_event c) (Sql.last_by (λ (r : EventRow). r.sequence) limit db.events)

  unfoldable pub task_events_tail : TaskId → ℕ → Db → Result (List Event)
  unfolding task_rows
  task_events_tail task_id limit db =
      Sql.collect (row_to_event c)
        (Sql.last_by (λ (r : EventRow). r.sequence) limit (task_rows (c.uuid_text task_id) db))

  unfoldable pub get_task : TaskId → Db → Result (Option Task)
  get_task id db =
      optional (row_to_task c)
        (Sql.first (λ (r : TaskRow). str_eq r.task_id (c.uuid_text id)) db.tasks)

  unfoldable pub get_run : RunId → Db → Result (Option Run)
  get_run id db =
      optional (row_to_run c) (Sql.first (λ (r : RunRow). str_eq r.run_id (c.uuid_text id)) db.runs)

  unfoldable pub get_approval : ApprovalId → Db → Result (Option Approval)
  get_approval id db =
      optional (row_to_approval c)
        (Sql.first (λ (r : ApprovalRow). str_eq r.approval_id (c.uuid_text id)) db.approvals)

  unfoldable pub get_node : NodeId → Db → Result (Option Node)
  get_node id db =
      optional (row_to_node c) (Sql.first (λ (r : NodeRow). str_eq r.node_id id) db.nodes)

  unfoldable pub list_nodes : Db → Result (List Node)
  list_nodes db =
      Sql.collect (row_to_node c)
        (Sql.order_by (λ (r s : NodeRow). text_le r.node_id s.node_id) db.nodes)
