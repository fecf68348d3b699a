-- ===== src/Store/Approvals.antt =====
-- Approvals: the durable request and its single resolution, of crates/stackhour-domain/src/store.rs.
pub mod Decisions
pub mod Forever
use stackhour.Prelude.{String, Bool, true, false, Option, none, some, List, str_eq}
use stackhour.Result.{Result, ok, err, resolve_to_pending, unknown_approval}
use stackhour.Sql
use stackhour.Domain.Codec.{Codec}
use stackhour.Domain.Ids.{TaskId, RunId, ApprovalId, Time}
use stackhour.Domain.Decision
use stackhour.Domain.Decision.{Decision}
use stackhour.Domain.Entities.{Approval, is_pending, decision_is_pending}
use stackhour.Store.Rows.{ApprovalRow, approval_row, row_to_approval}
use stackhour.Store.Db.{Db, Tx, pure, lift, write, transaction, ◌>>=◌, ◌>>◌}

unfoldable pub insert_approval_row : ApprovalRow → Tx (Unit {0})
insert_approval_row r = write λ db.
    elim (Sql.insert (λ (s : ApprovalRow). str_eq s.approval_id r.approval_id) r db.approvals) [
      | ok rows ↦ ok (record db { approvals = rows })
      | err e ↦ err e
    ]

unfoldable pub find_approval : String → Db → Option ApprovalRow
find_approval k db = Sql.first (λ (r : ApprovalRow). str_eq r.approval_id k) db.approvals

module _ (c : Codec) where
  -- the UPDATE of `resolve_approval`
  abbrev pub resolved_row : Decision → String → Time → ApprovalRow → ApprovalRow
  resolved_row decision actor now r = record r {
    decision = Decision.as_str decision;
    resolved_by = some actor;
    resolved_at = some (c.time_text now);
  }

  unfoldable pub request_approval :
      ApprovalId
      → Time
      → RunId
      → TaskId
      → String
      → String
      → List String
      → Option Time
      → Db
      → Result Approval × Db
  unfolding insert_approval_row approval_row
  request_approval id now run_id task_id tool_call_id scope options expires_at =
      let approval : Approval = record {
        id = id;
        run_id = run_id;
        task_id = task_id;
        tool_call_id = tool_call_id;
        scope = scope;
        options = options;
        expires_at = expires_at;
        decision = Decision.pending;
        resolved_by = none;
        created_at = now;
        resolved_at = none;
      } in
      transaction (do insert_approval_row (approval_row c approval); pure approval)

  unfoldable pub settle_approval : ApprovalId → Decision → String → Time → Approval → Tx Approval
  unfolding is_pending
  settle_approval approval_id decision actor now current db = elim (is_pending current) [
    | false ↦ ok (current, db)
    | true ↦ ok (
      record current { decision = decision; resolved_by = some actor; resolved_at = some now },
      record db {
        approvals =
            Sql.update (λ (r : ApprovalRow). str_eq r.approval_id (c.uuid_text approval_id))
              (resolved_row decision actor now) db.approvals;
      },
    )
  ]

  unfoldable pub resolve : ApprovalId → Decision → String → Time → Tx Approval
  unfolding find_approval
  resolve approval_id decision actor now db = elim (find_approval (c.uuid_text approval_id) db) [
    | none ↦ err (unknown_approval approval_id)
    | some row ↦ elim (row_to_approval c row) [
      | err e ↦ err e
      | ok current ↦ settle_approval approval_id decision actor now current db
    ]
  ]

  unfoldable pub resolve_approval :
      ApprovalId → Decision → String → Time → Db → Result Approval × Db
  resolve_approval approval_id decision actor now db = elim (decision_is_pending decision) [
    | true ↦ (err resolve_to_pending, db)
    | false ↦ transaction (resolve approval_id decision actor now) db
  ]
