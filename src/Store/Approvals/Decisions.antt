-- ===== src/Store/Approvals/Decisions.antt =====
-- `resolve_approval` on a pending and on a decided approval.
use stackhour.Prelude.{◌<◌, String, ◌≡◌, refl, true, false, some, arith, str_eq}
use stackhour.Result.{ok}
use stackhour.Sql
use stackhour.Sql.Laws.{first-update_self}
use stackhour.Domain.Codec.{Codec, IsLawful, year_10000}
use stackhour.Domain.Ids.{ApprovalId, Time}
use stackhour.Domain.Decision
use stackhour.Domain.Decision.{Decision, pending, allowed, denied}
use stackhour.Domain.Entities.{Approval, is_pending, decision_is_pending}
use stackhour.Store.Rows.{ApprovalRow, row_to_approval}
use stackhour.Store.Db.{Db}
use stackhour.Store.Reads.{optional-some, get_approval}
use stackhour.Store.Approvals.{
  find_approval, settle_approval, resolve, resolve_approval, resolved_row,
}

module _ (c : Codec) where
  -- the stored row of an approval that readers find
  abbrev pub Found : ApprovalId → Approval → Db → Type 0
  Found id a db =
      (row : ApprovalRow) × (find_approval (c.uuid_text id) db ≡ some row)
      × (row_to_approval c row ≡ ok a)

  pub get_approval-Found :
      (id : ApprovalId) (db : Db) {a : Approval}
      → get_approval c id db ≡ ok (some a)
      → Found id a db
  unfolding get_approval find_approval
  get_approval-Found id db h = optional-some (row_to_approval c) _ h

  pub Found-get_approval :
      (id : ApprovalId) (db : Db) {a : Approval}
      → Found id a db
      → get_approval c id db ≡ ok (some a)
  unfolding get_approval find_approval
  Found-get_approval id db (row, p, q) = ground arith

  resolved_row-reads :
      (decision : Decision) (actor : String) (now : Time) (row : ApprovalRow) {a : Approval}
      → IsLawful c
      → now < year_10000
      → row_to_approval c row ≡ ok a
      → row_to_approval c (resolved_row c decision actor now row)
        ≡ ok (record a { decision = decision; resolved_by = some actor; resolved_at = some now })
  unfolding row_to_approval
  resolved_row-reads decision actor now row lawful dated h =
      ground (arith, Decision.from_db-as_str decision, lawful.time_round now dated)

  module _ (id : ApprovalId) (decision : Decision) (actor : String) (now : Time) (db : Db)
      {a : Approval} (stored : get_approval c id db ≡ ok (some a))
      (final : decision_is_pending decision ≡ false) where
    -- A resolution of an approval that is resolved already returns it with its first decision,
    -- actor and time, and changes nothing, whatever final decision it asks for.
    pub resolve_approval-settled :
        is_pending a ≡ false → resolve_approval c id decision actor now db ≡ (ok a, db)
    unfolding resolve_approval resolve settle_approval
    resolve_approval-settled done =
        let (row, p, q) = get_approval-Found id db stored in ground arith

    after : Db
    after = record db {
      approvals =
          Sql.update (λ (r : ApprovalRow). str_eq r.approval_id (c.uuid_text id))
            (resolved_row c decision actor now) db.approvals;
    }

    resolves :
        is_pending a ≡ true
        → resolve_approval c id decision actor now db ≡ (
          ok (record a { decision = decision; resolved_by = some actor; resolved_at = some now }),
          after,
        )
    unfolding resolve_approval resolve settle_approval after
    resolves open_still = let (row, p, q) = get_approval-Found id db stored in ground arith

    after-Found :
        IsLawful c
        → now < year_10000
        → Found id
            (record a { decision = decision; resolved_by = some actor; resolved_at = some now })
            after
    unfolding after find_approval
    after-Found lawful dated =
        let (row, p, q) = get_approval-Found id db stored in
        (
          resolved_row c decision actor now row,
          first-update_self (λ (r : ApprovalRow). str_eq r.approval_id (c.uuid_text id))
              (resolved_row c decision actor now) (λ r. refl) db.approvals p,
          resolved_row-reads decision actor now row lawful dated q,
        )

    -- A resolution of a pending approval returns it with the decision, the actor and the time, and
    -- what readers find afterwards is what it returned.
    pub resolve_approval-pending :
        IsLawful c
        → now < year_10000
        → is_pending a ≡ true
        → let a' = record a {
          decision = decision;
          resolved_by = some actor;
          resolved_at = some now;
        } in
          ((resolve_approval c id decision actor now db).0 ≡ ok a')
          × (get_approval c id (resolve_approval c id decision actor now db).1 ≡ ok (some a'))
    resolve_approval-pending lawful dated open_still =
        rw (resolves open_still) (refl, Found-get_approval id after (after-Found lawful dated))
