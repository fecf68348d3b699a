-- ===== src/Store/Approvals/Forever.antt =====
-- A decided approval under each of the operations of the store.
use stackhour.Prelude.{
  ℕ, ◌+◌, String, ◌≡◌, refl, ap, ◌∙◌, Bool, true, false, Option, none, some, List, [], ◌∷◌, ◌++◌,
  arith, str_eq, eq_iff, Option-cases, Bool-cases, inl, inr,
}
use stackhour.Result.{Result, ok, Result-cases}
use stackhour.Sql
use stackhour.Sql.Laws.{first-append, first-update, first_holds}
use stackhour.Domain.Codec.{Codec}
use stackhour.Domain.Ids.{ApprovalId, EventId, CommandId, NodeId, Time}
use stackhour.Domain.Event.{EventDraft}
use stackhour.Domain.Protocol.{HubToNode}
use stackhour.Domain.Decision.{Decision}
use stackhour.Domain.Entities.{Approval, is_pending, decision_is_pending}
use stackhour.Store.Rows.{ApprovalRow, row_to_approval}
use stackhour.Store.Db.{Db, transaction}
use stackhour.Store.Reads.{get_approval}
use stackhour.Store.Tables.{insert_task_row, insert_run_row}
use stackhour.Store.Append.{AppendOutcome, EntityWrite, append_node_event}
use stackhour.Store.Entities.{insert_task, create_task, insert_run, start_run, upsert_node}
use stackhour.Store.Dispatch.{acknowledge_dispatch, acknowledge_dispatch_from}
use stackhour.Store.Wakes.{register_assistant_worker, complete_assistant_wake, defer_assistant_wake}
use stackhour.Store.Settings.{put_setting}
use stackhour.Store.Approvals.{
  find_approval, settle_approval, resolve, resolve_approval, resolved_row, insert_approval_row,
  request_approval,
}
use stackhour.Store.Approvals.Decisions.{Found, get_approval-Found, Found-get_approval}
use stackhour.Store.Machine
use stackhour.Store.Machine.{Step, perform, history}
use stackhour.Domain.RunStatus.{RunStatus}
use stackhour.Domain.TaskStatus.{TaskStatus}
use stackhour.Domain.Ids.{RunId}
use stackhour.Store.Db.{pure, ◌>>◌}
use stackhour.Store.Tables.{head}
use stackhour.Store.Append.{node_event, find_event, terminal_effect}
use stackhour.Store.Log.Change.{transaction_cases}
use stackhour.Store.NodeEvents.Retry.{node_event_fresh, node_event_seen}
use stackhour.Store.NodeEvents.Terminal.{append_fresh_whole, settled}
use stackhour.Store.Atomic.{Ending, refused, replayed, applied, append_command_bundle-Ending}

module _ (c : Codec) where
  Ending-approvals :
      (now : Time) (e : EventId) (k : CommandId) (d : EventDraft) (w : EntityWrite)
      (q : Option (NodeId × HubToNode)) (db : Db) {x : Result AppendOutcome × Db}
      → Ending c now e k d w q db x
      → x.1.approvals ≡ db.approvals
  Ending-approvals now e k d w q db (refused x) = refl
  Ending-approvals now e k d w q db (replayed row i seen good) = refl
  Ending-approvals now e k d w q db (applied fresh) = refl

  settled-approvals :
      (effect : Option (RunStatus × TaskStatus × Bool)) (run : Option RunId) (e : EventId) (n : ℕ)
      (d : EventDraft) (now : Time) (db : Db)
      → (settled c effect run e n d now db).approvals ≡ db.approvals
  settled-approvals none run e n d now db = refl
  settled-approvals (some x) none e n d now db = refl
  settled-approvals (some x) (some run) e n d now db = refl

  node_event-approvals :
      (now : Time) (e : EventId) (d : EventDraft) (db : Db) (r : AppendOutcome × Db)
      → node_event c now e d db ≡ ok r
      → r.1.approvals ≡ db.approvals
  node_event-approvals now e d db r h = elim (Option-cases (find_event (c.uuid_text e) db)) [
    | inl fresh ↦
        let p = rw (node_event_fresh c now e d db fresh) at h in
        ap (λ (x : Db). x.approvals) (append_fresh_whole c now e d db p).1
        ∙ settled-approvals (terminal_effect d.kind) d.run_id e (head db + 1) d now _
    | inr (row, seen) ↦ let p = rw (node_event_seen c now e d db seen) at h in ground arith
  ]

  module _ (id : ApprovalId) (a : Approval) (done : is_pending a ≡ false) where
    same : (db db' : Db) → db'.approvals ≡ db.approvals → Found c id a db → Found c id a db'
    unfolding find_approval
    same db db' e (row, p, q) = (row, rw e p, q)

    append-Found :
        (db db' : Db) (rows : List ApprovalRow)
        → db'.approvals ≡ db.approvals ++ rows
        → Found c id a db
        → Found c id a db'
    unfolding find_approval
    append-Found db db' rows e (row, p, q) = (row, rw (e, first-append) (rw p), q)

    request-Found :
        (row : ApprovalRow) (approval : Approval) (db : Db)
        → Found c id a db
        → Found c id a (transaction (insert_approval_row row >> pure approval) db).1
    unfolding insert_approval_row Sql.insert
    request-Found row approval db h =
        elim (Bool-cases
          (Sql.exists (λ (s : ApprovalRow). str_eq s.approval_id row.approval_id) db.approvals)) [
            | inl there ↦ same db _ (ground arith) h
            | inr fresh ↦ append-Found db _ (row ∷ []) (ground arith) h
          ]

    -- an UPDATE of an approval that is still pending misses this one
    update-Found :
        (k : String) (decision : Decision) (actor : String) (now : Time) (db : Db)
        (row : ApprovalRow) (current : Approval)
        → find_approval k db ≡ some row
        → row_to_approval c row ≡ ok current
        → is_pending current ≡ true
        → Found c id a db
        → Found c id a (record db {
          approvals =
              Sql.update
                (λ (r : ApprovalRow). str_eq r.approval_id k)
                (resolved_row c decision actor now)
                db.approvals;
        })
    unfolding find_approval
    update-Found k decision actor now db row current seen reads open_still (own, p, q) = (
      own,
      ground (
        arith,
        first-update (λ (r : ApprovalRow). str_eq r.approval_id k)
            (λ (r : ApprovalRow). str_eq r.approval_id (c.uuid_text id))
            (resolved_row c decision actor now) (λ r. refl) db.approvals,
        first_holds (λ (r : ApprovalRow). str_eq r.approval_id (c.uuid_text id)) db.approvals p,
        eq_iff own.approval_id k,
        eq_iff own.approval_id (c.uuid_text id),
        done,
      ),
      q,
    )

    resolve-Found :
        (i : ApprovalId) (decision : Decision) (actor : String) (now : Time) (db : Db)
        → Found c id a db
        → (r : Approval × Db) → resolve c i decision actor now db ≡ ok r
        → Found c id a r.1
    unfolding resolve settle_approval
    resolve-Found i decision actor now db h r e =
        elim (Option-cases (find_approval (c.uuid_text i) db)) [
          | inl missing ↦ absurd (ground arith)
          | inr (row, seen) ↦ elim (Result-cases (row_to_approval c row)) [
            | inr (x, bad) ↦ absurd (ground arith)
            | inl (current, reads) ↦ elim (Bool-cases (is_pending current)) [
              | inr settled_before ↦ same db r.1 (ground arith) h
              | inl open_still ↦
                  same
                    (record db {
                      approvals =
                          Sql.update (λ (s : ApprovalRow). str_eq s.approval_id (c.uuid_text i))
                            (resolved_row c decision actor now) db.approvals;
                    })
                    r.1 (ground arith)
                    (update-Found (c.uuid_text i) decision actor now db row current seen reads
                      open_still h)
            ]
          ]
        ]

    resolution-Found :
        (i : ApprovalId) (decision : Decision) (actor : String) (now : Time) (db : Db)
        → Found c id a db
        → Found c id a (resolve_approval c i decision actor now db).1
    unfolding resolve_approval
    resolution-Found i decision actor now db h = elim (Bool-cases (decision_is_pending decision)) [
      | inl p ↦ rw (resolve_approval, p) h
      | inr p ↦
          rw (resolve_approval, p)
            (transaction_cases (Found c id a) (resolve c i decision actor now) db h
              (resolve-Found i decision actor now db h))
    ]

    perform-Found : (s : Step) (db : Db) → Found c id a db → Found c id a (perform c s db)
    unfolding perform append_node_event insert_task create_task insert_run start_run upsert_node
        acknowledge_dispatch acknowledge_dispatch_from register_assistant_worker
        complete_assistant_wake defer_assistant_wake put_setting request_approval insert_task_row
        insert_run_row
    perform-Found (Machine.command now e k d w q) db h =
        same db _
          (Ending-approvals now e k d w q db (append_command_bundle-Ending c now e k d w q db)) h
    perform-Found (Machine.node_event now e d) db h =
        transaction_cases (Found c id a) (node_event c now e d) db h
          (λ r p. same db r.1 (node_event-approvals now e d db r p) h)
    perform-Found (Machine.task_row t) db h = same db _ (ground arith) h
    perform-Found (Machine.new_task i now title) db h = same db _ (ground arith) h
    perform-Found (Machine.run_row r) db h = same db _ (ground arith) h
    perform-Found (Machine.new_run i now t n engine p) db h = same db _ (ground arith) h
    perform-Found (Machine.node_row n) db h = same db _ refl h
    perform-Found (Machine.dispatch_ack now k) db h = same db _ refl h
    perform-Found (Machine.dispatch_ack_from now k n) db h = same db _ refl h
    perform-Found (Machine.worker now channel t) db h = same db _ refl h
    perform-Found (Machine.wake_done now e) db h = same db _ refl h
    perform-Found (Machine.wake_later now e error) db h = same db _ (ground arith) h
    perform-Found (Machine.approval i now r t tool scope options expires) db h =
        request-Found _ _ db h
    perform-Found (Machine.resolution i decision actor now) db h =
        resolution-Found i decision actor now db h
    perform-Found (Machine.setting now key value) db h = same db _ refl h

    history-Found : (ss : List Step) (db : Db) → Found c id a db → Found c id a (history c ss db)
    unfolding history
    history-Found [] db h = h
    history-Found (s ∷ ss) db h = history-Found ss (perform c s db) (perform-Found s db h)

  -- An approval that reads back as decided reads back the same after every sequence of the store's
  -- operations: neither a further resolution, an expiry, nor a request under the same identifier
  -- changes it.
  pub history-decided :
      (id : ApprovalId) (a : Approval) (ss : List Step) (db : Db)
      → get_approval c id db ≡ ok (some a)
      → is_pending a ≡ false
      → get_approval c id (history c ss db) ≡ ok (some a)
  history-decided id a ss db h done =
      Found-get_approval c id (history c ss db)
        (history-Found id a done ss db (get_approval-Found c id db h))
