-- ===== src/Store/Ownership.antt =====
-- A stored run under each of the operations of the store.
use stackhour.Prelude.{
  ℕ, ◌+◌, String, ◌≡◌, refl, Bool, Option, none, some, List, [], ◌∷◌, ◌++◌, arith, str_eq,
  Option-cases, Bool-cases, inl, inr,
}
use stackhour.Result.{Result, ok, Result-cases}
use stackhour.Sql
use stackhour.Sql.Laws.{first-append, first-update}
use stackhour.Domain.Codec.{Codec}
use stackhour.Domain.Ids.{ApprovalId, EventId, CommandId, NodeId, Time}
use stackhour.Domain.Event.{EventDraft}
use stackhour.Domain.Protocol.{HubToNode}
use stackhour.Domain.Decision.{Decision}
use stackhour.Domain.Entities.{is_pending, decision_is_pending}
use stackhour.Store.Rows.{row_to_approval}
use stackhour.Store.Db.{Db}
use stackhour.Store.Tables.{insert_task_row, insert_run_row}
use stackhour.Store.Append.{
  AppendOutcome, EntityWrite, no_entity, task_entity, run_entity, append_node_event,
}
use stackhour.Store.Entities.{insert_task, create_task, insert_run, start_run, upsert_node}
use stackhour.Store.Dispatch.{acknowledge_dispatch, acknowledge_dispatch_from}
use stackhour.Store.Wakes.{register_assistant_worker, complete_assistant_wake, defer_assistant_wake}
use stackhour.Store.Settings.{put_setting}
use stackhour.Store.Approvals.{
  find_approval, settle_approval, resolve, resolve_approval, request_approval,
}
use stackhour.Store.Machine
use stackhour.Store.Machine.{Step, perform, history}
use stackhour.Domain.RunStatus.{RunStatus}
use stackhour.Domain.TaskStatus.{TaskStatus}
use stackhour.Domain.Ids.{RunId}
use stackhour.Store.Db.{pure, ◌>>◌}
use stackhour.Store.Tables.{head}
use stackhour.Store.Append.{node_event, find_event, terminal_effect}
use stackhour.Store.Log.Change.{transaction_cases}
use stackhour.Store.NodeEvents.Retry.{node_event_fresh, node_event_seen}
use stackhour.Store.NodeEvents.Terminal.{append_fresh_whole, settled}
use stackhour.Store.Atomic.{Ending, refused, replayed, applied, append_command_bundle-Ending}
use stackhour.Domain.Entities.{Run}
use stackhour.Domain.RunStatus
use stackhour.Store.Rows.{RunRow, row_to_run, run_row}
use stackhour.Store.Reads.{get_run, optional-some}
use stackhour.Store.NodeEvents.Terminal.{set_status-row_to_run}

module _ (c : Codec) (id : RunId) (r : Run) where
  -- the run is stored, with some status
  abbrev pub Kept : List RunRow → Type 0
  Kept rows =
      (row : RunRow) × (Sql.first (λ (s : RunRow). str_eq s.run_id (c.uuid_text id)) rows
        ≡ some row)
      × (status : RunStatus) × (row_to_run c row ≡ ok (record r { status = status }))

  same : (rows rows' : List RunRow) → rows' ≡ rows → Kept rows → Kept rows'
  same rows rows' e h = rw e h

  append-Kept : (rows more : List RunRow) → Kept rows → Kept (rows ++ more)
  append-Kept rows more (row, p, status, q) = (row, rw first-append (rw p), status, q)

  update-Kept :
      (k : String) (next : RunStatus) (rows : List RunRow)
      → Kept rows
      → Kept (
          Sql.update
            (λ (s : RunRow). str_eq s.run_id k)
            (λ (s : RunRow). record s { status = RunStatus.as_str next })
            rows)
  update-Kept k next rows (row, p, status, q) =
      let found =
        first-update (λ (s : RunRow). str_eq s.run_id k)
          (λ (s : RunRow). str_eq s.run_id (c.uuid_text id))
          (λ (s : RunRow). record s { status = RunStatus.as_str next }) (λ s. refl) rows in
      elim (Bool-cases (str_eq row.run_id k)) [
        | inl hit ↦ (
          record row { status = RunStatus.as_str next },
          ground (arith, found),
          next,
          set_status-row_to_run c next row q,
        )
        | inr miss ↦ (row, ground (arith, found), status, q)
      ]

  Ending-Kept :
      (now : Time) (e : EventId) (k : CommandId) (d : EventDraft) (w : EntityWrite)
      (q : Option (NodeId × HubToNode)) (db : Db) {x : Result AppendOutcome × Db}
      → Ending c now e k d w q db x
      → Kept db.runs
      → Kept x.1.runs
  Ending-Kept now e k d w q db (refused x) h = h
  Ending-Kept now e k d w q db (replayed row i seen good) h = h
  Ending-Kept now e k d no_entity q db (applied fresh) h = h
  Ending-Kept now e k d (task_entity t) q db (applied fresh) h = h
  Ending-Kept now e k d (run_entity s) q db (applied fresh) h =
      append-Kept db.runs (run_row c s ∷ []) h

  settled-Kept :
      (effect : Option (RunStatus × TaskStatus × Bool)) (run : Option RunId) (e : EventId) (n : ℕ)
      (d : EventDraft) (now : Time) (db : Db)
      → Kept db.runs
      → Kept (settled c effect run e n d now db).runs
  settled-Kept none run e n d now db h = h
  settled-Kept (some x) none e n d now db h = h
  settled-Kept (some (rs, ts, wakes)) (some run) e n d now db h =
      update-Kept (c.uuid_text run) rs db.runs h

  node_event-Kept :
      (now : Time) (e : EventId) (d : EventDraft) (db : Db) (x : AppendOutcome × Db)
      → node_event c now e d db ≡ ok x
      → Kept db.runs
      → Kept x.1.runs
  node_event-Kept now e d db x h kept = elim (Option-cases (find_event (c.uuid_text e) db)) [
    | inl fresh ↦
        let p = rw (node_event_fresh c now e d db fresh) at h in
        let whole = (append_fresh_whole c now e d db p).1 in
        rw whole (settled-Kept (terminal_effect d.kind) d.run_id e (head db + 1) d now _ kept)
    | inr (row, seen) ↦
        let p = rw (node_event_seen c now e d db seen) at h in
        let whole : x.1 ≡ db = ground arith in rw whole kept
  ]

  insert-Kept :
      (run : Run) (db : Db) (x : Unit {0} × Db)
      → insert_run_row c run db ≡ ok x
      → Kept db.runs
      → Kept x.1.runs
  unfolding insert_run_row Sql.insert
  insert-Kept run db x p h =
      elim (Bool-cases
        (Sql.exists (λ (s : RunRow). str_eq s.run_id (c.uuid_text run.id)) db.runs)) [
          | inl there ↦ absurd (ground arith)
          | inr fresh ↦
              same (db.runs ++ run_row c run ∷ []) _ (ground arith)
                (append-Kept db.runs (run_row c run ∷ []) h)
        ]

  start-Kept :
      (run a : Run) (db : Db) (x : Run × Db)
      → (insert_run_row c run >> pure a) db ≡ ok x
      → Kept db.runs
      → Kept x.1.runs
  start-Kept run a db x p h = elim (Result-cases (insert_run_row c run db)) [
    | inl (y, good) ↦ same y.1.runs _ (ground arith) (insert-Kept run db y good h)
    | inr (e, bad) ↦ absurd (ground arith)
  ]

  resolution-runs :
      (i : ApprovalId) (decision : Decision) (actor : String) (now : Time) (db : Db)
      → (resolve_approval c i decision actor now db).1.runs ≡ db.runs
  unfolding resolve_approval resolve settle_approval
  resolution-runs i decision actor now db = elim (Bool-cases (decision_is_pending decision)) [
    | inl p ↦ ground arith
    | inr p ↦ elim (Option-cases (find_approval (c.uuid_text i) db)) [
      | inl missing ↦ ground arith
      | inr (row, seen) ↦ elim (Result-cases (row_to_approval c row)) [
        | inr (x, bad) ↦ ground arith
        | inl (current, reads) ↦ ground (arith, Bool-cases (is_pending current))
      ]
    ]
  ]

  perform-Kept : (s : Step) (db : Db) → Kept db.runs → Kept (perform c s db).runs
  unfolding perform append_node_event insert_task create_task insert_run start_run upsert_node
      acknowledge_dispatch acknowledge_dispatch_from register_assistant_worker
      complete_assistant_wake defer_assistant_wake put_setting request_approval insert_task_row
      insert_run_row
  perform-Kept (Machine.command now e k d w q) db h =
      Ending-Kept now e k d w q db (append_command_bundle-Ending c now e k d w q db) h
  perform-Kept (Machine.node_event now e d) db h =
      transaction_cases (λ (d : Db). Kept d.runs) (node_event c now e d) db h
        (λ x p. node_event-Kept now e d db x p h)
  perform-Kept (Machine.task_row t) db h = same db.runs _ (ground arith) h
  perform-Kept (Machine.new_task i now title) db h = same db.runs _ (ground arith) h
  perform-Kept (Machine.run_row run) db h =
      transaction_cases (λ (d : Db). Kept d.runs) (insert_run_row c run) db h
        (λ x p. insert-Kept run db x p h)
  perform-Kept (Machine.new_run i now t n engine p) db h =
      let run : Run = record {
        id = i;
        task_id = t;
        node_id = n;
        engine = engine;
        model = none;
        reasoning_effort = none;
        system_prompt = none;
        access_policy = p;
        workspace_path = none;
        status = RunStatus.started;
        started_at = now;
      } in
      transaction_cases (λ (d : Db). Kept d.runs) (insert_run_row c run >> pure run) db h
        (λ x p. start-Kept run run db x p h)
  perform-Kept (Machine.node_row n) db h = h
  perform-Kept (Machine.dispatch_ack now k) db h = h
  perform-Kept (Machine.dispatch_ack_from now k n) db h = h
  perform-Kept (Machine.worker now channel t) db h = h
  perform-Kept (Machine.wake_done now e) db h = h
  perform-Kept (Machine.wake_later now e error) db h = same db.runs _ (ground arith) h
  perform-Kept (Machine.approval i now r t tool scope options expires) db h =
      same db.runs _ (ground arith) h
  perform-Kept (Machine.resolution i decision actor now) db h =
      rw (resolution-runs i decision actor now db) h
  perform-Kept (Machine.setting now key value) db h = h

  history-Kept : (ss : List Step) (db : Db) → Kept db.runs → Kept (history c ss db).runs
  unfolding history
  history-Kept [] db h = h
  history-Kept (s ∷ ss) db h = history-Kept ss (perform c s db) (perform-Kept s db h)

  -- A stored run keeps every field but its status through every sequence of the store's operations:
  -- in particular its task and the node that owns it.
  pub history-run :
      (ss : List Step) (db : Db)
      → get_run c id db ≡ ok (some r)
      → (status : RunStatus) × (get_run c id (history c ss db)
          ≡ ok (some (record r { status = status })))
  unfolding get_run
  history-run ss db h =
      let (row, p, q) = optional-some (row_to_run c) _ h in
      let (row', p', status, q') = history-Kept ss db (row, p, r.status, q) in
      (status, ground arith)
