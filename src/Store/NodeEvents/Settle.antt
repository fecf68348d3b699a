-- ===== src/Store/NodeEvents/Settle.antt =====
-- The run, the task and the wakes after a terminal event.
use stackhour.Prelude.{
  ℕ, ◌+◌, ◌≡◌, refl, ap, ◌∙◌, Bool, true, false, none, some, [], ◌∷◌, ◌++◌, arith, str_eq,
}
use mathlib.Core.Path.{ap₂}
use mathlib.Core.List.{append-nil}
use stackhour.Store.Tables.{head}
use stackhour.Result.{ok}
use stackhour.Sql
use stackhour.Sql.Laws.{first-update_self}
use stackhour.Domain.Codec.{Codec}
use stackhour.Domain.Ids.{EventId, RunId, Time}
use stackhour.Domain.Event.{EventDraft}
use stackhour.Domain.EventKind.{EventKind, run_completed, run_failed, run_interrupted}
use stackhour.Domain.RunStatus
use stackhour.Domain.RunStatus.{RunStatus}
use stackhour.Domain.TaskStatus
use stackhour.Domain.TaskStatus.{TaskStatus}
use stackhour.Domain.Entities.{Run, Task}
use stackhour.Store.Rows.{RunRow, TaskRow, row_to_run, row_to_task, event_row}
use stackhour.Store.Db.{Db}
use stackhour.Store.Reads.{optional-some, get_run, get_task}
use stackhour.Store.Append.{AppendOutcome, append_node_event, terminal_effect, worker_channel}
use stackhour.Store.NodeEvents.Terminal.{
  append_node_event-whole, settled, wakes_for, set_status-row_to_run, set_status-row_to_task,
}

-- the statuses that a terminal event is documented to set
pub data Settles : EventKind → RunStatus → TaskStatus → Type 0 where
  completes : Settles run_completed RunStatus.completed TaskStatus.completed
  fails : Settles run_failed RunStatus.failed TaskStatus.failed
  interrupts : Settles run_interrupted RunStatus.interrupted TaskStatus.interrupted

-- the kinds that make the assistant assess a worker
pub data Wakes : EventKind → Type 0 where
  by_completion : Wakes run_completed
  by_failure : Wakes run_failed

Settles-effect :
    {kind : EventKind} {rs : RunStatus} {ts : TaskStatus}
    → Settles kind rs ts
    → (wakes : Bool) × (terminal_effect kind ≡ some (rs, ts, wakes))
unfolding terminal_effect
Settles-effect completes = (true, refl)
Settles-effect fails = (true, refl)
Settles-effect interrupts = (false, refl)

Wakes-effect :
    {kind : EventKind}
    → Wakes kind
    → (rs : RunStatus) × (ts : TaskStatus) × (terminal_effect kind ≡ some (rs, ts, true))
unfolding terminal_effect
Wakes-effect by_completion = (RunStatus.completed, TaskStatus.completed, refl)
Wakes-effect by_failure = (RunStatus.failed, TaskStatus.failed, refl)

interrupted_effect :
    terminal_effect run_interrupted ≡ some (RunStatus.interrupted, TaskStatus.interrupted, false)
unfolding terminal_effect
interrupted_effect = refl

module _ (c : Codec) where
  get_run-settled :
      (run : RunId) (d : EventDraft) (e : EventId) (n : ℕ) (now : Time) (db : Db) {r : Run}
      (rs : RunStatus) (ts : TaskStatus) (wakes : Bool)
      → get_run c run db ≡ ok (some r)
      → get_run c run (settled c (some (rs, ts, wakes)) (some run) e n d now db)
        ≡ ok (some (record r { status = rs }))
  unfolding get_run
  get_run-settled run d e n now db {r} rs ts wakes h =
      let found = Sql.first (λ (s : RunRow). str_eq s.run_id (c.uuid_text run)) db.runs in
      let (row, p, q) = optional-some (row_to_run c) found h in
      ground (
        arith,
        first-update_self (λ (s : RunRow). str_eq s.run_id (c.uuid_text run))
            (λ (s : RunRow). record s { status = RunStatus.as_str rs }) (λ s. refl) db.runs p,
        set_status-row_to_run c rs row q,
      )

  get_task-settled :
      (run : RunId) (d : EventDraft) (e : EventId) (n : ℕ) (now : Time) (db : Db) {t : Task}
      (rs : RunStatus) (ts : TaskStatus) (wakes : Bool)
      → get_task c d.task_id db ≡ ok (some t)
      → get_task c d.task_id (settled c (some (rs, ts, wakes)) (some run) e n d now db)
        ≡ ok (some (record t { status = ts }))
  unfolding get_task
  get_task-settled run d e n now db {t} rs ts wakes h =
      let found = Sql.first (λ (s : TaskRow). str_eq s.task_id (c.uuid_text d.task_id)) db.tasks in
      let (row, p, q) = optional-some (row_to_task c) found h in
      ground (
        arith,
        first-update_self (λ (s : TaskRow). str_eq s.task_id (c.uuid_text d.task_id))
            (λ (s : TaskRow). record s { status = TaskStatus.as_str ts }) (λ s. refl) db.tasks p,
        set_status-row_to_task c ts row q,
      )

  module _ (now : Time) (e : EventId) (d : EventDraft) (db : Db) {o : AppendOutcome} {db' : Db}
      (delivered : append_node_event c now e d db ≡ (ok o, db')) (new : o.created ≡ true)
      {run : RunId} (of_run : d.run_id ≡ some run) where
    logged : Db
    logged = record db { events = db.events ++ event_row c (head db + 1) e none d now ∷ [] }

    after :
        {rs : RunStatus} {ts : TaskStatus} {wakes : Bool}
        → terminal_effect d.kind ≡ some (rs, ts, wakes)
        → db' ≡ settled c (some (rs, ts, wakes)) (some run) e (head db + 1) d now logged
    unfolding logged
    after effect =
        (append_node_event-whole c now e d db delivered new).1
        ∙ ap₂ (λ x y. settled c x y e (head db + 1) d now logged) effect of_run

    -- When a terminal event of a run is first delivered, readers find the run and the task as they
    -- were but for the status, which is the one that the event's kind stands for.
    pub append_node_event-Settles :
        {rs : RunStatus} {ts : TaskStatus} {r : Run} {t : Task}
        → Settles d.kind rs ts
        → get_run c run db ≡ ok (some r)
        → get_task c d.task_id db ≡ ok (some t)
        → (get_run c run db' ≡ ok (some (record r { status = rs })))
          × (get_task c d.task_id db' ≡ ok (some (record t { status = ts })))
    unfolding logged get_run get_task
    append_node_event-Settles {rs} {ts} s hr ht =
        let (wakes, effect) = Settles-effect s in
        rw (after effect) (
          get_run-settled run d e (head db + 1) now logged rs ts wakes hr,
          get_task-settled run d e (head db + 1) now logged rs ts wakes ht,
        )

    -- The first delivery of a run's completion or failure adds one wake, under the event's id and
    -- sequence, to the channel that owns the run's task; it adds none if no channel owns it.
    pub append_node_event-Wakes :
        Wakes d.kind
        → db'.assistant_wakes
          ≡ db.assistant_wakes
            ++ wakes_for c true (worker_channel (c.uuid_text d.task_id) db) e o.sequence d run now
    unfolding logged worker_channel
    append_node_event-Wakes w =
        let (rs, ts, effect) = Wakes-effect w in
        let n = (append_node_event-whole c now e d db delivered new).0 in
        ground (arith, after effect, n)

    -- An interruption adds no wake.
    pub append_node_event-interrupts :
        d.kind ≡ run_interrupted → db'.assistant_wakes ≡ db.assistant_wakes
    unfolding logged
    append_node_event-interrupts w =
        rw (after (ap terminal_effect w ∙ interrupted_effect)) (append-nil db.assistant_wakes)
