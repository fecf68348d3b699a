-- ===== src/Store/NodeEvents/Terminal.antt =====
-- The tables after `append_node_event`, and what readers of the run and the task then see.
use stackhour.Prelude.{
  ℕ, ◌+◌, String, ◌≡◌, refl, ap, Bool, true, false, Option, none, some, List, [], ◌∷◌, ◌++◌, arith,
  inl, inr, Option-cases, str_eq,
}
use mathlib.Core.List.{append-nil}
use stackhour.Result.{Result, ok, err}
use stackhour.Sql
use stackhour.Domain.Codec.{Codec}
use stackhour.Domain.Ids.{EventId, RunId, Time}
use stackhour.Domain.Event.{EventDraft}
use stackhour.Domain.RunStatus
use stackhour.Domain.RunStatus.{RunStatus}
use stackhour.Domain.TaskStatus
use stackhour.Domain.TaskStatus.{TaskStatus}
use stackhour.Domain.Entities.{Run, Task}
use stackhour.Store.Rows.{RunRow, TaskRow, WakeRow, event_row, row_to_run, row_to_task}
use stackhour.Store.Db.{Db, settle}
use stackhour.Store.Tables.{head, next_sequence, insert_event}
use stackhour.Store.Append.{
  AppendOutcome, append_node_event, find_event, append_fresh_node_event,
  apply_terminal_lifecycle_and_wake, terminal_effect, terminal, wake_assistant, wake_row,
  worker_channel, insert_wake_row, set_run_status, set_task_status,
}
use stackhour.Store.Log.Effect.{>>=-eq-ok}
use stackhour.Store.NodeEvents.Retry.{node_event_fresh, node_event_seen}

abbrev runs_with : String → RunStatus → List RunRow → List RunRow
runs_with run_id status =
    Sql.update (λ (r : RunRow). str_eq r.run_id run_id)
      (λ (r : RunRow). record r { status = RunStatus.as_str status })

abbrev tasks_with : String → TaskStatus → List TaskRow → List TaskRow
tasks_with task_id status =
    Sql.update (λ (r : TaskRow). str_eq r.task_id task_id)
      (λ (r : TaskRow). record r { status = TaskStatus.as_str status })

module _ (c : Codec) where
  -- the wakes that a terminal event adds, given its worker's channel
  abbrev pub wakes_for :
      Bool → Option String → EventId → ℕ → EventDraft → RunId → Time → List WakeRow
  wakes_for false channel e n d run now = []
  wakes_for true none e n d run now = []
  wakes_for true (some channel) e n d run now = wake_row c e n d run now channel ∷ []

  -- the tables after the lifecycle of an event
  abbrev pub settled :
      Option (RunStatus × TaskStatus × Bool)
      → Option RunId
      → EventId
      → ℕ
      → EventDraft
      → Time
      → Db
      → Db
  settled none run e n d now db = db
  settled (some effect) none e n d now db = db
  settled (some (run_status, task_status, wakes)) (some run) e n d now db = record db {
    runs = runs_with (c.uuid_text run) run_status db.runs;
    tasks = tasks_with (c.uuid_text d.task_id) task_status db.tasks;
    assistant_wakes =
        db.assistant_wakes
        ++ wakes_for wakes (worker_channel (c.uuid_text d.task_id) db) e n d run now;
  }

  abbrev pub after_event : EventId → EventDraft → Time → Db → Db
  after_event e d now db =
      settled (terminal_effect d.kind) d.run_id e (head db + 1) d now
        (record db { events = db.events ++ event_row c (head db + 1) e none d now ∷ [] })

  wake_whole :
      (wakes : Bool) (e : EventId) (n : ℕ) (d : EventDraft) (run : RunId) (now : Time) (db : Db)
      {u : Unit {0}} {db' : Db}
      → wake_assistant c wakes e n d run now db ≡ ok (u, db')
      → db' ≡ record db {
        assistant_wakes =
            db.assistant_wakes
            ++ wakes_for wakes (worker_channel (c.uuid_text d.task_id) db) e n d run now;
      }
  unfolding wake_assistant insert_wake_row Sql.insert
  wake_whole false e n d run now db h = rw append-nil (ground arith)
  wake_whole true e n d run now db h = ground (arith, append-nil db.assistant_wakes)

  terminal_whole :
      (effect : Option (RunStatus × TaskStatus × Bool)) (run : Option RunId) (e : EventId) (n : ℕ)
      (d : EventDraft) (now : Time) (db : Db) {u : Unit {0}} {db' : Db}
      → terminal c effect run e n d now db ≡ ok (u, db')
      → db' ≡ settled effect run e n d now db
  unfolding set_run_status set_task_status worker_channel
  terminal_whole none run e n d now db h = ground arith
  terminal_whole (some effect) none e n d now db h = ground arith
  terminal_whole (some (rs, ts, wakes)) (some run) e n d now db h =
      wake_whole wakes e n d run now _ h

  pub append_fresh_whole :
      (now : Time) (e : EventId) (d : EventDraft) (db : Db) {o : AppendOutcome} {db' : Db}
      → append_fresh_node_event c now e d db ≡ ok (o, db')
      → (o ≡ record { sequence = head db + 1; event_id = e; created = true })
        × (db' ≡ after_event e d now db)
  unfolding append_fresh_node_event next_sequence insert_event Sql.insert
      apply_terminal_lifecycle_and_wake
  append_fresh_whole now e d db h =
      let (s₁, p₁, h₁) = >>=-eq-ok next_sequence _ db h in
      let (s₂, p₂, h₂) = >>=-eq-ok (insert_event c s₁.0 e none d now) _ s₁.1 h₁ in
      let (s₃, p₃, h₃) = >>=-eq-ok (apply_terminal_lifecycle_and_wake c e s₁.0 d now) _ s₂.1 h₂ in
      ground (arith, terminal_whole (terminal_effect d.kind) d.run_id e s₁.0 d now s₂.1 p₃)

  module _ (now : Time) (e : EventId) (d : EventDraft) (db : Db) where
    fresh_whole :
        {o : AppendOutcome} {db' : Db} (x : Result (AppendOutcome × Db))
        → append_fresh_node_event c now e d db ≡ x
        → settle db x ≡ (ok o, db')
        → (o.sequence ≡ head db + 1) × (db' ≡ after_event e d now db)
    fresh_whole (err y) p h = absurd (cc (ap (λ (r : Result AppendOutcome × Db). r.0) h))
    fresh_whole (ok (a, b)) p h = ground (arith, append_fresh_whole now e d db p)

    -- A delivery that created an event took the next sequence, added the event's row, and did to
    -- runs, tasks and wakes what the event's kind says, and nothing else.
    pub append_node_event-whole :
        {o : AppendOutcome} {db' : Db}
        → append_node_event c now e d db ≡ (ok o, db')
        → o.created ≡ true
        → (o.sequence ≡ head db + 1) × (db' ≡ after_event e d now db)
    unfolding append_node_event
    append_node_event-whole h new = elim (Option-cases (find_event (c.uuid_text e) db)) [
      | inl none_seen ↦
          fresh_whole (append_fresh_node_event c now e d db) refl
            (rw (node_event_fresh c now e d db none_seen) at h)
      | inr (r, seen) ↦
          let h' = rw (node_event_seen c now e d db seen) at h in absurd (ground arith)
    ]

  pub set_status-row_to_run :
      (status : RunStatus) (row : RunRow) {r : Run}
      → row_to_run c row ≡ ok r
      → row_to_run c (record row { status = RunStatus.as_str status })
        ≡ ok (record r { status = status })
  unfolding row_to_run
  set_status-row_to_run status row h = ground (arith, RunStatus.from_db-as_str status)

  pub set_status-row_to_task :
      (status : TaskStatus) (row : TaskRow) {t : Task}
      → row_to_task c row ≡ ok t
      → row_to_task c (record row { status = TaskStatus.as_str status })
        ≡ ok (record t { status = status })
  unfolding row_to_task
  set_status-row_to_task status row h = ground (arith, TaskStatus.from_db-as_str status)
