-- ===== src/Node/Cli/Interrupts.antt =====
-- Which runs are marked as interrupted.
use mathlib.Core.Path.{subst}
use stackhour.Prelude.{
  ℕ, ℤ, String, ◌≡◌, refl, sym, ap, ◌∙◌, Bool, true, false, Option, none, some, List, [], ◌∷◌, ◌==◌,
  ◌||◌, arith, Bool-cases, Option-cases, inl, inr, is_some, ==_iff,
}
use stackhour.Domain.Ids.{TaskId, RunId, CommandId}
use stackhour.Domain.Protocol.{NodeWork, start_run, send_prompt, interrupt_run, update}
use stackhour.Hub.Table
use stackhour.Core.Engine.{EngineDef}
use stackhour.Node.Process.{RunResult}
use stackhour.Node.Outbox.{OutboxState}
use stackhour.Node.Cli.State.{
  CliEngineConfig, RunSpec, Task, acknowledge, refuse, watch, Engine, same_id, has, remove, insert,
  stop_run, idle,
}
use stackhour.Node.Cli.Dispatch.{dispatch, cancel, work_on, start_prompt, definition, spawn_engine}
use stackhour.Node.Cli.Tasks.{Fresh, run_task, finish}
use stackhour.Node.Cli.Machine.{
  Operation, dispatched, cancelled, exited, ran, take_task, run_found, operations,
}

-- the runs with a job, and those that are marked as interrupted
abbrev pub Marks : Type 0
Marks = List (RunId × ℕ) × List RunId

abbrev pub marks : Engine → Marks
marks e = (e.state.jobs, e.state.interrupted)

abbrev pub has_job : RunId → List (RunId × ℕ) → Bool
has_job r jobs = is_some (Table.get same_id r jobs)

-- a run that is marked has a job
abbrev pub IsMarked : Marks → Type 0
IsMarked (jobs, interrupted) = (r : RunId) → has r interrupted ≡ true → has_job r jobs ≡ true

has_job-remove :
    (r run : RunId) (jobs : List (RunId × ℕ))
    → (run == r) ≡ false
    → has_job r (Table.remove same_id run jobs) ≡ has_job r jobs
unfolding Table.get Table.remove
has_job-remove r run [] h = refl
has_job-remove r run ((i, job) ∷ jobs) h = ground (arith, has_job-remove r run jobs h)

has_job-insert :
    (r run : RunId) (job : ℕ) (jobs : List (RunId × ℕ))
    → has_job r (Table.insert same_id run job jobs) ≡ ((run == r) || has_job r jobs)
unfolding Table.get Table.insert
has_job-insert r run job jobs = elim (Bool-cases (run == r)) [
  | inl same ↦ rw same refl
  | inr other ↦ rw other (has_job-remove r run jobs other)
]

has-remove :
    (r run : ℕ) (xs : List ℕ)
    → has r (remove run xs) ≡ true
    → (has r xs ≡ true) × ((run == r) ≡ false)
unfolding has remove
has-remove r run [] h = absurd (cc h)
has-remove r run (x ∷ xs) h =
    (ground (arith, has-remove r run xs), ground (arith, has-remove r run xs))

IsMarked-insert :
    (run : RunId) (jobs : List (RunId × ℕ)) (xs : List RunId)
    → has_job run jobs ≡ true
    → IsMarked (jobs, xs)
    → IsMarked (jobs, insert run xs)
unfolding has
IsMarked-insert run jobs xs there h r m = elim (Bool-cases (run == r)) [
  | inl same ↦ subst (λ (i : ℕ). has_job i jobs ≡ true) ((==_iff run r).0 same) there
  | inr other ↦ h r (ground arith)
]

stop_run-marks :
    (run : RunId) (e : Engine)
    → marks (stop_run run e) ≡ (elim (Table.get same_id run e.state.jobs) [
      | none ↦ marks e
      | some job ↦ (e.state.jobs, insert run e.state.interrupted)
    ])
unfolding stop_run
stop_run-marks run e = ground arith

stop_run-IsMarked :
    (run : RunId) (e : Engine) → IsMarked (marks e) → IsMarked (marks (stop_run run e))
stop_run-IsMarked run e h =
    subst IsMarked (sym (stop_run-marks run e))
      (elim (Option-cases (Table.get same_id run e.state.jobs)) [
        | inl missing ↦ rw missing h
        | inr (job, found) ↦
            rw found (IsMarked-insert run e.state.jobs e.state.interrupted (ap is_some found) h)
      ])

IsMarked-clear :
    (run : RunId) (jobs : List (RunId × ℕ)) (xs : List RunId)
    → IsMarked (jobs, xs)
    → IsMarked (Table.remove same_id run jobs, remove run xs)
IsMarked-clear run jobs xs h r m =
    let (kept, other) = has-remove r run xs m in has_job-remove r run jobs other ∙ h r kept

IsMarked-job :
    (run : RunId) (job : ℕ) (jobs : List (RunId × ℕ)) (xs : List RunId)
    → IsMarked (jobs, xs)
    → IsMarked (Table.insert same_id run job jobs, xs)
IsMarked-job run job jobs xs h r m = has_job-insert r run job jobs ∙ ground (arith, h r m)

cancel-IsMarked : (k : CommandId) (e : Engine) → IsMarked (marks e) → IsMarked (marks (cancel k e))
unfolding cancel
cancel-IsMarked k e h = elim (Option-cases (Table.get same_id k e.state.command_runs)) [
  | inl missing ↦ rw (missing, cancel) h
  | inr (run, found) ↦ rw (found, cancel) (stop_run-IsMarked run e h)
]

module _ (config : CliEngineConfig) (spawns : Bool) (k : CommandId) where
  start_prompt-IsMarked :
      (t : TaskId) (run : RunId) (text : String) (spec : RunSpec) (def : Option EngineDef)
      (e : Engine)
      → IsMarked (marks e)
      → IsMarked (marks (start_prompt config spawns k t run spec text def e))
  unfolding spawn_engine
  start_prompt-IsMarked t run text spec none e h = h
  start_prompt-IsMarked t run text spec (some def) e h = elim (Bool-cases spawns) [
    | inl b ↦ rw b (IsMarked-job run e.next_job e.state.jobs e.state.interrupted h)
    | inr b ↦ rw b (IsMarked-job run e.next_job e.state.jobs e.state.interrupted h)
  ]

  work_on-IsMarked :
      (work : NodeWork) (e : Engine)
      → IsMarked (marks e)
      → IsMarked (marks (work_on config spawns k work e))
  unfolding work_on
  work_on-IsMarked (start_run run t spec) e h = h
  work_on-IsMarked (interrupt_run run) e h = stop_run-IsMarked run e h
  work_on-IsMarked (update version) e h = h
  work_on-IsMarked (send_prompt t run text id) e h =
      elim (Option-cases (Table.get same_id run e.state.runs)) [
        | inl missing ↦ rw missing h
        | inr (spec, found) ↦
            rw found (start_prompt-IsMarked t run text spec (definition spec.engine) e h)
      ]

  dispatch-IsMarked :
      (work : NodeWork) (e : Engine)
      → IsMarked (marks e)
      → IsMarked (marks (dispatch config spawns k work e))
  unfolding dispatch
  dispatch-IsMarked work e h = elim (Bool-cases (has k e.state.seen)) [
    | inl again ↦ rw again h
    | inr first ↦
        rw first (
          work_on-IsMarked work (record e { state = record e.state { seen = k ∷ e.state.seen } }) h)
  ]

module _ (number : ℤ → String) where
  finish-marks :
      (f : Fresh) (k : CommandId) (run : RunId) (spec : RunSpec) (result : Option RunResult)
      (e : Engine)
      → marks (finish number f k run spec result e)
        ≡ (Table.remove same_id run e.state.jobs, remove run e.state.interrupted)
  unfolding finish
  finish-marks f k run spec none e = ground arith
  finish-marks f k run spec (some result) e = ground arith

  run_task-IsMarked :
      (f : Fresh) (result : Option RunResult) (t : Task) (e : Engine)
      → IsMarked (marks e)
      → IsMarked (marks (run_task number f result t e))
  unfolding run_task
  run_task-IsMarked f result (acknowledge k) e h = h
  run_task-IsMarked f result (refuse k t run error) e h = h
  run_task-IsMarked f result (watch false k run spec) e h = h
  run_task-IsMarked f result (watch true k run spec) e h =
      subst IsMarked (sym (finish-marks f k run spec result e))
        (IsMarked-clear run e.state.jobs e.state.interrupted h)

  run_found-IsMarked :
      (f : Fresh) (result : Option RunResult) (found : Option (Task × List Task)) (e : Engine)
      → IsMarked (marks e)
      → IsMarked (marks (run_found number f result found e))
  run_found-IsMarked f result none e h = h
  run_found-IsMarked f result (some (t, rest)) e h =
      run_task-IsMarked f result t (record e { tasks = rest }) h

  IsMarked-operations :
      (os : List Operation) (e : Engine)
      → IsMarked (marks e)
      → IsMarked (marks (operations number os e))
  unfolding operations
  IsMarked-operations [] e h = h
  IsMarked-operations (dispatched config spawns k work ∷ os) e h =
      IsMarked-operations os (dispatch config spawns k work e)
        (dispatch-IsMarked config spawns k work e h)
  IsMarked-operations (cancelled k ∷ os) e h =
      IsMarked-operations os (cancel k e) (cancel-IsMarked k e h)
  IsMarked-operations (exited job ∷ os) e h =
      IsMarked-operations os (record e { live = remove job e.live }) h
  IsMarked-operations (ran f i result ∷ os) e h =
      IsMarked-operations os (run_found number f result (take_task i e.tasks) e)
        (run_found-IsMarked f result (take_task i e.tasks) e h)

  none_marked : (i : RunId) → has i [] ≡ true → ⊥
  unfolding has
  none_marked i m = cc

  -- At every moment a run that is marked as interrupted has a job.
  pub operations-IsMarked :
      (os : List Operation) (o : OutboxState) (r : RunId)
      → has r (operations number os (idle o)).state.interrupted ≡ true
      → has_job r (operations number os (idle o)).state.jobs ≡ true
  operations-IsMarked os o r = IsMarked-operations os (idle o) (λ i m. absurd (none_marked i m)) r
