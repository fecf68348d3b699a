-- ===== src/Node/Cli/Once.antt =====
-- A command that comes again starts nothing again.
use mathlib.Core.Path.{subst}
use stackhour.Prelude.{
  ℕ, ◌+◌, ◌≤◌, ℤ, String, ◌≡◌, refl, sym, ap, Bool, true, false, Option, none, some, List, [], ◌∷◌,
  ◌==◌, if◌then◌else◌, arith, Bool-cases, Option-cases, inl, inr,
}
use stackhour.Domain.Ids.{TaskId, RunId, CommandId}
use stackhour.Domain.Protocol.{NodeWork, start_run, send_prompt, interrupt_run, update}
use stackhour.Hub.Table
use stackhour.Core.Engine.{EngineDef}
use stackhour.Node.Process.{RunResult, RunRequest}
use stackhour.Node.Outbox.{OutboxState}
use stackhour.Node.Cli.State.{
  CliEngineConfig, RunSpec, Process, Task, acknowledge, refuse, watch, Engine, same_id, has, remove,
  stop_run, idle,
}
use stackhour.Node.Cli.Dispatch.{
  dispatch, cancel, work_on, start_prompt, definition, spawn_engine, run_request,
}
use stackhour.Node.Cli.Tasks.{Fresh, run_task, finish}
use stackhour.Node.Cli.Machine.{
  Operation, dispatched, cancelled, exited, ran, take_task, run_found, operations,
}

-- the processes and the seen commands
abbrev pub Started : Type 0
Started = List Process × List CommandId

abbrev pub started : Engine → Started
started e = (e.processes, e.state.seen)

pub started-stop_run : (run : RunId) (e : Engine) → started (stop_run run e) ≡ started e
unfolding stop_run
started-stop_run run e = ground arith

pub started-cancel : (k : CommandId) (e : Engine) → started (cancel k e) ≡ started e
unfolding cancel
started-cancel k e = elim (Option-cases (Table.get same_id k e.state.command_runs)) [
  | inl missing ↦ rw (missing, cancel) refl
  | inr (run, found) ↦ rw (found, cancel) (started-stop_run run e)
]

module _ (number : ℤ → String) where
  started-finish :
      (f : Fresh) (k : CommandId) (run : RunId) (spec : RunSpec) (result : Option RunResult)
      (e : Engine)
      → started (finish number f k run spec result e) ≡ started e
  unfolding finish
  started-finish f k run spec none e = ground arith
  started-finish f k run spec (some result) e = ground arith

  pub started-run_task :
      (f : Fresh) (result : Option RunResult) (t : Task) (e : Engine)
      → started (run_task number f result t e) ≡ started e
  unfolding run_task
  started-run_task f result (acknowledge k) e = refl
  started-run_task f result (refuse k t run error) e = refl
  started-run_task f result (watch false k run spec) e = refl
  started-run_task f result (watch true k run spec) e = started-finish f k run spec result e

  pub started-ran :
      (f : Fresh) (result : Option RunResult) (found : Option (Task × List Task)) (e : Engine)
      → started (run_found number f result found e) ≡ started e
  started-ran f result none e = refl
  started-ran f result (some (t, rest)) e = started-run_task f result t (record e { tasks = rest })

module _ (config : CliEngineConfig) (spawns : Bool) (k : CommandId) where
  -- the processes that start, all for the command
  data Starts (ps : List Process) : List Process → Type 0 where
    nothing : Starts ps ps
    one_more : (p : Process) → p.command_id ≡ k → Starts ps (p ∷ ps)

  spawn-Starts :
      (def : EngineDef) (q : RunRequest) (e : Engine)
      → Starts e.processes (spawn_engine spawns k def q e).processes
        × ((spawn_engine spawns k def q e).state.seen ≡ e.state.seen)
  unfolding spawn_engine
  spawn-Starts def q e = elim (Bool-cases spawns) [
    | inl h ↦ rw h (one_more _ refl, refl)
    | inr h ↦ rw h (nothing, refl)
  ]

  prompt-Starts :
      (t : TaskId) (run : RunId) (text : String) (spec : RunSpec) (def : Option EngineDef)
      (e : Engine)
      → Starts e.processes (start_prompt config spawns k t run spec text def e).processes
        × ((start_prompt config spawns k t run spec text def e).state.seen ≡ e.state.seen)
  prompt-Starts t run text spec none e = (nothing, refl)
  prompt-Starts t run text spec (some def) e =
      spawn-Starts def (run_request config spec (Table.get same_id run e.state.sessions) text) e

  work_on-Starts :
      (work : NodeWork) (e : Engine)
      → Starts e.processes (work_on config spawns k work e).processes
        × ((work_on config spawns k work e).state.seen ≡ e.state.seen)
  unfolding work_on
  work_on-Starts (start_run run t spec) e = (nothing, refl)
  work_on-Starts (interrupt_run run) e =
      let same = started-stop_run run e in
      (rw (ap (λ (s : Started). s.0) same) nothing, ap (λ (s : Started). s.1) same)
  work_on-Starts (update version) e = (nothing, refl)
  work_on-Starts (send_prompt t run text id) e =
      elim (Option-cases (Table.get same_id run e.state.runs)) [
        | inl missing ↦ rw missing (nothing, refl)
        | inr (spec, found) ↦ rw found (prompt-Starts t run text spec (definition spec.engine) e)
      ]

  pub seen-dispatch :
      (work : NodeWork) (e : Engine)
      → (dispatch config spawns k work e).state.seen
        ≡ (if has k e.state.seen then e.state.seen else k ∷ e.state.seen)
  unfolding dispatch
  seen-dispatch work e = elim (Bool-cases (has k e.state.seen)) [
    | inl h ↦ rw h refl
    | inr h ↦
        rw h
          (work_on-Starts work (record e { state = record e.state { seen = k ∷ e.state.seen } })).1
  ]

-- the processes that a command has started
abbrev pub starts : CommandId → List Process → ℕ
starts k [] = 0
starts k (p ∷ ps) = (if p.command_id == k then 1 else 0) + starts k ps

-- a command starts at most one process, and none before it is seen
abbrev AtMostOne : Started → Type 0
AtMostOne (ps, seen) = (k : CommandId) → starts k ps ≤ (if has k seen then 1 else 0)

Starts-AtMostOne :
    (config : CliEngineConfig) (spawns : Bool) (k : CommandId) (ps qs : List Process)
    (seen : List CommandId)
    → has k seen ≡ false
    → AtMostOne (ps, seen)
    → Starts config spawns k ps qs
    → AtMostOne (qs, k ∷ seen)
unfolding has
Starts-AtMostOne config spawns k ps qs seen fresh h nothing j = ground (arith, h j)
Starts-AtMostOne config spawns k ps qs seen fresh h (one_more p asked) j = ground (arith, h j, h k)

dispatch-AtMostOne :
    (config : CliEngineConfig) (spawns : Bool) (k : CommandId) (work : NodeWork) (e : Engine)
    → AtMostOne (started e)
    → AtMostOne (started (dispatch config spawns k work e))
unfolding dispatch
dispatch-AtMostOne config spawns k work e h = elim (Bool-cases (has k e.state.seen)) [
  | inl again ↦ rw again h
  | inr first ↦
      let e' = record e { state = record e.state { seen = k ∷ e.state.seen } } in
      let (new, seen) = work_on-Starts config spawns k work e' in
      rw first (λ j. rw seen (
        Starts-AtMostOne config spawns k e.processes (work_on config spawns k work e').processes
          e.state.seen first h new j))
]

module _ (number : ℤ → String) where
  operations-AtMostOne :
      (os : List Operation) (e : Engine)
      → AtMostOne (started e)
      → AtMostOne (started (operations number os e))
  unfolding operations
  operations-AtMostOne [] e h = h
  operations-AtMostOne (dispatched config spawns k work ∷ os) e h =
      operations-AtMostOne os (dispatch config spawns k work e)
        (dispatch-AtMostOne config spawns k work e h)
  operations-AtMostOne (cancelled k ∷ os) e h =
      operations-AtMostOne os (cancel k e) (subst AtMostOne (sym (started-cancel k e)) h)
  operations-AtMostOne (exited job ∷ os) e h =
      operations-AtMostOne os (record e { live = remove job e.live }) h
  operations-AtMostOne (ran f i result ∷ os) e h =
      operations-AtMostOne os (run_found number f result (take_task i e.tasks) e)
        (subst AtMostOne (sym (started-ran number f result (take_task i e.tasks) e)) h)

  -- However often the hub delivers a command, and whatever else happens in between, the node starts
  -- at most one process for it.
  pub operations-starts :
      (os : List Operation) (o : OutboxState) (k : CommandId)
      → starts k (operations number os (idle o)).processes ≤ 1
  operations-starts os o k = ground (arith, operations-AtMostOne os (idle o) (λ j. omega arith) k)
