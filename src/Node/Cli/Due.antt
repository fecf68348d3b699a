-- ===== src/Node/Cli/Due.antt =====
-- How each step changes what is due to a run: the outcomes that are there and those that are still
-- owed.
use stackhour.Prelude.{
  ℕ, zero, suc, ◌+◌, ℤ, String, ◌≡◌, refl, ap, ◌∙◌, Bool, true, false, Option, none, some, List, [],
  ◌∷◌, ◌++◌, ◌==◌, ◌&&◌, if◌then◌else◌, arith, Bool-cases, Option-cases, inl, inr,
}
use stackhour.Domain.Ids.{TaskId, RunId, EventId, CommandId}
use stackhour.Domain.EventKind.{
  EventKind, task_created, run_started, run_interrupted, run_completed, run_failed, message_user,
  message_assistant_delta, message_assistant_completed, approval_requested, approval_resolved,
  node_connected, node_disconnected,
}
use stackhour.Domain.Event.{EventDraft, new, with_run, with_payload}
use stackhour.Domain.Json.{Value}
use stackhour.Domain.Protocol.{
  NodeToHub, node_event, command_ack, heartbeat, NodeWork, start_run, send_prompt, interrupt_run,
  update,
}
use stackhour.Hub.Table
use stackhour.Core.Engine.{EngineDef}
use stackhour.Node.Process.{RunResult, RunRequest}
use stackhour.Node.Outbox.{emit, emit_draft}
use stackhour.Node.Outbox.Pending.{emit_draft-pending, ack-pending}
use stackhour.Node.Cli.State.{
  CliEngineConfig, RunSpec, Task, acknowledge, refuse, watch, Engine, same_id, has, spawn_task,
  stop_run,
}
use stackhour.Node.Cli.Dispatch.{
  dispatch, cancel, work_on, start_prompt, definition, spawn_engine, remember_job, run_request,
}
use stackhour.Node.Cli.Tasks.{
  Fresh, run_task, finish, report, told, acked, succeeded, answered, clear,
}
use stackhour.Node.Cli.Machine.{take_task, run_found}

abbrev pub one : Bool → ℕ
one true = 1
one false = 0

-- the kinds that end a run
abbrev pub ends : EventKind → Bool
ends run_interrupted = true
ends run_completed = true
ends run_failed = true
ends task_created = false
ends run_started = false
ends message_user = false
ends message_assistant_delta = false
ends message_assistant_completed = false
ends approval_requested = false
ends approval_resolved = false
ends node_connected = false
ends node_disconnected = false

abbrev pub is_run : RunId → Option RunId → Bool
is_run r none = false
is_run r (some run_id) = run_id == r

abbrev pub is_outcome : RunId → NodeToHub → Bool
is_outcome r (node_event _ draft) = ends draft.kind && is_run r draft.run_id
is_outcome r (command_ack _) = false
is_outcome r heartbeat = false

-- the outcomes of a run among the pending events
abbrev pub outcomes : RunId → List (EventId × NodeToHub) → ℕ
outcomes r [] = 0
outcomes r ((_, message) ∷ rest) = one (is_outcome r message) + outcomes r rest

-- the tasks that will end with an outcome of the run
abbrev pub owes : RunId → Task → ℕ
owes r (acknowledge _) = 0
owes r (refuse _ _ run_id _) = one (run_id == r)
owes r (watch _ _ run_id _) = one (run_id == r)

abbrev pub owed : RunId → List Task → ℕ
owed r [] = 0
owed r (task ∷ tasks) = owes r task + owed r tasks

abbrev pub asks : RunId → NodeWork → ℕ
asks r (send_prompt _ run_id _ _) = one (run_id == r)
asks r (start_run _ _ _) = 0
asks r (interrupt_run _) = 0
asks r (update _) = 0

-- the outcomes that are there and those that are still owed
abbrev pub due : RunId → Engine → ℕ
due r e = outcomes r e.outbox.pending_events + owed r e.tasks

outcomes-append :
    (r : RunId) (xs ys : List (EventId × NodeToHub))
    → outcomes r (xs ++ ys) ≡ outcomes r xs + outcomes r ys
outcomes-append r [] ys = omega arith
outcomes-append r ((_, m) ∷ xs) ys = omega (arith, outcomes-append r xs ys)

owed-append : (r : RunId) (xs ys : List Task) → owed r (xs ++ ys) ≡ owed r xs + owed r ys
owed-append r [] ys = omega arith
owed-append r (x ∷ xs) ys = omega (arith, owed-append r xs ys)

due-spawn : (r : RunId) (t : Task) (e : Engine) → due r (spawn_task t e) ≡ due r e + owes r t
due-spawn r t e = omega (arith, owed-append r e.tasks (t ∷ []))

due-acked : (r : RunId) (k : CommandId) (e : Engine) → due r (acked k e) ≡ due r e
due-acked r k e = rw (ack-pending k e.outbox) refl

due-emit_draft :
    (r : RunId) (i : EventId) (d : EventDraft) (e : Engine)
    → due r (record e { outbox = emit_draft i d e.outbox })
      ≡ due r e + one (ends d.kind && is_run r d.run_id)
due-emit_draft r i d e =
    rw (emit_draft-pending i d e.outbox)
      (omega (arith, outcomes-append r e.outbox.pending_events ((i, node_event i d) ∷ [])))

due-told :
    (r : RunId) (f : Fresh) (i : EventId) (kind : EventKind) (t : TaskId) (run : RunId) (v : Value)
    (e : Engine)
    → due r (told f i kind t run v e) ≡ due r e + one (ends kind && (run == r))
unfolding emit with_payload with_run new
due-told r f i kind t run v e = due-emit_draft r i _ e

no_more : (n : ℕ) → n + 0 ≡ n
no_more n = omega arith

due-answered :
    (r : RunId) (f : Fresh) (run : RunId) (spec : RunSpec) (result : RunResult) (e : Engine)
    → due r (answered f run spec result e) ≡ due r e
unfolding with_payload with_run new
due-answered r f run spec result e = due-emit_draft r f.first _ e ∙ no_more (due r e)

module _ (number : ℤ → String) where
  due-report :
      (r : RunId) (f : Fresh) (run : RunId) (spec : RunSpec) (result : Option RunResult)
      (e : Engine)
      → due r (report number f run spec result e) ≡ due r e + one (run == r)
  due-report r f run spec none e = due-told r f f.first run_failed spec.task_id run _ e
  due-report r f run spec (some result) e = elim (Bool-cases (succeeded result)) [
    | inl h ↦ rw h (
        due-told r f f.second run_completed spec.task_id run _ (answered f run spec result e)
        ∙ ap (λ (n : ℕ). n + one (run == r)) (due-answered r f run spec result e))
    | inr h ↦ rw h (due-told r f f.first run_failed spec.task_id run _ e)
  ]

  due-finish :
      (r : RunId) (f : Fresh) (k : CommandId) (run : RunId) (spec : RunSpec)
      (result : Option RunResult) (e : Engine)
      → due r (finish number f k run spec result e) ≡ due r e + one (run == r)
  unfolding finish
  due-finish r f k run spec result e = elim (Bool-cases (has run e.state.interrupted)) [
    | inl h ↦ rw h (due-told r f f.first run_interrupted spec.task_id run _ e)
    | inr h ↦
        rw h (due-report r f run spec result (record e { state = clear k run result e.state }))
  ]

  due-run_task :
      (r : RunId) (f : Fresh) (result : Option RunResult) (t : Task) (e : Engine)
      → due r (run_task number f result t e) ≡ due r e + owes r t
  unfolding run_task
  due-run_task r f result (acknowledge k) e = due-acked r k e ∙ omega arith
  due-run_task r f result (refuse k t run error) e =
      due-told r f f.first run_failed t run _ (acked k e)
      ∙ ap (λ (n : ℕ). n + one (run == r)) (due-acked r k e)
  due-run_task r f result (watch false k run spec) e =
      due-spawn r (watch true k run spec) (acked k e)
      ∙ ap (λ (n : ℕ). n + one (run == r)) (due-acked r k e)
  due-run_task r f result (watch true k run spec) e = due-finish r f k run spec result e

  take_task-owed :
      (r : RunId) (i : ℕ) (ts : List Task) (t : Task) (rest : List Task)
      → take_task i ts ≡ some (t, rest)
      → owed r ts ≡ owes r t + owed r rest
  unfolding take_task
  take_task-owed r i [] t rest h = absurd (cc h)
  take_task-owed r zero (x ∷ xs) t rest h = ground arith
  take_task-owed r (suc i) (x ∷ xs) t rest h = elim (Option-cases (take_task i xs)) [
    | inl missing ↦ absurd (cc (rw missing at h))
    | inr ((t', rest'), found) ↦ ground (arith, take_task-owed r i xs t' rest' found)
  ]

  pub due-ran :
      (r : RunId) (f : Fresh) (i : ℕ) (result : Option RunResult) (e : Engine)
      → due r (run_found number f result (take_task i e.tasks) e) ≡ due r e
  due-ran r f i result e = elim (Option-cases (take_task i e.tasks)) [
    | inl missing ↦ rw missing refl
    | inr ((t, rest), found) ↦ rw found (
        due-run_task r f result t (record e { tasks = rest })
        ∙ omega (arith, take_task-owed r i e.tasks t rest found))
  ]

due-stop_run : (r run : RunId) (e : Engine) → due r (stop_run run e) ≡ due r e
unfolding stop_run
due-stop_run r run e = ground arith

pub due-cancel : (r : RunId) (k : CommandId) (e : Engine) → due r (cancel k e) ≡ due r e
unfolding cancel
due-cancel r k e = elim (Option-cases (Table.get same_id k e.state.command_runs)) [
  | inl missing ↦ rw (missing, cancel) refl
  | inr (run, found) ↦ rw (found, cancel) (due-stop_run r run e)
]

module _ (config : CliEngineConfig) (spawns : Bool) (r : RunId) where
  due-spawn_engine :
      (k : CommandId) (def : EngineDef) (q : RunRequest) (e : Engine)
      → due r (spawn_engine spawns k def q e) ≡ due r e
  unfolding spawn_engine
  due-spawn_engine k def q e = elim (Bool-cases spawns) [ inl h ↦ rw h refl | inr h ↦ rw h refl ]

  due-start_prompt :
      (k : CommandId) (t : TaskId) (run : RunId) (spec : RunSpec) (text : String)
      (def : Option EngineDef) (e : Engine)
      → due r (start_prompt config spawns k t run spec text def e) ≡ due r e + one (run == r)
  due-start_prompt k t run spec text none e = due-spawn r (refuse k t run _) e
  due-start_prompt k t run spec text (some def) e =
      let q = run_request config spec (Table.get same_id run e.state.sessions) text in
      due-spawn r (watch false k run spec)
        (remember_job run k e.next_job (spawn_engine spawns k def q e))
      ∙ ap (λ (n : ℕ). n + one (run == r)) (due-spawn_engine k def q e)

  due-work_on :
      (k : CommandId) (work : NodeWork) (e : Engine)
      → due r (work_on config spawns k work e) ≡ due r e + asks r work
  unfolding work_on
  due-work_on k (start_run run t spec) e = due-spawn r (acknowledge k) e
  due-work_on k (interrupt_run run) e =
      due-spawn r (acknowledge k) (stop_run run e) ∙ ap (λ (n : ℕ). n + 0) (due-stop_run r run e)
  due-work_on k (update version) e = due-spawn r (acknowledge k) e
  due-work_on k (send_prompt t run text id) e =
      elim (Option-cases (Table.get same_id run e.state.runs)) [
        | inl missing ↦ rw missing (due-spawn r (refuse k t run _) e)
        | inr (spec, found) ↦
            rw found (due-start_prompt k t run spec text (definition spec.engine) e)
      ]

abbrev seen_too : CommandId → Engine → Engine
seen_too k e = record e { state = record e.state { seen = k ∷ e.state.seen } }

pub due-dispatch :
    (config : CliEngineConfig) (spawns : Bool) (r : RunId) (k : CommandId) (work : NodeWork)
    (e : Engine)
    → due r (dispatch config spawns k work e)
      ≡ due r e + (if has k e.state.seen then 0 else asks r work)
unfolding dispatch
due-dispatch config spawns r k work e = elim (Bool-cases (has k e.state.seen)) [
  | inl h ↦ rw h (due-spawn r (acknowledge k) e)
  | inr h ↦ rw h (due-work_on config spawns r k work (seen_too k e))
]
