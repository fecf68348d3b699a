-- ===== src/Node/Cli/Machine.antt =====
-- What the runtime does to `CliEngine`, a step at a time, and runs of steps.
use stackhour.Prelude.{ℕ, zero, suc, ℤ, String, Bool, Option, none, some, List, [], ◌∷◌}
use stackhour.Domain.Ids.{CommandId}
use stackhour.Domain.Protocol.{NodeWork}
use stackhour.Node.Process.{RunResult}
use stackhour.Node.Cli.State.{CliEngineConfig, Task, Engine, remove}
use stackhour.Node.Cli.Dispatch.{dispatch, cancel}
use stackhour.Node.Cli.Tasks.{Fresh, run_task}

-- the task at a place, and the others
unfoldable pub take_task : ℕ → List Task → Option (Task × List Task)
take_task index [] = none
take_task zero (task ∷ tasks) = some (task, tasks)
take_task (suc index) (task ∷ tasks) = elim (take_task index tasks) [
  | none ↦ none
  | some (found, rest) ↦ some (found, task ∷ rest)
]

-- what the runtime does next: a command comes, a process ends, or a task runs on
pub data Operation : Type 0 where
  dispatched : CliEngineConfig → (spawns : Bool) → CommandId → NodeWork → Operation
  cancelled : CommandId → Operation
  exited : (job : ℕ) → Operation
  ran : Fresh → (index : ℕ) → Option RunResult → Operation

-- `number` is the decimal text of an exit code
module _ (number : ℤ → String) where
  abbrev pub run_found : Fresh → Option RunResult → Option (Task × List Task) → Engine → Engine
  run_found fresh result none e = e
  run_found fresh result (some (task, rest)) e =
      run_task number fresh result task (record e { tasks = rest })

  unfoldable pub operate : Operation → Engine → Engine
  unfolding dispatch cancel run_task take_task
  operate (dispatched config spawns command_id work) e = dispatch config spawns command_id work e
  operate (cancelled command_id) e = cancel command_id e
  operate (exited job) e = record e { live = remove job e.live }
  operate (ran fresh index result) e = run_found fresh result (take_task index e.tasks) e

  unfoldable pub operations : List Operation → Engine → Engine
  unfolding operate
  operations [] e = e
  operations (o ∷ os) e = operations os (operate o e)
