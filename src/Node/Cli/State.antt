-- ===== src/Node/Cli/State.antt =====
-- The state of `CliEngine`, of crates/stackhour-node/src/engine.rs. A spawned task stands in `tasks` and is run a
-- stretch at a time: up to its wait for the process, and from there to its end. A process is known by
-- its number.
use stackhour.Prelude.{
  ℕ, String, Bool, false, Option, none, some, List, [], ◌∷◌, ◌++◌, ◌==◌, ◌||◌, if◌then◌else◌,
}
use stackhour.Domain.Ids.{TaskId, RunId, CommandId}
use stackhour.Domain.AccessPolicy.{AccessPolicy}
use stackhour.Hub.Table
use stackhour.Node.Outbox.{OutboxState}

pub record CliEngineConfig : Type 0 where
  pub claude_bin : Option String
  pub codex_bin : Option String
  pub default_workspace : Option String

pub record RunSpec : Type 0 where
  pub task_id : TaskId
  pub engine : String
  pub model : Option String
  pub reasoning_effort : Option String
  pub system_prompt : Option String
  pub access_policy : AccessPolicy
  pub workspace : Option String

-- a process that was started: its number, the command that asked for it, its program and arguments
pub record Process : Type 0 where
  pub job : ℕ
  pub command_id : CommandId
  pub binary : String
  pub argv : List String
  pub cwd : Option String
  pub prompt : String

pub data Task : Type 0 where
  -- `out.ack(command_id)`
  acknowledge : CommandId → Task
  -- the acknowledgement and the failure of the run
  refuse : CommandId → TaskId → RunId → String → Task
  -- the acknowledgement and the watch over a process; `waiting` says that it waits for the process
  watch : (waiting : Bool) → CommandId → RunId → RunSpec → Task

pub record CliState : Type 0 where
  pub runs : List (RunId × RunSpec)
  pub sessions : List (RunId × String)
  pub jobs : List (RunId × ℕ)
  pub command_runs : List (CommandId × RunId)
  pub seen : List CommandId
  pub interrupted : List RunId

-- `live` has the jobs whose process runs, and `terminated` those that were sent a signal.
pub record Engine : Type 0 where
  pub state : CliState
  pub tasks : List Task
  pub processes : List Process
  pub live : List ℕ
  pub terminated : List ℕ
  pub next_job : ℕ
  pub outbox : OutboxState

abbrev pub same_id : ℕ → ℕ → Bool
same_id a b = a == b

-- `HashSet::contains`, `insert` and `remove`
unfoldable pub has : ℕ → List ℕ → Bool
has a [] = false
has a (x ∷ xs) = (x == a) || has a xs

unfoldable pub remove : ℕ → List ℕ → List ℕ
remove a [] = []
remove a (x ∷ xs) = let rest = remove a xs in if x == a then rest else x ∷ rest

abbrev pub insert : ℕ → List ℕ → List ℕ
insert a xs = if has a xs then xs else a ∷ xs

abbrev pub spawn_task : Task → Engine → Engine
spawn_task task e = record e { tasks = e.tasks ++ task ∷ [] }

-- `job.terminate()`
abbrev pub terminate : ℕ → Engine → Engine
terminate job e = if has job e.live then (record e { terminated = job ∷ e.terminated }) else e

unfoldable pub stop_run : RunId → Engine → Engine
unfolding has
stop_run run_id e = elim (Table.get same_id run_id e.state.jobs) [
  | none ↦ e
  | some job ↦
      terminate job
        (record e { state = record e.state { interrupted = insert run_id e.state.interrupted } })
]

abbrev pub unwrap_or : Option String → String → String
unwrap_or none b = b
unwrap_or (some a) b = a

abbrev pub idle : OutboxState → Engine
idle outbox = record {
  state = record {
    runs = [];
    sessions = [];
    jobs = [];
    command_runs = [];
    seen = [];
    interrupted = [];
  };
  tasks = [];
  processes = [];
  live = [];
  terminated = [];
  next_job = 0;
  outbox = outbox;
}
