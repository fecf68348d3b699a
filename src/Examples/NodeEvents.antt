-- ===== src/Examples/NodeEvents.antt =====
-- A node's events: retries and the end of a run.
use stackhour.Prelude.{◌+◌, ◌≡◌, refl, some, List, [], ◌∷◌, false}
use stackhour.Result.{ok}
use stackhour.Domain.EventKind.{run_interrupted}
use stackhour.Domain.Event.{EventDraft}
use stackhour.Domain.TaskStatus
use stackhour.Domain.RunStatus
use stackhour.Store.Db.{Db}
use stackhour.Store.Tables.{head}
use stackhour.Store.Reads.{get_run, get_task}
use stackhour.Store.Append.{append_node_event}
use stackhour.Store.Machine
use stackhour.Store.Machine.{Step, history}
use stackhour.Store.NodeEvents.Retry.{append_node_event-replay}
use stackhour.Store.NodeEvents.Terminal.{append_node_event-whole, after_event}
use stackhour.Store.NodeEvents.Settle.{completes, append_node_event-Settles}
use stackhour.Examples.World.{
  codec, prompt, completion, a_task, a_run, world, finished, finished_lem, second_outcome,
}

abbrev between : List Step
between = Machine.wake_done 6 20 ∷ []

append_node_event-replay_example :
    append_node_event codec 9 20 prompt (history codec between finished)
    ≡ (ok (record second_outcome { created = false }), history codec between finished)
append_node_event-replay_example =
    append_node_event-replay codec 5 20 completion world {o = second_outcome} {db' = finished}
      between 9 prompt finished_lem

append_node_event-whole_example :
    (second_outcome.sequence ≡ head world + 1)
    × (finished ≡ after_event codec 20 completion 5 world)
append_node_event-whole_example =
    append_node_event-whole codec 5 20 completion world {o = second_outcome} {db' = finished}
      finished_lem refl

run_stored : get_run codec 2 world ≡ ok (some a_run)
unfolding get_run stackhour.Sql.first stackhour.Store.Rows.row_to_run stackhour.Store.Rows.run_row
    stackhour.Examples.Unary.unary stackhour.Examples.Unary.strokes
    stackhour.Domain.AccessPolicy.from_db stackhour.Domain.AccessPolicy.as_str RunStatus.from_db
    RunStatus.as_str stackhour.Examples.Unary.count_strokes
run_stored = refl

task_stored : get_task codec 1 world ≡ ok (some a_task)
unfolding get_task stackhour.Sql.first stackhour.Store.Rows.row_to_task
    stackhour.Store.Rows.task_row stackhour.Examples.Unary.unary stackhour.Examples.Unary.strokes
    TaskStatus.from_db TaskStatus.as_str stackhour.Examples.Unary.count_strokes
task_stored = refl

append_node_event-Settles_example :
    (get_run codec 2 finished ≡ ok (some (record a_run { status = RunStatus.completed })))
    × (get_task codec 1 finished ≡ ok (some (record a_task { status = TaskStatus.completed })))
append_node_event-Settles_example =
    append_node_event-Settles codec 5 20 completion world {o = second_outcome} {db' = finished}
      finished_lem refl {run = 2} refl {rs = RunStatus.completed} {ts = TaskStatus.completed}
      {r = a_run} {t = a_task} completes run_stored task_stored

abbrev interruption : EventDraft
interruption = record completion { kind = run_interrupted }

abbrev cut_short : Db
cut_short = (append_node_event codec 5 20 interruption world).1
