-- ===== src/Examples/Commands.antt =====
-- Commands, their retries, and the log.
use stackhour.Prelude.{◌+◌, arith, ◌≡◌, refl, none, some, List, [], ◌∷◌, ◌++◌, pos, true, false}
use stackhour.Result.{ok}
use stackhour.Sql
use stackhour.Domain.Protocol.{HubToNode}
use stackhour.Store.Rows.{EventRow, event_row}
use stackhour.Store.Db.{empty}
use stackhour.Store.Tables.{head}
use stackhour.Store.Append.{
  append_command_bundle, no_entity, task_entity, command_outcome, find_receipt,
}
use stackhour.Store.Reads.{rows_after}
use stackhour.Store.Machine
use stackhour.Store.Machine.{Step, perform, history}
use stackhour.Store.Atomic.{Ending, after_new, append_command_bundle-Ending}
use stackhour.Store.Progress.{append_command_bundle-succeeds}
use stackhour.Store.Idempotent.{append_command_bundle-replay}
use stackhour.Store.Log.Invariant.{IsConsistent, history-IsConsistent, empty-IsConsistent}
use stackhour.Store.Log.Tail.{catch_up}
use stackhour.Examples.World.{
  codec, codec-IsLawful, prompt, completion, a_task, world, steps, dispatched, dispatched_lem,
  first_outcome,
}

abbrev later : List Step
later = Machine.dispatch_ack 4 8 ∷ Machine.node_event 6 9 completion ∷ []

pub world-IsConsistent : IsConsistent world
unfolding event_row
world-IsConsistent = record { gapless = (refl, tt); receipts = refl }

history-IsConsistent_example : IsConsistent (history codec steps empty)
history-IsConsistent_example = history-IsConsistent codec steps {db = empty} empty-IsConsistent

append_command_bundle-replay_example :
    append_command_bundle codec 9 10 8 completion no_entity none (history codec later dispatched)
    ≡ (ok (record first_outcome { created = false }), history codec later dispatched)
append_command_bundle-replay_example =
    append_command_bundle-replay codec codec-IsLawful 3 7 8 prompt (task_entity a_task)
      (some ("laptop", HubToNode.heartbeat)) empty {o = first_outcome} {db' = dispatched} later 9 10
      completion no_entity none dispatched_lem

append_command_bundle-Ending_example :
    Ending codec 3 7 8 prompt (task_entity a_task) (some ("laptop", HubToNode.heartbeat)) empty (
      append_command_bundle codec 3 7 8 prompt
        (task_entity a_task)
        (some ("laptop", HubToNode.heartbeat))
        empty)
append_command_bundle-Ending_example =
    append_command_bundle-Ending codec 3 7 8 prompt (task_entity a_task)
      (some ("laptop", HubToNode.heartbeat)) empty

catch_up_example :
    (new : List EventRow) × ((history codec later world).events ≡ world.events ++ new)
    × (rows_after (pos (head world)) (history codec later world) ≡ new)
catch_up_example = catch_up codec later world world-IsConsistent

append_command_bundle-succeeds_example :
    append_command_bundle codec 3 7 8 prompt no_entity (some ("laptop", HubToNode.heartbeat)) empty
    ≡ (
      ok (record { sequence = head empty + 1; event_id = 7; created = true }),
      after_new codec 3 7 8 prompt no_entity (some ("laptop", HubToNode.heartbeat)) empty,
    )
unfolding find_receipt stackhour.Store.Append.find_event Sql.first Sql.exists head Sql.max_of
append_command_bundle-succeeds_example =
    append_command_bundle-succeeds codec 3 7 8 prompt (some ("laptop", HubToNode.heartbeat)) empty
      refl refl refl (omega arith)
