-- ===== src/Examples/Node.antt =====
-- A node's outbox, its engine and its connection loop.
use stackhour.Prelude.{
  ℕ, ◌+◌, ◌≤◌, ℤ, ◌≡◌, refl, true, false, none, String, List, [], ◌∷◌, ◌++◌, map, inl, inr, arith,
}
use stackhour.Domain.Protocol.{
  start_run, send_prompt, interrupt_run, RunSpec, unauthenticated, accept_welcome, reject_welcome,
  node_event, heartbeat,
}
use stackhour.Domain.AccessPolicy
use stackhour.Hub.NodeLink.{node_message}
use stackhour.Node.Outbox
use stackhour.Node.Outbox.{
  Link, OutboxState, persistent, attach, operations, emitted, acknowledged, linked, framed,
  proceeded, protocol, emit_draft, frames,
}
use stackhour.Node.Outbox.Order.{unacknowledged}
use stackhour.Node.Outbox.Waiting.{turns}
use stackhour.Node.Outbox.Attach.{Delivered, attach-Delivered}
use stackhour.Node.Delivery.{System, here, next, hub_takes}
use stackhour.Node.Delivery.Held.{Held, emit_draft-Held}
use stackhour.Node.Cli.State.{CliEngineConfig, Engine, idle, has}
use stackhour.Node.Cli.Tasks.{Fresh}
use stackhour.Node.Cli.Machine
use stackhour.Node.Cli.Machine.{Operation, dispatched, cancelled, exited, ran}
use stackhour.Node.Cli.Once.{starts, operations-starts}
use stackhour.Node.Cli.Due.{due}
use stackhour.Node.Cli.Outcome.{prompts, operations-due}
use stackhour.Node.Cli.Interrupts.{has_job, operations-IsMarked}
use stackhour.Node.Supervisor.{welcomed, not_dialed, run_loop, connect_once, refused}
use stackhour.Node.Supervisor.Ramp.{Attempt, up_from, run_loop-ramp, run_loop-returns}
use stackhour.Examples.World.{codec, completion, prompt}
use stackhour.Examples.Hub.{hub}

abbrev morning : List Outbox.Operation
morning =
    emitted 9 completion
    ∷ emitted 10 prompt
    ∷ acknowledged 9
    ∷ emitted 11 completion
    ∷ linked 5
    ∷ framed 0 (protocol heartbeat)
    ∷ []

-- the heartbeat and a new event go between the sends of `attach`
abbrev noise : List Outbox.Operation
noise =
    proceeded 0 ∷ emitted 12 prompt ∷ proceeded 1 ∷ proceeded 2 ∷ acknowledged 10 ∷ proceeded 1 ∷ []

attach-Delivered_example :
    let o = attach 0 (operations morning persistent) in
    Delivered (frames (unacknowledged morning)) 0 (operations noise o)
    × (o.pending_events ≡ unacknowledged morning)
unfolding Outbox.remove_event turns operations unacknowledged Outbox.emit_draft
    Outbox.acknowledge_event
attach-Delivered_example =
    attach-Delivered morning noise 0 {link = record { sent = []; life = 5 }}
      (tt, ((refl, tt), ((refl, tt), tt))) refl (omega arith)

abbrev start : System
start = record { outbox = persistent; hub = hub; acks = []; refused = [] }

abbrev sent : System
sent = record start { outbox = emit_draft 9 completion start.outbox }

abbrev arrived : System
arrived = record sent { hub = node_message codec 6 "laptop" (node_event 9 completion) hub }

emit_draft-Held_example : Held codec "laptop" 9 arrived
emit_draft-Held_example =
    emit_draft-Held codec "laptop" 9 completion {s = start} {t = start} refl here
      (next here (hub_takes sent 6 9 completion))

abbrev config : CliEngineConfig
config = record { claude_bin = none; codex_bin = none; default_workspace = none }

abbrev codex_run : RunSpec
codex_run = record {
  engine = "codex";
  model = none;
  reasoning_effort = none;
  system_prompt = none;
  access_policy = AccessPolicy.supervised;
  workspace_path = none;
}

abbrev fresh : Fresh
fresh = record { node_id = "laptop"; now = 5; first = 70; second = 71 }

abbrev number : ℤ → String
number code = "1"

-- two prompts of one run, the second delivered twice, and the first one's process fails
abbrev day : List Operation
day =
    dispatched config true 1 (start_run 2 1 codex_run)
    ∷ dispatched config true 3 (send_prompt 1 2 "go" "m1")
    ∷ dispatched config true 4 (send_prompt 1 2 "on" "m2")
    ∷ dispatched config true 4 (send_prompt 1 2 "on" "m2")
    ∷ ran fresh 1 none
    ∷ exited 0
    ∷ ran fresh 3 none
    ∷ []

abbrev evening : Engine
evening = Machine.operations number day (idle persistent)

-- after the end of the first of two processes of a run, an interruption of the run does not stop the
-- second, which still runs
still_runs :
    let e = Machine.operations number (dispatched config true 5 (interrupt_run 2) ∷ []) evening in
    ◌≡◌ {A = List ℕ × List ℕ} (e.live, e.terminated) (1 ∷ [], [])
unfolding Machine.operations stackhour.Hub.Table.get stackhour.Hub.Table.insert
    stackhour.Hub.Table.remove
still_runs = refl

operations-starts_example : starts 4 evening.processes ≤ 1
operations-starts_example = operations-starts number day persistent 4

operations-due_example : due 2 evening ≡ due 2 (idle persistent) + prompts 2 day []
operations-due_example = operations-due number 2 day (idle persistent)

abbrev noon : List Operation
noon =
    dispatched config true 1 (start_run 2 1 codex_run)
    ∷ dispatched config true 3 (send_prompt 1 2 "go" "m1")
    ∷ dispatched config true 4 (interrupt_run 2)
    ∷ []

is_marked : has 2 (Machine.operations number noon (idle persistent)).state.interrupted ≡ true
unfolding Machine.operations stackhour.Hub.Table.get stackhour.Hub.Table.insert
    stackhour.Hub.Table.remove
is_marked = refl

operations-IsMarked_example :
    has_job 2 (Machine.operations number noon (idle persistent)).state.jobs ≡ true
operations-IsMarked_example = operations-IsMarked number noon persistent 2 is_marked

abbrev wait : ℕ → ℕ
wait attempt = attempt

abbrev lost : Attempt
lost = (welcomed accept_welcome false, false)

abbrev unreachable : Attempt
unreachable = (not_dialed, false)

abbrev refusal : Attempt
refusal = (welcomed (reject_welcome unauthenticated) false, false)

run_loop-ramp_example :
    run_loop wait (lost ∷ ((unreachable ∷ unreachable ∷ []) ++ refusal ∷ [])) 7
    ≡ (let (waits, r) = run_loop wait (refusal ∷ []) 3 in (map wait (up_from 0 3) ++ waits, r))
unfolding connect_once accept_welcome
run_loop-ramp_example =
    run_loop-ramp wait lost (unreachable ∷ unreachable ∷ []) (refusal ∷ []) 7 (refl, refl)
      ((refl, refl), ((refl, refl), tt)) (omega arith)

run_loop-returns_example :
    (run_loop wait ((lost ∷ unreachable ∷ []) ++ refusal ∷ lost ∷ []) 0).1 ≡ refused unauthenticated
unfolding connect_once accept_welcome reject_welcome
run_loop-returns_example =
    run_loop-returns wait (lost ∷ unreachable ∷ []) refusal (lost ∷ []) 0 (refused unauthenticated)
      ((true, (refl, refl)), ((false, (refl, refl)), tt)) (inr (inl (unauthenticated, refl, refl)))
