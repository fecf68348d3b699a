-- ===== src/Hub/Sound/Steps.antt =====
-- Every operation of the hub, and runs of them.
use stackhour.Prelude.{◌<◌, String, Option, none, some, List, [], ◌∷◌, All}
use stackhour.Domain.Codec.{Codec, IsLawful, year_10000}
use stackhour.Domain.Ids.{TaskId, RunId, CommandId, NodeId, Time}
use stackhour.Domain.Json.{Value}
use stackhour.Domain.EventKind.{EventKind}
use stackhour.Domain.Protocol.{ClientCommand}
use stackhour.Hub.State.{HubState}
use stackhour.Hub.Commands.{Fresh, apply_command, submit_command, run_binding}
use stackhour.Hub.Worker.{
  FreshWorker, create_worker_task, track_assistant_worker, start_hub_assistant_run,
  append_hub_assistant_message, append_hub_assistant_event, applied,
}
use stackhour.Hub.Machine
use stackhour.Hub.Worker
use stackhour.Hub.Machine.{
  WorkerTask, AssistantRun, Operation, submitted, delegated, assistant_started, assistant_asked,
  assistant_said, node_opened, node_said, node_closed, operate, operations,
}
use stackhour.Hub.Sound.{
  IsSound, Preserves, bind-Preserves, then-Preserves, checked-Preserves, unless-Preserves,
  route_dispatch-IsSound, route_effect-Preserves, command-Preserves, node_event-Preserves,
  worker-Preserves, give-Preserves, track-Preserves, event_from_effect-Preserves,
  without_routing-Preserves, schedule-Preserves, applied-Preserves,
}
use stackhour.Hub.Sound.Links.{
  open_node-IsSound, close_node-IsSound, run_binding-IsSound, node_message-IsSound,
}

module _ (c : Codec) where
  -- the clocks of the runs that the operation starts stand before the year 10000
  abbrev pub IsEarly : Operation → Type 0
  IsEarly (submitted f cmd) = f.created_at < year_10000
  IsEarly (delegated f w) =
      (f.create.created_at < year_10000)
      × (f.start.created_at < year_10000)
      × (f.prompt.created_at < year_10000)
  IsEarly _ = Unit {0}

  assistant_run-Preserves :
      (f : Fresh) (k : CommandId) (r : AssistantRun)
      → Preserves c (
          start_hub_assistant_run c f k r.task_id r.engine r.model r.reasoning_effort
            r.system_prompt r.workspace_path)
  unfolding start_hub_assistant_run
  assistant_run-Preserves f k r =
      then-Preserves c _ _ (checked-Preserves c _)
        (bind-Preserves c _ _ (command-Preserves c _ _ k _ _ none) (λ o. give-Preserves c _))

  assistant_message-Preserves :
      (f : Fresh) (m k : CommandId) (t : TaskId) (r : RunId) (text : String)
      → Preserves c (append_hub_assistant_message c f m k t r text)
  unfolding append_hub_assistant_message
  assistant_message-Preserves f m k t r text =
      bind-Preserves c _ _ (command-Preserves c _ _ k _ _ none) (λ o. give-Preserves c _)

  assistant_event-Preserves :
      (f : Fresh) (kind : EventKind) (t : TaskId) (r : RunId) (session : Option String) (p : Value)
      → Preserves c (append_hub_assistant_event c f kind t r session p)
  unfolding append_hub_assistant_event
  assistant_event-Preserves f kind t r session p =
      then-Preserves c _ _ (unless-Preserves c _ _)
        (bind-Preserves c _ _ (node_event-Preserves c _ _ _) (λ o. give-Preserves c _))

  module _ (lawful : IsLawful c) where
    submit_command-IsSound :
        (f : Fresh) (cmd : ClientCommand) (s : HubState)
        → f.created_at < year_10000
        → IsSound c s
        → IsSound c (submit_command c f cmd s).1
    unfolding submit_command apply_command applied
    submit_command-IsSound f cmd s early v =
        route_dispatch-IsSound c _ _ (applied-Preserves c lawful f cmd none early s v)

    track_assistant_worker-IsSound :
        (now : Time) (channel : String) (t : TaskId) (r : RunId) (s : HubState)
        → IsSound c s
        → IsSound c (track_assistant_worker c now channel t r s).1
    unfolding track_assistant_worker Worker.tracked
    track_assistant_worker-IsSound now channel t r s v =
        bound (run_binding c r s).0 (run_binding c r s).1 (run_binding-IsSound c lawful r s v)
      where
        bound : (b : Option (NodeId × TaskId)) → Preserves c (Worker.tracked c channel t now b)
        bound none = give-Preserves c _
        bound (some (n, u)) =
            then-Preserves c _ _ (unless-Preserves c _ _) (worker-Preserves c now channel t)

    create_worker_task-Preserves :
        (f : FreshWorker) (w : WorkerTask)
        → IsEarly (delegated f w)
        → Preserves c (
            create_worker_task c f w.title w.prompt w.assistant_channel w.preferred_node w.engine
              w.model w.reasoning_effort w.workspace_path)
    unfolding create_worker_task
    create_worker_task-Preserves f w early = then-Preserves c _ _ (checked-Preserves c _) (
        bind-Preserves c _ _ (schedule-Preserves c w.engine w.preferred_node) (λ node.
          bind-Preserves c _ _ (applied-Preserves c lawful f.create _ none early.0) (λ created.
            bind-Preserves c _ _ (event_from_effect-Preserves c created) (λ task.
              then-Preserves c _ _ (track-Preserves c f.tracked_at _ _) (
                bind-Preserves c _ _ (applied-Preserves c lawful f.start _ _ early.1) (λ run.
                  bind-Preserves c _ _ (without_routing-Preserves c run) (λ event.
                    bind-Preserves c _ _ (give-Preserves c _) (λ id.
                      bind-Preserves c _ _ (route_effect-Preserves c run) (λ n.
                        bind-Preserves c _ _ (applied-Preserves c lawful f.prompt _ none early.2)
                          (λ prompted.
                            bind-Preserves c _ _ (route_effect-Preserves c prompted)
                              (λ m. give-Preserves c _)))))))))))

    operate-IsSound :
        (o : Operation) (s : HubState) → IsEarly o → IsSound c s → IsSound c (operate c o s)
    unfolding operate
    operate-IsSound (submitted f cmd) s early v = submit_command-IsSound f cmd s early v
    operate-IsSound (delegated f w) s early v = create_worker_task-Preserves f w early s v
    operate-IsSound (Machine.tracked now channel t r) s early v =
        track_assistant_worker-IsSound now channel t r s v
    operate-IsSound (assistant_started f k r) s early v = assistant_run-Preserves f k r s v
    operate-IsSound (assistant_asked f m k t r text) s early v =
        assistant_message-Preserves f m k t r text s v
    operate-IsSound (assistant_said f kind t r session p) s early v =
        assistant_event-Preserves f kind t r session p s v
    operate-IsSound (node_opened f hello welcomed) s early v =
        open_node-IsSound c f hello welcomed s v
    operate-IsSound (node_said now n m) s early v = node_message-IsSound c lawful now n m s v
    operate-IsSound (node_closed f n id) s early v = close_node-IsSound c f n id s v

    -- From a sound hub, every run of the hub's operations, by clients, nodes and the assistant,
    -- failing ones included, ends in a sound one: the log is gapless with its receipts, and every
    -- cached binding is that of its stored run. The runs are started before the year 10000.
    pub operations-IsSound :
        (os : List Operation) (s : HubState)
        → All IsEarly os
        → IsSound c s
        → IsSound c (operations c os s)
    unfolding operations
    operations-IsSound [] s early v = v
    operations-IsSound (o ∷ os) s early v =
        operations-IsSound os (operate c o s) early.1 (operate-IsSound o s early.0 v)
