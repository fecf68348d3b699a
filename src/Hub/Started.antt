-- ===== src/Hub/Started.antt =====
-- What a client's start_run comes to when the hub sends it to a node.
use stackhour.Prelude.{
  ◌<◌, String, ◌≡◌, refl, ◌∙◌, ap, ◌⊎◌, inl, inr, Option, none, some, arith, is_some, true,
  Bool-cases,
}
use stackhour.Result.{Result, ok, err}
use stackhour.Domain.Codec.{Codec, IsLawful, year_10000}
use stackhour.Domain.Ids.{TaskId, CommandId, NodeId}
use stackhour.Domain.RunStatus
use stackhour.Domain.Entities.{Run}
use stackhour.Domain.Protocol
use stackhour.Domain.Protocol.{
  HubToNode, dispatch_command, NodeWork, ProtocolError, ClientCommand, start_run, RunSpec,
}
use stackhour.Store.Reads.{get_run}
use stackhour.Store.Append.{AppendOutcome, command_outcome, append_command_bundle}
use stackhour.Hub.State.{HubState}
use stackhour.Hub.Checks.{validate_run_configuration}
use stackhour.Hub.Publish.{effect_of, finish_with_entity, publish}
use stackhour.Hub.Commands
use stackhour.Hub.Commands.{Fresh, eligible_execution_node, execution_node}
use stackhour.Hub.Reaches.{publish-hub, bind_run-hub}
use stackhour.Hub.Coherent.Starts.{published-run}
use stackhour.Hub.Durable.{queued, apply_command_inner-queued}

-- the run that the command asks for, on a node
abbrev pub asked_run : Fresh → TaskId → NodeId → RunSpec → Run
asked_run f t node spec = record {
  id = f.id;
  task_id = t;
  node_id = node;
  engine = spec.engine;
  model = spec.model;
  reasoning_effort = spec.reasoning_effort;
  system_prompt = spec.system_prompt;
  access_policy = spec.access_policy;
  workspace_path = spec.workspace_path;
  status = RunStatus.started;
  started_at = f.created_at;
}

dispatch-asked :
    (k : CommandId) (q : Option (NodeId × HubToNode)) (r : Result AppendOutcome)
    {x : NodeId × HubToNode}
    → (effect_of k q r).dispatch ≡ some x
    → q ≡ some x
dispatch-asked k q (err e) h = absurd (cc h)
dispatch-asked k q (ok o) h = elim (Bool-cases o.created) [
  | inl new ↦ rw new at h
  | inr old ↦ absurd (cc (rw old at h))
]

module _ (c : Codec) (f : Fresh) (k : CommandId) (t : TaskId) (n : Option NodeId) (spec : RunSpec)
    (reserved : Option NodeId) (s : HubState) where
  -- a command that the hub sent to a node: it was in order, the node was reserved or chosen, the
  -- message is the command's, and the run is stored as it was asked for
  pub record IsStarted (node : NodeId) (work : HubToNode) (after : HubState) : Type 0 where
    pub valid :
        validate_run_configuration spec.engine spec.model spec.reasoning_effort spec.system_prompt
          spec.workspace_path
        ≡ none
    pub placed :
        (reserved ≡ some node)
        ⊎ (reserved ≡ none) × (eligible_execution_node c spec.engine n s ≡ inl node)
    pub message : work ≡ dispatch_command k none (NodeWork.start_run f.id t spec)
    pub stored : get_run c f.id after.hub ≡ ok (some (asked_run f t node spec))

  execution_node-inl :
      (r : Option NodeId) {node : NodeId}
      → execution_node c r spec.engine n s ≡ inl node
      → (r ≡ some node) ⊎ (r ≡ none) × (eligible_execution_node c spec.engine n s ≡ inl node)
  execution_node-inl none h = inr (refl, h)
  execution_node-inl (some x) h = inl (ground (arith, h))

  module _ (lawful : IsLawful c) (early : f.created_at < year_10000) where
    start_run_on-Started :
        (node' : NodeId) {node : NodeId} {work : HubToNode}
        → (Commands.apply_start_run_on c f k t node' spec s).0.dispatch ≡ some (node, work)
        → (node' ≡ node)
          × (work ≡ dispatch_command k none (NodeWork.start_run f.id t spec))
          × (get_run c f.id (Commands.apply_start_run_on c f k t node' spec s).1.hub
              ≡ ok (some (asked_run f t node' spec)))
    unfolding Commands.apply_start_run_on finish_with_entity
    start_run_on-Started node' {node} {work} h =
        let (d, q, w) = Commands.started f k t node' spec in
        let a = append_command_bundle c f.received_at f.event_id k d w q s.hub in
        let pub_r = (publish c a.0 (record s { hub = a.1 })).0 in
        let same = dispatch-asked k q pub_r {x = (node, work)} h in
        (
          ground (arith, same),
          ground (arith, same),
          ap (get_run c f.id) (
                bind_run-hub c f.id node' t
                  (finish_with_entity c f.received_at f.event_id k d q w s)
                ∙ publish-hub c a.0 (record s { hub = a.1 }))
              ∙ published-run c lawful f.received_at f.event_id k d (asked_run f t node' spec) q s
                  a.0 a.1 early refl (ap (λ (o : Option (NodeId × HubToNode)). is_some o) h),
        )

    start_run-Started :
        {node : NodeId} {work : HubToNode}
        → (Commands.apply_start_run c f k t n spec reserved s).0.dispatch ≡ some (node, work)
        → IsStarted node work (Commands.apply_start_run c f k t n spec reserved s).1
    unfolding Commands.apply_start_run
    start_run-Started {node} {work} h = checked _ refl h
      where
        placed_on :
            (x : NodeId ⊎ ProtocolError)
            → execution_node c reserved spec.engine n s ≡ x
            → validate_run_configuration spec.engine spec.model spec.reasoning_effort
                spec.system_prompt spec.workspace_path
              ≡ none
            → (Commands.place_run c f k t spec s x).0.dispatch ≡ some (node, work)
            → IsStarted node work (Commands.place_run c f k t spec s x).1
        placed_on (inr e) p v h = absurd (cc h)
        placed_on (inl node') p v h =
            let started = start_run_on-Started node' h in
            record {
              valid = v;
              placed = execution_node-inl reserved (rw (← started.0) p);
              message = started.1;
              stored = rw (← started.0) started.2;
            }

        checked :
            (x : Option String)
            → validate_run_configuration spec.engine spec.model spec.reasoning_effort
                spec.system_prompt spec.workspace_path
              ≡ x
            → (Commands.check_run c f k t n spec reserved s x).0.dispatch ≡ some (node, work)
            → IsStarted node work (Commands.check_run c f k t n spec reserved s x).1
        checked (some m) v h = absurd (cc h)
        checked none v h = placed_on _ refl v h

    -- Where a client's start_run is sent to a node, its configuration is valid; the node is the
    -- reserved one, or else the one that the placement chose; the message is the start of this very
    -- run, and waits in the store's queue for that node; and the run reads back from the store with
    -- the task, the node and the settings that were asked for, as started.
    pub apply_command_inner-IsStarted :
        {node : NodeId} {work : HubToNode}
        → (Commands.apply_command_inner c f (start_run k t n spec) reserved s).0.dispatch
          ≡ some (node, work)
        → let after = (Commands.apply_command_inner c f (start_run k t n spec) reserved s).1 in
          IsStarted node work after × (queued c k node work after.hub ≡ true)
    unfolding Commands.apply_command_inner Commands.apply_new Protocol.command_id
    apply_command_inner-IsStarted {node} {work} h = (
      answered (command_outcome c k s.hub) h,
      apply_command_inner-queued c f (start_run k t n spec) reserved s node work h,
    )
      where
        answered :
            (x : Result (Option AppendOutcome))
            → (Commands.answer
                (start_run k t n spec)
                (Commands.apply_start_run c f k t n spec reserved s)
                s
                x).0.dispatch
              ≡ some (node, work)
            → IsStarted node work
                (Commands.answer
                  (start_run k t n spec)
                  (Commands.apply_start_run c f k t n spec reserved s)
                  s
                  x).1
        answered (err e) p = start_run-Started p
        answered (ok none) p = start_run-Started p
        answered (ok (some o)) p = absurd (cc p)
