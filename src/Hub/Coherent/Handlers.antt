-- ===== src/Hub/Coherent/Handlers.antt =====
-- The cache of bindings through the client commands.
use stackhour.Prelude.{◌<◌, String, refl, ◌⊎◌, inl, inr, Option, none, some, Bool-cases}
use stackhour.Result.{Result, ok, err, Result-cases}
use stackhour.Domain.Codec.{Codec, IsLawful, year_10000}
use stackhour.Domain.Ids.{TaskId, RunId, CommandId, ApprovalId, NodeId}
use stackhour.Domain.Decision.{Decision}
use stackhour.Domain.Protocol
use stackhour.Domain.Protocol.{
  HubToNode, ProtocolError, ClientCommand, create_task, send_user_message, start_run, interrupt_run,
  RunSpec,
}
use stackhour.Store.Append.{AppendOutcome, command_outcome}
use stackhour.Store.Approvals
use stackhour.Hub.State.{HubState, node_for_task}
use stackhour.Hub.Binding.{IsCoherent, run_binding_checked-IsCoherent}
use stackhour.Hub.Publish.{finish_with_entity, finish}
use stackhour.Hub.Commands
use stackhour.Hub.Commands.{Fresh}
use stackhour.Hub.Reaches.{resolution-Reaches}
use stackhour.Hub.Coherent.{finish_with_entity-IsCoherent, Reaches-IsCoherent, publish-routing}
use stackhour.Hub.Coherent.Starts.{start_run_on-IsCoherent}

module _ (c : Codec) (lawful : IsLawful c) where
  run_binding-IsCoherent :
      (id : RunId) (s : HubState) → IsCoherent c s → IsCoherent c (Commands.run_binding c id s).1
  unfolding Commands.run_binding
  run_binding-IsCoherent id s v = run_binding_checked-IsCoherent c id s lawful v

  node_of_run-IsCoherent :
      (id : Option RunId) (s : HubState)
      → IsCoherent c s
      → IsCoherent c (Commands.node_of_run c id s).1
  node_of_run-IsCoherent none s v = v
  node_of_run-IsCoherent (some id) s v = run_binding-IsCoherent id s v

  user_message-IsCoherent :
      (f : Fresh) (k : CommandId) (t : TaskId) (r : Option RunId) (text id : String) (s : HubState)
      → IsCoherent c s
      → IsCoherent c (Commands.apply_user_message c f k t r text id s).1
  unfolding Commands.apply_user_message finish
  user_message-IsCoherent f k t r text id s v =
      let s' = (Commands.node_of_run c r s).1 in
      let v' : IsCoherent c s' = node_of_run-IsCoherent r s v in
      elim (Bool-cases
        (Commands.is_hub (Commands.or_node (Commands.node_of_run c r s).0 (node_for_task t s')))) [
          | inl own ↦ rw (Commands.apply_user_message, own) v'
          | inr other ↦
              rw (Commands.apply_user_message, other)
                (finish_with_entity-IsCoherent c _ _ _ _ _ _ s' v')
        ]

  start_run-IsCoherent :
      (f : Fresh) (k : CommandId) (t : TaskId) (n : Option NodeId) (spec : RunSpec)
      (reserved : Option NodeId) (s : HubState)
      → f.created_at < year_10000
      → IsCoherent c s
      → IsCoherent c (Commands.apply_start_run c f k t n spec reserved s).1
  unfolding Commands.apply_start_run
  start_run-IsCoherent f k t n spec reserved s early v = checked _
    where
      placed : (x : NodeId ⊎ ProtocolError) → IsCoherent c (Commands.place_run c f k t spec s x).1
      placed (inl node) = start_run_on-IsCoherent c lawful f k t node spec s early v
      placed (inr e) = v

      checked :
          (x : Option String) → IsCoherent c (Commands.check_run c f k t n spec reserved s x).1
      checked none = placed _
      checked (some m) = v

  interrupt-IsCoherent :
      (f : Fresh) (k : CommandId) (r : RunId) (s : HubState)
      → IsCoherent c s
      → IsCoherent c (Commands.apply_interrupt c f k r s).1
  unfolding Commands.apply_interrupt finish
  interrupt-IsCoherent f k r s v =
      let s' = (Commands.run_binding c r s).1 in
      let v' : IsCoherent c s' = run_binding-IsCoherent r s v in
      elim (Bool-cases (Commands.is_hub (Commands.bound_node (Commands.run_binding c r s).0))) [
        | inl own ↦ rw (Commands.apply_interrupt, own) v'
        | inr other ↦
            rw (Commands.apply_interrupt, other) (finish_with_entity-IsCoherent c _ _ _ _ _ _ s' v')
      ]

  resolution-IsCoherent :
      (f : Fresh) (k : CommandId) (a : ApprovalId) (d : Decision) (actor : String) (s : HubState)
      → IsCoherent c s
      → IsCoherent c (Commands.apply_resolution c f k a d actor s).1
  unfolding Commands.apply_resolution finish finish_with_entity
  resolution-IsCoherent f k a d actor s v =
      Reaches-IsCoherent c s (Commands.apply_resolution c f k a d actor s).1
        (resolution-Reaches c f k a d actor s)
        (elim (Result-cases (Approvals.resolve_approval c a d actor f.created_at s.hub).0) [
          | inr (e, bad) ↦ rw (Commands.apply_resolution, bad) refl
          | inl (x, good) ↦ rw (Commands.apply_resolution, good) (publish-routing c _ _)
        ])
        v

  apply_new-IsCoherent :
      (f : Fresh) (cmd : ClientCommand) (reserved : Option NodeId) (s : HubState)
      → f.created_at < year_10000
      → IsCoherent c s
      → IsCoherent c (Commands.apply_new c f cmd reserved s).1
  unfolding Commands.apply_new Commands.apply_create_task
  apply_new-IsCoherent f (create_task k title) reserved s early v =
      finish_with_entity-IsCoherent c _ _ _ _ _ _ s v
  apply_new-IsCoherent f (send_user_message k t r text id) reserved s early v =
      user_message-IsCoherent f k t r text id s v
  apply_new-IsCoherent f (start_run k t n spec) reserved s early v =
      start_run-IsCoherent f k t n spec reserved s early v
  apply_new-IsCoherent f (interrupt_run k r) reserved s early v = interrupt-IsCoherent f k r s v
  apply_new-IsCoherent f (ClientCommand.resolve_approval k a d actor) reserved s early v =
      resolution-IsCoherent f k a d actor s v

  -- A client command that is received before the year 10000 keeps every cached binding that of
  -- the stored run, whatever the command is and however it ends.
  pub apply_command_inner-IsCoherent :
      (f : Fresh) (cmd : ClientCommand) (reserved : Option NodeId) (s : HubState)
      → f.created_at < year_10000
      → IsCoherent c s
      → IsCoherent c (Commands.apply_command_inner c f cmd reserved s).1
  unfolding Commands.apply_command_inner
  apply_command_inner-IsCoherent f cmd reserved s early v =
      outcome (command_outcome c (Protocol.command_id cmd) s.hub)
    where
      outcome :
          (x : Result (Option AppendOutcome))
          → IsCoherent c (Commands.answer cmd (Commands.apply_new c f cmd reserved s) s x).1
      outcome (err e) = apply_new-IsCoherent f cmd reserved s early v
      outcome (ok none) = apply_new-IsCoherent f cmd reserved s early v
      outcome (ok (some o)) = v
