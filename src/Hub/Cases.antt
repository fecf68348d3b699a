-- ===== src/Hub/Cases.antt =====
-- What holds of every answer to a client command: it is enough that it holds of a refusal, of the
-- answer to an append, and of a run's binding.
use stackhour.Prelude.{String, ◌⊎◌, inl, inr, Option, none, some, Bool-cases}
use stackhour.Result.{Result-cases}
use stackhour.Domain.Codec.{Codec}
use stackhour.Domain.Ids.{TaskId, RunId, EventId, CommandId, ApprovalId, NodeId, Time}
use stackhour.Domain.Decision.{Decision}
use stackhour.Domain.Event.{EventDraft}
use stackhour.Domain.Protocol
use stackhour.Domain.Protocol.{
  HubToNode, HubToClient, ProtocolError, ClientCommand, create_task, send_user_message, start_run,
  interrupt_run, RunSpec, accepted_receipt, rejected_receipt,
}
use stackhour.Store.Append.{EntityWrite}
use stackhour.Store.Approvals
use stackhour.Hub.State.{HubState, node_for_task}
use stackhour.Hub.Publish.{finish_with_entity, finish, CommandEffect}
use stackhour.Hub.Commands
use stackhour.Hub.Commands.{Fresh, rejected}

module _ (c : Codec) (Q : CommandId → CommandEffect × HubState → Type 0)
    (on_reject : (k : CommandId) (e : ProtocolError) (s : HubState) → Q k (rejected k e, s))
    (on_finish : (now : Time) (e : EventId) (k : CommandId) (d : EventDraft)
        (q : Option (NodeId × HubToNode)) (w : EntityWrite) (s : HubState)
      → Q k (finish_with_entity c now e k d q w s))
    (on_bind : (i : RunId) (n : NodeId) (t : TaskId) (k : CommandId) (x : CommandEffect × HubState)
      → Q k x
      → Q k (Commands.bind_run i n t x)) where
  user_message_cases :
      (f : Fresh) (k : CommandId) (t : TaskId) (r : Option RunId) (text id : String) (s : HubState)
      → Q k (Commands.apply_user_message c f k t r text id s)
  unfolding Commands.apply_user_message finish
  user_message_cases f k t r text id s =
      let s' = (Commands.node_of_run c r s).1 in
      elim (Bool-cases
        (Commands.is_hub (Commands.or_node (Commands.node_of_run c r s).0 (node_for_task t s')))) [
          | inl own ↦ rw (Commands.apply_user_message, own) (on_reject k _ s')
          | inr other ↦ rw (Commands.apply_user_message, other) (on_finish _ _ k _ _ _ s')
        ]

  interrupt_cases :
      (f : Fresh) (k : CommandId) (r : RunId) (s : HubState)
      → Q k (Commands.apply_interrupt c f k r s)
  unfolding Commands.apply_interrupt finish
  interrupt_cases f k r s =
      let s' = (Commands.run_binding c r s).1 in
      elim (Bool-cases (Commands.is_hub (Commands.bound_node (Commands.run_binding c r s).0))) [
        | inl own ↦ rw (Commands.apply_interrupt, own) (on_reject k _ s')
        | inr other ↦ rw (Commands.apply_interrupt, other) (on_finish _ _ k _ _ _ s')
      ]

  resolution_cases :
      (f : Fresh) (k : CommandId) (a : ApprovalId) (d : Decision) (actor : String) (s : HubState)
      → Q k (Commands.apply_resolution c f k a d actor s)
  unfolding Commands.apply_resolution finish
  resolution_cases f k a d actor s =
      let s' : HubState = record s {
        hub = (Approvals.resolve_approval c a d actor f.created_at s.hub).1;
      } in
      elim (Result-cases (Approvals.resolve_approval c a d actor f.created_at s.hub).0) [
        | inr (e, bad) ↦ rw (Commands.apply_resolution, bad) (on_reject k _ s')
        | inl (x, good) ↦ rw (Commands.apply_resolution, good) (on_finish _ _ k _ _ _ s')
      ]

  start_run_cases :
      (f : Fresh) (k : CommandId) (t : TaskId) (n : Option NodeId) (spec : RunSpec)
      (reserved : Option NodeId) (s : HubState)
      → Q k (Commands.apply_start_run c f k t n spec reserved s)
  unfolding Commands.apply_start_run Commands.apply_start_run_on
  start_run_cases f k t n spec reserved s = checked _
    where
      placed : (x : NodeId ⊎ ProtocolError) → Q k (Commands.place_run c f k t spec s x)
      placed (inl node) = on_bind f.id node t k _ (on_finish _ _ k _ _ _ s)
      placed (inr e) = on_reject k e s

      checked : (x : Option String) → Q k (Commands.check_run c f k t n spec reserved s x)
      checked none = placed _
      checked (some m) = on_reject k _ s

  pub apply_new_cases :
      (f : Fresh) (cmd : ClientCommand) (reserved : Option NodeId) (s : HubState)
      → Q (Protocol.command_id cmd) (Commands.apply_new c f cmd reserved s)
  unfolding Commands.apply_new Protocol.command_id Commands.apply_create_task
  apply_new_cases f (create_task k title) reserved s = on_finish _ _ k _ _ _ s
  apply_new_cases f (send_user_message k t r text id) reserved s =
      user_message_cases f k t r text id s
  apply_new_cases f (start_run k t n spec) reserved s = start_run_cases f k t n spec reserved s
  apply_new_cases f (interrupt_run k r) reserved s = interrupt_cases f k r s
  apply_new_cases f (ClientCommand.resolve_approval k a d actor) reserved s =
      resolution_cases f k a d actor s
