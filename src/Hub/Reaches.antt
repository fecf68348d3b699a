-- ===== src/Hub/Reaches.antt =====
-- What a hub operation does to the store: a history of the store's own operations.
use stackhour.Prelude.{
  String, ◌≡◌, refl, ◌⊎◌, sym, ◌∙◌, ap, Option, none, some, List, [], ◌∷◌, ◌++◌, arith, Bool-cases,
  inl, inr,
}
use stackhour.Result.{Result, ok, err, Result-cases}
use stackhour.Domain.Codec.{Codec}
use stackhour.Domain.Ids.{TaskId, RunId, EventId, CommandId, NodeId, Time}
use stackhour.Domain.Event.{EventDraft, Event}
use stackhour.Domain.Protocol
use stackhour.Domain.Protocol.{
  HubToNode, ClientCommand, create_task, send_user_message, start_run, interrupt_run, RunSpec,
}
use stackhour.Store.Db.{Db}
use stackhour.Store.Append.{AppendOutcome, EntityWrite, command_outcome}
use stackhour.Store.Approvals
use stackhour.Store.Machine
use stackhour.Store.Machine.{Step, perform, history}
use stackhour.Hub.State.{HubState, run_binding_checked, remember_run, route_to_node}
use stackhour.Hub.Publish.{publish, send, finish_with_entity, finish, fetch_event, CommandEffect}
use stackhour.Hub.Commands
use stackhour.Hub.Commands.{Fresh}
use stackhour.Domain.Ids.{ApprovalId}
use stackhour.Domain.Decision.{Decision}
use stackhour.Hub.State.{node_for_task}
use stackhour.Domain.Protocol.{ProtocolError}

module _ (c : Codec) where
  -- the store after some of its operations
  abbrev pub Reaches : Db → Db → Type 0
  Reaches a b = (ss : List Step) × (b ≡ history c ss a)

  history-append :
      (ss ts : List Step) (db : Db) → history c (ss ++ ts) db ≡ history c ts (history c ss db)
  unfolding history
  history-append [] ts db = refl
  history-append (s ∷ ss) ts db = history-append ss ts (perform c s db)

  pub Reaches-refl : (a b : Db) → b ≡ a → Reaches a b
  unfolding history
  Reaches-refl a b e = ([], e)

  pub Reaches-step : (s : Step) (a b : Db) → b ≡ perform c s a → Reaches a b
  unfolding history
  Reaches-step s a b e = (s ∷ [], e)

  pub Reaches-trans : (a b d : Db) → Reaches a b → Reaches b d → Reaches a d
  Reaches-trans a b d (ss, p) (ts, q) =
      (ss ++ ts, q ∙ ap (history c ts) p ∙ sym (history-append ss ts a))

  pub publish-hub : (r : Result AppendOutcome) (s : HubState) → (publish c r s).1.hub ≡ s.hub
  unfolding publish
  publish-hub (err e) s = refl
  publish-hub (ok o) s = elim (Bool-cases o.created) [
    | inr old ↦ rw (publish, old) refl
    | inl new ↦ rw (publish, new) (sent (fetch_event c o.sequence s.hub))
  ]
    where
      sent : (r : Result (Option Event)) → (send r o s).1.hub ≡ s.hub
      sent (err e) = refl
      sent (ok none) = refl
      sent (ok (some e)) = refl

  send-ok :
      (x : Result (Option Event)) (o : AppendOutcome) (s : HubState) {o' : AppendOutcome}
      → (send x o s).0 ≡ ok o'
      → o ≡ o'
  send-ok (err e) o s h = absurd (ground arith)
  send-ok (ok none) o s h = ground arith
  send-ok (ok (some e)) o s h = ground arith

  pub publish-ok :
      (o : AppendOutcome) (s : HubState) {o' : AppendOutcome}
      → (publish c (ok o) s).0 ≡ ok o'
      → o ≡ o'
  unfolding publish
  publish-ok o s h = elim (Bool-cases o.created) [
    | inr old ↦ let h' = rw (publish, old) at h in ground arith
    | inl new ↦ send-ok (fetch_event c o.sequence s.hub) o s (rw (publish, new) at h)
  ]

  pub finish_with_entity-Reaches :
      (now : Time) (e : EventId) (k : CommandId) (d : EventDraft) (q : Option (NodeId × HubToNode))
      (w : EntityWrite) (s : HubState)
      → Reaches s.hub (finish_with_entity c now e k d q w s).1.hub
  unfolding finish_with_entity perform
  finish_with_entity-Reaches now e k d q w s =
      Reaches-step (Machine.command now e k d w q) s.hub _ (publish-hub _ _)

  run_binding_checked-hub : (id : RunId) (s : HubState) → (run_binding_checked c id s).1.hub ≡ s.hub
  unfolding run_binding_checked remember_run
  run_binding_checked-hub id s = ground arith

  pub run_binding-hub : (id : RunId) (s : HubState) → (Commands.run_binding c id s).1.hub ≡ s.hub
  unfolding Commands.run_binding
  run_binding-hub id s = run_binding_checked-hub id s

  pub node_of_run-hub :
      (id : Option RunId) (s : HubState) → (Commands.node_of_run c id s).1.hub ≡ s.hub
  node_of_run-hub none s = refl
  node_of_run-hub (some id) s = run_binding-hub id s

  pub route_to_node-hub :
      (n : NodeId) (m : HubToNode) (s : HubState) → (route_to_node n m s).1.hub ≡ s.hub
  unfolding route_to_node
  route_to_node-hub n m s = ground arith

  create_task-Reaches :
      (f : Fresh) (k : CommandId) (title : String) (s : HubState)
      → Reaches s.hub (Commands.apply_create_task c f k title s).1.hub
  unfolding Commands.apply_create_task
  create_task-Reaches f k title s = finish_with_entity-Reaches _ _ _ _ _ _ s

  user_message-Reaches :
      (f : Fresh) (k : CommandId) (t : TaskId) (r : Option RunId) (text id : String) (s : HubState)
      → Reaches s.hub (Commands.apply_user_message c f k t r text id s).1.hub
  unfolding Commands.apply_user_message finish
  user_message-Reaches f k t r text id s =
      let s' = (Commands.node_of_run c r s).1 in
      let same : s'.hub ≡ s.hub = node_of_run-hub r s in
      elim (Bool-cases
        (Commands.is_hub (Commands.or_node (Commands.node_of_run c r s).0 (node_for_task t s')))) [
          | inl own ↦ rw (Commands.apply_user_message, own) (Reaches-refl _ _ same)
          | inr other ↦
              rw (Commands.apply_user_message, other)
                (Reaches-trans _ _ _ (Reaches-refl _ _ same)
                  (finish_with_entity-Reaches _ _ _ _ _ _ s'))
        ]

  pub bind_run-hub :
      (i : RunId) (n : NodeId) (t : TaskId) (x : CommandEffect × HubState)
      → (Commands.bind_run i n t x).1.hub ≡ x.1.hub
  unfolding remember_run
  bind_run-hub i n t (effect, s) = ground arith

  start_run_on-Reaches :
      (f : Fresh) (k : CommandId) (t : TaskId) (n : NodeId) (spec : RunSpec) (s : HubState)
      → Reaches s.hub (Commands.apply_start_run_on c f k t n spec s).1.hub
  unfolding Commands.apply_start_run_on remember_run
  start_run_on-Reaches f k t n spec s =
      let (d, q, w) = Commands.started f k t n spec in
      Reaches-trans _ _ _ (finish_with_entity-Reaches f.received_at f.event_id k d q w s) (
        Reaches-refl _ _
          (bind_run-hub f.id n t (finish_with_entity c f.received_at f.event_id k d q w s)))

  start_run-Reaches :
      (f : Fresh) (k : CommandId) (t : TaskId) (n : Option NodeId) (spec : RunSpec)
      (reserved : Option NodeId) (s : HubState)
      → Reaches s.hub (Commands.apply_start_run c f k t n spec reserved s).1.hub
  unfolding Commands.apply_start_run Commands.apply_start_run_on
  start_run-Reaches f k t n spec reserved s = checked _
    where
      placed :
          (x : NodeId ⊎ ProtocolError) → Reaches s.hub (Commands.place_run c f k t spec s x).1.hub
      placed (inl node) = start_run_on-Reaches f k t node spec s
      placed (inr e) = Reaches-refl _ _ refl

      checked :
          (x : Option String) → Reaches s.hub (Commands.check_run c f k t n spec reserved s x).1.hub
      checked none = placed _
      checked (some m) = Reaches-refl _ _ refl

  interrupt-Reaches :
      (f : Fresh) (k : CommandId) (r : RunId) (s : HubState)
      → Reaches s.hub (Commands.apply_interrupt c f k r s).1.hub
  unfolding Commands.apply_interrupt finish
  interrupt-Reaches f k r s =
      let s' = (Commands.run_binding c r s).1 in
      let same : s'.hub ≡ s.hub = run_binding-hub r s in
      elim (Bool-cases (Commands.is_hub (Commands.bound_node (Commands.run_binding c r s).0))) [
        | inl own ↦ rw (Commands.apply_interrupt, own) (Reaches-refl _ _ same)
        | inr other ↦
            rw (Commands.apply_interrupt, other)
              (Reaches-trans _ _ _ (Reaches-refl _ _ same)
                (finish_with_entity-Reaches _ _ _ _ _ _ s'))
      ]

  pub resolution-Reaches :
      (f : Fresh) (k : CommandId) (a : ApprovalId) (d : Decision) (actor : String) (s : HubState)
      → Reaches s.hub (Commands.apply_resolution c f k a d actor s).1.hub
  unfolding Commands.apply_resolution finish perform
  resolution-Reaches f k a d actor s =
      let resolved = Approvals.resolve_approval c a d actor f.created_at s.hub in
      elim (Result-cases resolved.0) [
        | inr (e, bad) ↦
            rw (Commands.apply_resolution, bad)
              (Reaches-step (Machine.resolution a d actor f.created_at) _ _ refl)
        | inl (x, good) ↦
            rw (Commands.apply_resolution, good)
              (Reaches-trans _ _ _
                (Reaches-step (Machine.resolution a d actor f.created_at) _ _ refl)
                (finish_with_entity-Reaches _ _ _ _ _ _ _))
      ]

  apply_new-Reaches :
      (f : Fresh) (cmd : ClientCommand) (reserved : Option NodeId) (s : HubState)
      → Reaches s.hub (Commands.apply_new c f cmd reserved s).1.hub
  unfolding Commands.apply_new
  apply_new-Reaches f (create_task k title) reserved s = create_task-Reaches f k title s
  apply_new-Reaches f (send_user_message k t r text id) reserved s =
      user_message-Reaches f k t r text id s
  apply_new-Reaches f (start_run k t n spec) reserved s = start_run-Reaches f k t n spec reserved s
  apply_new-Reaches f (interrupt_run k r) reserved s = interrupt-Reaches f k r s
  apply_new-Reaches f (ClientCommand.resolve_approval k a d actor) reserved s =
      resolution-Reaches f k a d actor s

  -- Whatever a client command does to the store, it does by the store's own operations: the tables
  -- after it are those of a history of them, accepted or not.
  pub apply_command_inner-Reaches :
      (f : Fresh) (cmd : ClientCommand) (reserved : Option NodeId) (s : HubState)
      → Reaches s.hub (Commands.apply_command_inner c f cmd reserved s).1.hub
  unfolding Commands.apply_command_inner
  apply_command_inner-Reaches f cmd reserved s =
      outcome (command_outcome c (Protocol.command_id cmd) s.hub)
    where
      outcome :
          (x : Result (Option AppendOutcome))
          → Reaches s.hub (Commands.answer cmd (Commands.apply_new c f cmd reserved s) s x).1.hub
      outcome (err e) = apply_new-Reaches f cmd reserved s
      outcome (ok none) = apply_new-Reaches f cmd reserved s
      outcome (ok (some o)) = Reaches-refl _ _ refl
