-- ===== src/Hub/Retry.antt =====
-- A client command that was accepted, sent again.
use stackhour.Prelude.{
  ℕ, ◌≡◌, refl, ◌∙◌, ap, inl, inr, false, Option, none, some, [], arith, Option-cases,
}
use stackhour.Result.{Result, ok, err, Result-cases}
use stackhour.Domain.Codec.{Codec, IsLawful}
use stackhour.Domain.Ids.{TaskId, RunId, EventId, CommandId, NodeId, Time}
use stackhour.Domain.Event.{EventDraft}
use stackhour.Domain.Protocol
use stackhour.Domain.Protocol.{
  HubToNode, HubToClient, ProtocolError, ClientCommand, create_task, send_user_message, start_run,
  interrupt_run, RunSpec, accepted_receipt, rejected_receipt,
}
use stackhour.Store.Db.{Db}
use stackhour.Store.Append.{
  AppendOutcome, EntityWrite, append_command_bundle, command_outcome, find_receipt, stored_outcome,
}
use stackhour.Store.Machine.{history}
use stackhour.Store.Idempotent.{command_outcome-replay}
use stackhour.Store.Log.Growth.{Grows, history-Grows, find_receipt-Grows}
use stackhour.Hub.State.{HubState}
use stackhour.Hub.Publish.{publish, finish_with_entity, CommandEffect, effect_of}
use stackhour.Hub.Commands
use stackhour.Hub.Commands.{Fresh, rejected}
use stackhour.Hub.Cases.{apply_new_cases}
use stackhour.Hub.Reaches.{publish-ok, Reaches, publish-hub, bind_run-hub}

-- the outcome that a receipt stands for
abbrev pub known : ℕ → EventId → AppendOutcome
known sequence event_id = record { sequence = sequence; event_id = event_id; created = false }

module _ (c : Codec) (lawful : IsLawful c) where
  -- an accepted receipt is that of a stored outcome
  abbrev IsHonest : CommandId → CommandEffect × HubState → Type 0
  IsHonest k x =
      (sequence : ℕ) (event_id : EventId)
      → x.0.receipt ≡ accepted_receipt k sequence event_id
      → command_outcome c k x.1.hub ≡ ok (some (known sequence event_id))

  rejected-IsHonest :
      (k : CommandId) (e : ProtocolError) (s : HubState) → IsHonest k (rejected k e, s)
  unfolding rejected_receipt accepted_receipt
  rejected-IsHonest k e s n i h = absurd (ground arith)

  published-outcome :
      (now : Time) (e : EventId) (k : CommandId) (d : EventDraft) (q : Option (NodeId × HubToNode))
      (w : EntityWrite) (s : HubState) (r : Result AppendOutcome) (db : Db) (n : ℕ) (i : EventId)
      → append_command_bundle c now e k d w q s.hub ≡ (r, db)
      → (effect_of k q (publish c r (record s { hub = db })).0).receipt ≡ accepted_receipt k n i
      → command_outcome c k db ≡ ok (some (known n i))
  unfolding accepted_receipt publish history
  published-outcome now e k d q w s (err x) db n i p h = absurd (ground arith)
  published-outcome now e k d q w s (ok o) db n i p h =
      elim (Result-cases (publish c (ok o) (record s { hub = db })).0) [
        | inr (x, bad) ↦ absurd (ground arith)
        | inl (o', good) ↦
            command_outcome-replay c lawful now e k d w q s.hub [] p
            ∙ ground (arith, publish-ok c o (record s { hub = db }) good)
      ]

  finish_with_entity-IsHonest :
      (now : Time) (e : EventId) (k : CommandId) (d : EventDraft) (q : Option (NodeId × HubToNode))
      (w : EntityWrite) (s : HubState)
      → IsHonest k (finish_with_entity c now e k d q w s)
  unfolding finish_with_entity
  finish_with_entity-IsHonest now e k d q w s n i h =
      let a = append_command_bundle c now e k d w q s.hub in
      ap (command_outcome c k) (publish-hub c a.0 (record s { hub = a.1 }))
      ∙ published-outcome now e k d q w s a.0 a.1 n i refl h

  bind_run-IsHonest :
      (i : RunId) (n : NodeId) (t : TaskId) (k : CommandId) (x : CommandEffect × HubState)
      → IsHonest k x
      → IsHonest k (Commands.bind_run i n t x)
  bind_run-IsHonest i n t k x honest m e h =
      ap (command_outcome c k) (bind_run-hub c i n t x) ∙ honest m e h

  apply_new-IsHonest :
      (f : Fresh) (cmd : ClientCommand) (reserved : Option NodeId) (s : HubState)
      → IsHonest (Protocol.command_id cmd) (Commands.apply_new c f cmd reserved s)
  apply_new-IsHonest =
      apply_new_cases c IsHonest rejected-IsHonest finish_with_entity-IsHonest bind_run-IsHonest

  command_outcome-created :
      (k : CommandId) (db : Db) {o : AppendOutcome}
      → command_outcome c k db ≡ ok (some o)
      → o.created ≡ false
  unfolding command_outcome stored_outcome
  command_outcome-created k db h = elim (Option-cases (find_receipt (c.uuid_text k) db)) [
    | inl missing ↦ absurd (ground arith)
    | inr (row, seen) ↦ elim (Result-cases (stored_outcome c row)) [
      | inl (o, good) ↦ ground arith
      | inr (e, bad) ↦ absurd (ground arith)
    ]
  ]

  answer-IsHonest :
      (f : Fresh) (cmd : ClientCommand) (reserved : Option NodeId) (s : HubState)
      (x : Result (Option AppendOutcome))
      → command_outcome c (Protocol.command_id cmd) s.hub ≡ x
      → IsHonest
          (Protocol.command_id cmd)
          (Commands.answer cmd (Commands.apply_new c f cmd reserved s) s x)
  unfolding accepted_receipt
  answer-IsHonest f cmd reserved s (err e) p = apply_new-IsHonest f cmd reserved s
  answer-IsHonest f cmd reserved s (ok none) p = apply_new-IsHonest f cmd reserved s
  answer-IsHonest f cmd reserved s (ok (some o)) p =
      λ n i h. p ∙ ground (arith, command_outcome-created (Protocol.command_id cmd) s.hub p)

  outcome-Grows :
      {a b : Db} (k : CommandId) {o : AppendOutcome}
      → Grows a b
      → command_outcome c k a ≡ ok (some o)
      → command_outcome c k b ≡ ok (some o)
  unfolding command_outcome
  outcome-Grows {a} {b} k g h = elim (Option-cases (find_receipt (c.uuid_text k) a)) [
    | inl missing ↦ absurd (ground arith)
    | inr (row, seen) ↦ ground (arith, find_receipt-Grows {a = a} {b = b} (c.uuid_text k) g seen)
  ]

  -- Once a client command was accepted, the same command id, with any content and after any
  -- operations of the store, is accepted with the same sequence and event; no node is asked to do
  -- anything, and the hub stays as it is.
  pub apply_command_inner-again :
      (f f' : Fresh) (cmd cmd' : ClientCommand) (reserved reserved' : Option NodeId)
      (s t : HubState) (sequence : ℕ) (event_id : EventId)
      → (Commands.apply_command_inner c f cmd reserved s).0.receipt
        ≡ accepted_receipt (Protocol.command_id cmd) sequence event_id
      → Reaches c (Commands.apply_command_inner c f cmd reserved s).1.hub t.hub
      → Protocol.command_id cmd' ≡ Protocol.command_id cmd
      → Commands.apply_command_inner c f' cmd' reserved' t ≡ (
        record {
          receipt = accepted_receipt (Protocol.command_id cmd) sequence event_id;
          dispatch = none;
        },
        t,
      )
  unfolding Commands.apply_command_inner
  apply_command_inner-again f f' cmd cmd' reserved reserved' s t n i h (ss, later) same =
      let s' = (Commands.apply_command_inner c f cmd reserved s).1 in
      let first : command_outcome c (Protocol.command_id cmd) s'.hub ≡ ok (some (known n i)) =
        answer-IsHonest f cmd reserved s _ refl n i h in
      let now : command_outcome c (Protocol.command_id cmd') t.hub ≡ ok (some (known n i)) =
        rw (same, later)
          (outcome-Grows (Protocol.command_id cmd) (history-Grows c ss s'.hub) first) in
      rw (Commands.apply_command_inner, now)
        (ap
          (λ (k : CommandId).
            let e : CommandEffect = record { receipt = accepted_receipt k n i; dispatch = none } in
            (e, t))
          same)
