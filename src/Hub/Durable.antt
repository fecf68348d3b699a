-- ===== src/Hub/Durable.antt =====
-- The work that a command asks of a node, and the store's queue for that node.
use stackhour.Prelude.{
  ◌≡◌, refl, ◌∙◌, ap, inl, inr, Bool, true, ◌&&◌, Option, none, some, List, [], ◌∷◌, ◌++◌, arith,
  Bool-cases, str_eq, eq_refl,
}
use stackhour.Result.{Result, ok, err, Result-cases}
use stackhour.Sql
use stackhour.Domain.Codec.{Codec}
use stackhour.Domain.Ids.{TaskId, RunId, EventId, CommandId, NodeId, Time}
use stackhour.Domain.Event.{EventDraft}
use stackhour.Domain.Protocol
use stackhour.Domain.Protocol.{HubToNode, ProtocolError, ClientCommand}
use stackhour.Store.Db.{Db}
use stackhour.Store.Rows.{DispatchRow}
use stackhour.Store.Dispatch.{unacked_at}
use stackhour.Store.Append.{AppendOutcome, EntityWrite, append_command_bundle}
use stackhour.Store.Atomic.{append_command_bundle-created, dispatches_after}
use stackhour.Hub.State.{HubState}
use stackhour.Hub.Publish.{publish, finish_with_entity, CommandEffect, effect_of}
use stackhour.Hub.Commands
use stackhour.Hub.Commands.{Fresh, rejected}
use stackhour.Hub.Cases.{apply_new_cases}
use stackhour.Hub.Reaches.{publish-ok, publish-hub, bind_run-hub}

exists-append_right {ℓ} :
    {R : Type ℓ} (p : R → Bool) (xs : List R) (y : R)
    → p y ≡ true
    → Sql.exists p (xs ++ y ∷ []) ≡ true
unfolding Sql.exists
exists-append_right p [] y h = ground arith
exists-append_right p (x ∷ xs) y h = ground (arith, exists-append_right p xs y h)

module _ (c : Codec) where
  -- the queue holds the command's message for the node, not acknowledged yet
  abbrev pub queued : CommandId → NodeId → HubToNode → Db → Bool
  queued k n m db =
      Sql.exists
        (λ (r : DispatchRow). unacked_at (c.uuid_text k) n r && str_eq r.message (c.message_text m))
        db.pending_dispatches

  abbrev IsDurable : CommandId → CommandEffect × HubState → Type 0
  IsDurable k x =
      (n : NodeId) (m : HubToNode) → x.0.dispatch ≡ some (n, m) → queued k n m x.1.hub ≡ true

  dispatches_after-queued :
      (k : CommandId) (n : NodeId) (m : HubToNode) (now : Time) (rows : List DispatchRow)
      → Sql.exists
          (λ (r : DispatchRow).
            unacked_at (c.uuid_text k) n r && str_eq r.message (c.message_text m))
          (dispatches_after c k (some (n, m)) now rows)
        ≡ true
  dispatches_after-queued k n m now rows =
      exists-append_right _ rows _
        (ground (arith, eq_refl (c.uuid_text k), eq_refl n, eq_refl (c.message_text m)))

  published-queued :
      (now : Time) (e : EventId) (k : CommandId) (d : EventDraft) (q : Option (NodeId × HubToNode))
      (w : EntityWrite) (s : HubState) (r : Result AppendOutcome) (db : Db) (n : NodeId)
      (m : HubToNode)
      → append_command_bundle c now e k d w q s.hub ≡ (r, db)
      → (effect_of k q (publish c r (record s { hub = db })).0).dispatch ≡ some (n, m)
      → queued k n m db ≡ true
  unfolding publish
  published-queued now e k d q w s (err x) db n m p h = absurd (ground arith)
  published-queued now e k d q w s (ok o) db n m p h =
      elim (Result-cases (publish c (ok o) (record s { hub = db })).0) [
        | inr (x, bad) ↦ absurd (ground arith)
        | inl (o', good) ↦ elim (Bool-cases o'.created) [
          | inr old ↦ absurd (ground arith)
          | inl new ↦
              let same = publish-ok c o (record s { hub = db }) good in
              let asked : q ≡ some (n, m) = ground arith in
              let after = append_command_bundle-created c now e k d w q s.hub p (rw same new) in
              rw (after.2, asked) (dispatches_after-queued k n m now s.hub.pending_dispatches)
        ]
      ]

  finish_with_entity-IsDurable :
      (now : Time) (e : EventId) (k : CommandId) (d : EventDraft) (q : Option (NodeId × HubToNode))
      (w : EntityWrite) (s : HubState)
      → IsDurable k (finish_with_entity c now e k d q w s)
  unfolding finish_with_entity
  finish_with_entity-IsDurable now e k d q w s n m h =
      let a = append_command_bundle c now e k d w q s.hub in
      ap (queued k n m) (publish-hub c a.0 (record s { hub = a.1 }))
      ∙ published-queued now e k d q w s a.0 a.1 n m refl h

  bind_run-IsDurable :
      (i : RunId) (n : NodeId) (t : TaskId) (k : CommandId) (x : CommandEffect × HubState)
      → IsDurable k x
      → IsDurable k (Commands.bind_run i n t x)
  bind_run-IsDurable i n t k x durable n' m h =
      ap (queued k n' m) (bind_run-hub c i n t x) ∙ durable n' m h

  apply_new-IsDurable :
      (f : Fresh) (cmd : ClientCommand) (reserved : Option NodeId) (s : HubState)
      → IsDurable (Protocol.command_id cmd) (Commands.apply_new c f cmd reserved s)
  apply_new-IsDurable =
      apply_new_cases c IsDurable (λ k e s n m h. absurd (ground arith))
        finish_with_entity-IsDurable bind_run-IsDurable

  answer-IsDurable :
      (f : Fresh) (cmd : ClientCommand) (reserved : Option NodeId) (s : HubState)
      (x : Result (Option AppendOutcome))
      → IsDurable
          (Protocol.command_id cmd)
          (Commands.answer cmd (Commands.apply_new c f cmd reserved s) s x)
  answer-IsDurable f cmd reserved s (err e) = apply_new-IsDurable f cmd reserved s
  answer-IsDurable f cmd reserved s (ok none) = apply_new-IsDurable f cmd reserved s
  answer-IsDurable f cmd reserved s (ok (some o)) = λ n m h. absurd (ground arith)

  -- Whatever a client command asks of a node is in the store's queue for that node, unacknowledged
  -- and with the same message, when the answer is given: a node that misses the message finds it
  -- when it connects again.
  pub apply_command_inner-queued :
      (f : Fresh) (cmd : ClientCommand) (reserved : Option NodeId) (s : HubState) (n : NodeId)
      (m : HubToNode)
      → (Commands.apply_command_inner c f cmd reserved s).0.dispatch ≡ some (n, m)
      → queued (Protocol.command_id cmd) n m (Commands.apply_command_inner c f cmd reserved s).1.hub
        ≡ true
  unfolding Commands.apply_command_inner
  apply_command_inner-queued f cmd reserved s n m h = answer-IsDurable f cmd reserved s _ n m h
