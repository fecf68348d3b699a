-- ===== src/Hub/Coherent.antt =====
-- The cache of bindings through the hub's operations.
pub mod Starts
pub mod Handlers
use stackhour.Prelude.{
  ℕ, ◌+◌, ◌<◌, String, ◌≡◌, refl, sym, ◌∙◌, ap, ◌⊎◌, inl, inr, Bool, true, false, Option, none,
  some, List, [], ◌∷◌, ◌++◌, arith, Bool-cases, Option-cases, All, is_some, str_eq, eq_refl,
}
use stackhour.Result.{Result, ok, err, Result-cases}
use stackhour.Sql
use stackhour.Sql.Laws.{first-append, first_of_exists}
use stackhour.Domain.Codec.{Codec, IsLawful, year_10000}
use stackhour.Domain.Ids.{TaskId, RunId, EventId, CommandId, ApprovalId, NodeId, Time}
use stackhour.Domain.Decision.{Decision}
use stackhour.Domain.Event.{EventDraft, Event}
use stackhour.Domain.Entities.{Run}
use stackhour.Domain.Protocol
use stackhour.Domain.Protocol.{
  HubToNode, ProtocolError, ClientCommand, create_task, send_user_message, start_run, interrupt_run,
  RunSpec,
}
use stackhour.Store.Db.{Db, settle}
use stackhour.Store.Rows.{RunRow, run_row, row_to_run}
use stackhour.Store.Rows.Roundtrip.{row_to_run-run_row}
use stackhour.Store.Tables.{next_sequence, insert_event, insert_receipt_row, insert_run_row}
use stackhour.Store.Reads.{get_run}
use stackhour.Store.Append.{
  AppendOutcome, EntityWrite, run_entity, append_command_bundle, append_new, write_entity,
  command_outcome,
}
use stackhour.Store.Approvals
use stackhour.Store.Log.Effect.{>>=-eq-ok, receipt_row}
use stackhour.Store.Atomic.{append_command_bundle-created, bundle_fresh}
use stackhour.Store.Ownership.{history-run}
use stackhour.Hub.Table
use stackhour.Hub.State.{HubState, node_for_task, remember_run, same_id}
use stackhour.Hub.Binding.{Stored, IsCoherent, All-remove, run_binding_checked-IsCoherent}
use stackhour.Hub.Publish.{
  publish, send, finish_with_entity, finish, fetch_event, effect_of, CommandEffect,
}
use stackhour.Hub.Commands
use stackhour.Hub.Commands.{Fresh}
use stackhour.Hub.Reaches.{
  Reaches, Reaches-refl, publish-hub, publish-ok, finish_with_entity-Reaches, resolution-Reaches,
}

All-map {ℓ κ μ} :
    {A : Type ℓ} (P : A → Type κ) (Q : A → Type μ)
    → ((x : A) → P x → Q x)
    → (xs : List A) → All P xs
    → All Q xs
All-map P Q f [] h = tt
All-map P Q f (x ∷ xs) h = (f x h.0, All-map P Q f xs h.1)

module _ (c : Codec) where
  pub Stored-Reaches :
      (a b : Db) → Reaches c a b → (x : RunId × (NodeId × TaskId)) → Stored c a x → Stored c b x
  Stored-Reaches a b (ss, e) (id, (n, t)) (r, stored, p, q) =
      let (status, later) = history-run c id r ss a stored in
      (record r { status = status }, rw e later, p, q)

  pub Reaches-IsCoherent :
      (s t : HubState)
      → Reaches c s.hub t.hub
      → t.routing ≡ s.routing
      → IsCoherent c s
      → IsCoherent c t
  Reaches-IsCoherent s t reaches same v = rw same (
      All-map (Stored c s.hub) (Stored c t.hub) (Stored-Reaches s.hub t.hub reaches) s.routing.run
        v)

  pub publish-routing :
      (r : Result AppendOutcome) (s : HubState) → (publish c r s).1.routing ≡ s.routing
  unfolding publish
  publish-routing (err e) s = refl
  publish-routing (ok o) s = elim (Bool-cases o.created) [
    | inr old ↦ rw (publish, old) refl
    | inl new ↦ rw (publish, new) (sent (fetch_event c o.sequence s.hub))
  ]
    where
      sent : (r : Result (Option Event)) → (send r o s).1.routing ≡ s.routing
      sent (err e) = refl
      sent (ok none) = refl
      sent (ok (some e)) = refl

  pub finish_with_entity-IsCoherent :
      (now : Time) (e : EventId) (k : CommandId) (d : EventDraft) (q : Option (NodeId × HubToNode))
      (w : EntityWrite) (s : HubState)
      → IsCoherent c s
      → IsCoherent c (finish_with_entity c now e k d q w s).1
  unfolding finish_with_entity
  finish_with_entity-IsCoherent now e k d q w s v =
      Reaches-IsCoherent s (finish_with_entity c now e k d q w s).1
        (finish_with_entity-Reaches c now e k d q w s) (publish-routing _ _) v
